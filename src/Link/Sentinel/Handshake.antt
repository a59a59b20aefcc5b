-- ===== src/Link/Sentinel/Handshake.antt =====
-- When the handshake succeeds.
use bosun_midi_captain.Base.{ℕ, ◌≡◌, String, true, Option, List, ◌++◌}
use bosun_midi_captain.Json.{Value}
use bosun_midi_captain.Link.Sentinel.{Progress, linked, refused, waiting, is_ack}

module _ (parse : List ℕ → Option Value) (marker : String) (sentinel : List ℕ) where
  -- On the way, what was sent and what is pending are the sentinel; at the end, all of it was sent
  -- and the line that was taken is an ACK of this session.
  abbrev pub Follows : Progress → Type 0
  Follows (waiting s) = s.wire ++ s.pending ≡ sentinel
  Follows refused = Unit {0}
  Follows (linked raw s) = (s.wire ≡ sentinel) × (is_ack marker (parse raw) ≡ true)
