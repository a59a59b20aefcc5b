-- ===== src/Link/Sentinel.antt =====
-- tools/rpi-hub/bosun_hub/link.py: the handshake that opens a session (_sentinel_sync). A Round says
-- what the clock and the transport give in one turn of its loop; `none` is an exception. `parse`
-- stands for json.loads(raw.decode("utf-8", "strict").strip()), with `none` for the two exceptions
-- that are skipped. The short sleep of an idle turn changes no state.
pub mod Handshake
use bosun_midi_captain.Base.{
  ℕ, String, Bool, true, false, Option, none, some, List, [], ◌∷◌, ◌++◌, ltb, length, take, drop,
  ◌&&◌, not, same_text, if◌then◌else◌,
}
use bosun_midi_captain.Json.{Value, Fields, str, obj, get_or_null, is_text}
use bosun_midi_captain.Link.Receive.{rx_buf_max, split_lines}
use bosun_midi_captain.Link.Pump.{is_empty}

-- The loop's variables, and the bytes that the transport took.
pub record Sync : Type 0 where
  pub pending : List ℕ
  pub buf : List ℕ
  pub wire : List ℕ

-- Before the first turn.
unfoldable pub sync_start : List ℕ → Sync
sync_start sentinel = record { pending = sentinel; buf = []; wire = [] }

-- Whether there is time left and no stop; what write_some returns; what read returns.
pub record Round : Type 0 where
  pub in_time : Bool
  pub written : Option ℕ
  pub chunk : Option (List ℕ)

-- The line that was taken for the ACK, a refusal, or the loop goes on.
pub data Progress : Type 0 where
  linked : List ℕ → Sync → Progress
  refused : Progress
  waiting : Sync → Progress

-- An ACK of this session.
unfoldable pub is_ack : String → Option Value → Bool
is_ack marker (some (obj m)) =
    is_text "ACK" (get_or_null "type" m) && is_text marker (get_or_null "id" m)
is_ack marker _ = false

module _ (parse : List ℕ → Option Value) (marker : String) where
  -- while b"\n" in buf: the first line that is the ACK, once the sentinel has been sent.
  unfoldable pub scan_lines : List (List ℕ) → Sync → Progress
  scan_lines [] s = waiting s
  scan_lines (raw ∷ raws) s =
      let rest = scan_lines raws s in
      if is_empty s.pending && is_ack marker (parse raw) then linked raw s else rest

  unfoldable pub take_chunk : Option (List ℕ) → Sync → Progress
  take_chunk none s = refused
  take_chunk (some []) s = waiting s
  take_chunk (some (b ∷ bs)) s =
      if ltb rx_buf_max (length (s.buf ++ b ∷ bs))
      then refused
      else let (raws, rest) = split_lines [] (s.buf ++ b ∷ bs) in
        scan_lines raws (record s { buf = rest })

  unfoldable pub send_sentinel : Option ℕ → Option (List ℕ) → Sync → Progress
  send_sentinel none chunk s = refused
  send_sentinel (some n) chunk s =
      if ltb (length s.pending) n
      then refused
      else take_chunk chunk
          (record s { pending = drop n s.pending; wire = s.wire ++ take n s.pending })

  -- One turn of the loop.
  unfoldable pub sync_round : Round → Sync → Progress
  sync_round r s =
      if not r.in_time
      then refused
      else if is_empty s.pending
      then take_chunk r.chunk s
      else send_sentinel r.written r.chunk s

  -- The loop in _sentinel_sync.
  unfoldable pub sentinel_sync : List Round → Progress → Progress
  sentinel_sync [] p = p
  sentinel_sync (r ∷ rest) (waiting s) = sentinel_sync rest (sync_round r s)
  sentinel_sync (r ∷ rest) (linked raw s) = linked raw s
  sentinel_sync (r ∷ rest) refused = refused
