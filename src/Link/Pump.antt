-- ===== src/Link/Pump.antt =====
-- tools/rpi-hub/bosun_hub/link.py: the loop of the link thread over one open session (_pump). One
-- pass of the loop is a step; a Pass says what the clock and the transport give in it. Times are
-- milliseconds; a difference that would be negative is 0, and no threshold is 0. `encode` stands for
-- line.encode("utf-8"). The short wait at the end of an idle pass changes no state.
pub mod Wire
use bosun_midi_captain.Base.{
  ℕ, ◌+◌, ◌-◌, String, Bool, true, false, Option, none, some, List, [], ◌∷◌, ◌++◌, ltb, leb, length,
  take, drop, ◌==◌, ◌&&◌, ◌||◌, not, same_nat, if◌then◌else◌,
}
use bosun_midi_captain.Json.{Json}
use bosun_midi_captain.Link.Receive.{feed_bytes}

-- KEEPALIVE_S, STALL_S, WRITE_ONLY_GRACE_S in milliseconds, and WRITE_ONLY_STALL
abbrev pub keepalive_ms : ℕ
keepalive_ms = 6000

abbrev pub stall_ms : ℕ
stall_ms = 20000

abbrev pub write_only_grace_ms : ℕ
write_only_grace_ms = 3000

abbrev pub write_only_stall : ℕ
write_only_stall = 5

abbrev pub keepalive_line : String
keepalive_line = "{\"type\":\"PING\",\"id\":\"__hub_keepalive\"}\n"

-- The loop's variables, the queue and the receive buffer; `wire`, `begun` and `lines` are the
-- history: the bytes the transport took, the lines whose writing was begun, the lines for on_line.
pub record Pump : Type 0 where
  pub last_rx : ℕ
  pub last_tx : ℕ
  pub writes_since_rx : ℕ
  pub pending : List ℕ
  pub tx : List String
  pub rx : List ℕ
  pub wire : List ℕ
  pub begun : List String
  pub lines : List String

-- One pass: the commands that `send` has queued before it looks at the queue, the time at its start,
-- the bytes that were there already, how many bytes write_some
-- takes, the bytes that `read` gives, and the time at each of the three.
pub record Pass : Type 0 where
  pub arrived : List String
  pub now : ℕ
  pub available : List ℕ
  pub available_at : ℕ
  pub accepted : ℕ
  pub written_at : ℕ
  pub chunk : List ℕ
  pub read_at : ℕ

pub data Stop : Type 0 where
  runs : Pump → Stop
  write_only_stalled : Pump → Stop
  silent : Pump → Stop

abbrev pub is_empty {ℓ} : {A : Type ℓ} → List A → Bool
is_empty [] = true
is_empty (x ∷ xs) = false

abbrev later : ℕ → ℕ → ℕ
later a b = if leb a b then b else a

-- if not pending: the next line of the queue, or the keepalive once the link has been idle.
unfoldable pub next_line : ℕ → List String → Pump → Option String
next_line now [] p =
    if leb keepalive_ms (now - later p.last_rx p.last_tx) then some keepalive_line else none
next_line now (line ∷ rest) p = some line

unfoldable pub arrive : List String → Pump → Pump
arrive new p = record p { tx = p.tx ++ new }

-- The loop's variables when a session begins, with any buffer.
unfoldable pub opened : ℕ → List String → List ℕ → Pump
opened now tx rx = record {
  last_rx = now;
  last_tx = now;
  writes_since_rx = 0;
  pending = [];
  tx = tx;
  rx = rx;
  wire = [];
  begun = [];
  lines = [];
}

unfoldable pub rest_of : List String → List String
rest_of [] = []
rest_of (line ∷ rest) = rest

module _ (encode : String → List ℕ) where
  unfoldable pub begin_line : Option String → Pump → Pump
  begin_line none p = p
  begin_line (some line) p = record p {
    pending = encode line;
    tx = rest_of p.tx;
    begun = p.begun ++ line ∷ [];
  }

  unfoldable pub fill_pending : ℕ → Pump → Pump
  fill_pending now p = if is_empty p.pending then begin_line (next_line now p.tx p) p else p

-- written = transport.write_some(pending), which never takes more than it is given.
unfoldable pub write_pending : ℕ → ℕ → Pump → Pump
write_pending accepted at p =
    if is_empty p.pending
    then p
    else let left = drop accepted p.pending in
      record p {
        wire = p.wire ++ take accepted p.pending;
        pending = left;
        last_tx = (if accepted == 0 then p.last_tx else at);
        writes_since_rx = (if is_empty left then p.writes_since_rx + 1 else p.writes_since_rx);
      }

module _ ⦃json : Json⦄ (decode : List ℕ → String) where
  -- What a chunk that is not empty does.
  unfoldable pub receive : List ℕ → ℕ → Pump → Pump
  receive chunk at p =
      if is_empty chunk
      then p
      else let (new, rx) = feed_bytes decode chunk p.rx in
        record p { last_rx = at; writes_since_rx = 0; rx = rx; lines = p.lines ++ new }

  -- The read at the end of a pass, with the tests for a dead pedal.
  unfoldable pub read_or_stop : List ℕ → ℕ → Pump → Stop
  read_or_stop chunk at p =
      if not (is_empty chunk)
      then runs (receive chunk at p)
      else if leb write_only_stall p.writes_since_rx && leb write_only_grace_ms (at - p.last_rx)
      then write_only_stalled p
      else if leb stall_ms (at - p.last_rx)
      then silent p
      else runs p

  module _ (encode : String → List ℕ) where
    -- One pass of the loop in _pump.
    unfoldable pub pump_pass : Pass → Pump → Stop
    pump_pass s p = read_or_stop s.chunk s.read_at (
        write_pending s.accepted s.written_at
          (fill_pending encode s.now (receive s.available s.available_at (arrive s.arrived p))))

    -- The loop, which ends where a pass stops it.
    unfoldable pub pump : List Pass → Stop → Stop
    pump [] stop = stop
    pump (s ∷ rest) (runs p) = pump rest (pump_pass s p)
    pump (s ∷ rest) (write_only_stalled p) = write_only_stalled p
    pump (s ∷ rest) (silent p) = silent p
