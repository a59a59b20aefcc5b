-- ===== src/Tests/LinkTests.antt =====
-- The link's queue and its receive buffer at concrete inputs.
use bosun_midi_captain.Base.{
  ℕ, ◌≡◌, refl, String, true, Option, some, List, [], ◌∷◌, ◌++◌, arith, same_text, contains, false,
  same_nat,
}
use bosun_midi_captain.Link.{Link, come_up, go_down, take_line}
use bosun_midi_captain.Link.Queue.{
  Event, link_does, hub_sends, run, wire, admitted, IsSound, wire-fifo, wire-session, run-IsSound,
}
use bosun_midi_captain.Link.Pump.{Pass, runs, opened, pump}
use bosun_midi_captain.Link.Pump.Wire.{IsWhole, state_of, pump-wire}
use bosun_midi_captain.Link.Sentinel.{Sync, Round}
use bosun_midi_captain.Json.{Value, str, obj, entry, no_entries}
use bosun_midi_captain.Link.Receive.{newline, split_lines, feed_bytes}
use bosun_midi_captain.Link.Receive.Chunks.{
  join_lines, AllCut, IsPartial, split_lines-join, feed_bytes-append, feed_bytes-IsPartial,
}
use bosun_midi_captain.Tests.Demo.{demo_json, up_link}

abbrev sends : List Event
sends = hub_sends "PING" ∷ (link_does take_line ∷ (hub_sends "STATS" ∷ []))

abbrev comes_back : List Event
comes_back = link_does come_up ∷ sends

abbrev last_run : Link
last_run = run (hub_sends "REBOOT" ∷ [] ++ link_does go_down ∷ []) up_link

wire-fifo_example :
    wire sends up_link ++ (run sends up_link).tx ≡ up_link.tx ++ admitted sends up_link
wire-fifo_example = wire-fifo sends up_link tt

wire-session_example :
    wire comes_back last_run ++ (run comes_back last_run).tx ≡ admitted comes_back last_run
wire-session_example = wire-session (hub_sends "REBOOT" ∷ []) comes_back up_link tt

run-IsSound_example : IsSound (run sends up_link)
run-IsSound_example = run-IsSound sends up_link (omega arith, λ p. refl)

-- A decoder that knows no text.
abbrev decode : List ℕ → String
decode [] = ""
decode (b ∷ bs) = "line"

split_lines-join_example :
    let (lines, rest) = split_lines (65 ∷ []) (66 ∷ (10 ∷ (67 ∷ []))) in
    (join_lines lines ++ rest ≡ 65 ∷ (66 ∷ (10 ∷ (67 ∷ []))))
    × AllCut lines
    × (contains newline rest ≡ false)
split_lines-join_example = split_lines-join (65 ∷ []) (66 ∷ (10 ∷ (67 ∷ []))) refl

feed_bytes-append_example :
    let (lines, rest) = feed_bytes decode (66 ∷ []) (65 ∷ []) in
    feed_bytes decode (66 ∷ [] ++ 10 ∷ []) (65 ∷ [])
    ≡ (lines ++ (feed_bytes decode (10 ∷ []) rest).0, (feed_bytes decode (10 ∷ []) rest).1)
feed_bytes-append_example =
    feed_bytes-append decode (66 ∷ []) (10 ∷ []) (65 ∷ []) refl (omega arith)

feed_bytes-IsPartial_example : IsPartial (feed_bytes decode (10 ∷ []) (65 ∷ [])).1
feed_bytes-IsPartial_example =
    feed_bytes-IsPartial decode (10 ∷ []) (65 ∷ []) (refl, omega arith) (omega arith)

abbrev encode : String → List ℕ
encode line = 80 ∷ (73 ∷ [])

-- Two passes that write one byte each, with a command that arrived before the first.
abbrev passes : List Pass
passes = slow_pass ("PING" ∷ []) ∷ (slow_pass [] ∷ [])
  where
    slow_pass : List String → Pass
    slow_pass new = record {
      arrived = new;
      now = 5;
      available = [];
      available_at = 5;
      accepted = 1;
      written_at = 6;
      chunk = [];
      read_at = 7;
    }

pump-wire_example : IsWhole encode (state_of (pump decode encode passes (runs (opened 0 [] []))))
pump-wire_example = pump-wire encode decode passes 0 [] []

abbrev ack : List ℕ → Option Value
ack raw = some (obj (entry "type" (str "ACK") (entry "id" (str "__hub_sync_1") no_entries)))

-- One byte of the sentinel goes out in each round, and the answer to the first one is stale.
abbrev rounds : List Round
rounds = round ∷ (round ∷ [])
  where
    round : Round
    round = record { in_time = true; written = some 1; chunk = some (65 ∷ (10 ∷ [])) }

abbrev synced : Sync
synced = record { pending = []; buf = []; wire = 80 ∷ (73 ∷ []) }
