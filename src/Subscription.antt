-- ===== src/Subscription.antt =====
-- tools/rpi-hub/bosun_hub/hub.py, class Subscription: one consumer's bounded queue of lines.
-- `none` is the close sentinel. asyncio.Queue(maxsize=n) raises QueueFull at n entries.
pub mod Backlog
use bosun_midi_captain.Base.{
  ℕ, String, Bool, true, false, Option, none, some, List, [], ◌∷◌, ◌++◌, leb, length, if◌then◌else◌,
}
use bosun_midi_captain.Json.{Json, Fields, str, obj, no_entries, entry}

-- SUBSCRIBER_QUEUE_MAX
abbrev pub subscriber_queue_max : ℕ
subscriber_queue_max = 512

pub record Subscription : Type 0 where
  pub want_status : Bool
  pub queue : List (Option String)

-- Hub._status_line
unfoldable pub status_fields : Bool → Fields
status_fields up =
    entry "type" (str "HUB") (entry "link" (str (if up then "up" else "down")) no_entries)

unfoldable pub status_line : ⦃json : Json⦄ → Bool → String
unfolding status_fields
status_line ⦃json⦄ up = json.spaced (obj (status_fields up))

-- queue.put_nowait, where QueueFull is ignored.
unfoldable pub put_nowait : Option String → List (Option String) → List (Option String)
put_nowait e q = if leb subscriber_queue_max (length q) then q else q ++ e ∷ []

-- queue.get_nowait
unfoldable pub drop_oldest : List (Option String) → List (Option String)
drop_oldest [] = []
drop_oldest (e ∷ q) = q

-- What remains of a full queue before the new line goes in.
unfoldable pub make_room : ⦃json : Json⦄ → Bool → List (Option String) → List (Option String)
make_room true q = put_nowait (some (status_line true)) (put_nowait (some (status_line false)) [])
make_room false q = drop_oldest q

-- Subscription._offer
unfoldable pub offer_queue :
    ⦃json : Json⦄ → Bool → String → List (Option String) → List (Option String)
unfolding make_room put_nowait drop_oldest
offer_queue want_status line q =
    if leb subscriber_queue_max (length q)
    then put_nowait (some line) (make_room want_status q)
    else put_nowait (some line) q

-- The queue's part of Subscription.close.
unfoldable pub close_queue : List (Option String) → List (Option String)
unfolding put_nowait
close_queue q = put_nowait none q
