-- ===== src/Link.antt =====
-- tools/rpi-hub/bosun_hub/link.py: the part of UpstreamLink that the hub calls. The connected flag
-- and the TX queue are guarded by one lock, so each locked section is one step. The link thread
-- runs between the hub's calls: `schedule` holds what it does before each locked section of the
-- hub, and a theorem that holds for every schedule holds for every interleaving.
pub mod Queue
pub mod Receive
pub mod Pump
pub mod Sentinel
use Prim.Native.String.{◌++◌ as str_append}
use Prim.Native.Char.{Char, code}
use bosun_midi_captain.Base.{
  ℕ, String, Bool, true, false, List, [], ◌∷◌, ◌++◌, leb, length, if◌then◌else◌, nat_beq, ◌||◌,
  ◌&&◌,
}

-- queue.Queue(maxsize=256)
abbrev pub tx_max : ℕ
tx_max = 256

-- What the link thread does under the state lock: publish a new session, tear one down (which
-- purges the queue in the same locked section), or take the oldest command from the queue.
pub data LinkStep : Type 0 where
  come_up : LinkStep
  go_down : LinkStep
  take_line : LinkStep

pub record Link : Type 0 where
  pub connected : Bool
  pub tx : List String
  pub schedule : List (List LinkStep)

unfoldable pub drop_first {ℓ} : {A : Type ℓ} → List A → List A
drop_first [] = []
drop_first (x ∷ xs) = xs

unfoldable pub link_step : LinkStep → Link → Link
unfolding drop_first
link_step come_up l = record l { connected = true }
link_step go_down l = record l { connected = false; tx = [] }
link_step take_line l = record l { tx = drop_first l.tx }

unfoldable pub link_steps : List LinkStep → Link → Link
unfolding link_step
link_steps [] l = l
link_steps (s ∷ rest) l = link_steps rest (link_step s l)

-- The link thread's turn before the hub enters a locked section.
turn_with : List (List LinkStep) → Link → Link
turn_with [] l = l
turn_with (steps ∷ rest) l = link_steps steps (record l { schedule = rest })

unfoldable pub turn : Link → Link
unfolding turn_with link_steps
turn l = turn_with l.schedule l

-- The `connected` property.
unfoldable pub is_connected : Link → Bool × Link
unfolding turn
is_connected l = let t = turn l in (t.connected, t)

is_newline : Char → Bool
is_newline c = nat_beq (code c) 13 || nat_beq (code c) 10

is_empty : String → Bool
is_empty String.[] = true
is_empty (String.◌∷◌ c s) = false

-- line.rstrip("\r\n")
unfoldable pub strip_newlines : String → String
unfolding is_newline is_empty
strip_newlines String.[] = String.[]
strip_newlines (String.◌∷◌ c s) =
    let rest = strip_newlines s in
    if is_newline c && is_empty rest then String.[] else String.◌∷◌ c rest

unfoldable pub with_newline : String → String
with_newline line = str_append (strip_newlines line) "\n"

-- A command is admitted at the back of the queue, or refused: while the link is down and when the
-- queue is full. The wake-up that follows touches neither the flag nor the queue.
unfoldable pub admit : String → Link → Bool × Link
unfolding with_newline
admit line l =
    if l.connected
    then if leb tx_max (length l.tx)
      then (false, l)
      else (true, record l { tx = l.tx ++ with_newline line ∷ [] })
    else (false, l)

unfoldable pub send : String → Link → Bool × Link
unfolding turn admit
send line l = admit line (turn l)
