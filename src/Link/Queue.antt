-- ===== src/Link/Queue.antt =====
-- The TX queue of one session: order, bound, and what a lost session takes with it. The history is
-- the sequence of locked sections, in the order in which they take the lock.
use bosun_midi_captain.Base.{
  ◌≤◌, ◌≡◌, refl, sym, ap, ◌∙◌, String, false, List, [], ◌∷◌, ◌++◌, arith, length, length-append,
  append-nil, append_assoc, Bool-cases, inl, inr, leb, if◌then◌else◌,
}
use bosun_midi_captain.Link.{
  Link, LinkStep, come_up, go_down, take_line, link_step, drop_first, admit, with_newline, tx_max,
}

pub data Event : Type 0 where
  link_does : LinkStep → Event
  hub_sends : String → Event

-- What the queue's head gives to the wire.
abbrev front : List String → List String
front [] = []
front (x ∷ xs) = x ∷ []

-- The lines that one event puts on the wire, the lines that it admits, and the link after it.
abbrev pub wire_of : Event → Link → List String
wire_of (link_does take_line) l = front l.tx
wire_of _ l = []

abbrev pub admitted_of : Event → Link → List String
admitted_of (hub_sends line) l = if (admit line l).0 then with_newline line ∷ [] else []
admitted_of _ l = []

abbrev pub after : Event → Link → Link
after (link_does s) l = link_step s l
after (hub_sends line) l = (admit line l).1

abbrev pub run : List Event → Link → Link
run [] l = l
run (e ∷ es) l = run es (after e l)

abbrev pub wire : List Event → Link → List String
wire [] l = []
wire (e ∷ es) l = wire_of e l ++ wire es (after e l)

abbrev pub admitted : List Event → Link → List String
admitted [] l = []
admitted (e ∷ es) l = admitted_of e l ++ admitted es (after e l)

-- No session ends in this history.
abbrev pub IsOneSession : List Event → Type 0
IsOneSession [] = Unit
IsOneSession (link_does go_down ∷ es) = ⊥
IsOneSession (e ∷ es) = IsOneSession es

front-drop : (xs : List String) → front xs ++ drop_first xs ≡ xs
unfolding drop_first
front-drop [] = refl
front-drop (x ∷ xs) = refl

admit-queue :
    (line : String) (l : Link) → (admit line l).1.tx ≡ l.tx ++ admitted_of (hub_sends line) l
unfolding admit
admit-queue line l = elim (Bool-cases l.connected) [
  | inl up ↦ elim (Bool-cases (leb tx_max (length l.tx))) [
    | inl full ↦ rw (up, full) (sym (append-nil l.tx))
    | inr room ↦ rw (up, room) refl
  ]
  | inr down ↦ rw down (sym (append-nil l.tx))
]

step-fifo :
    (e : Event) (es : List Event) (l : Link)
    → IsOneSession (e ∷ es)
    → (wire_of e l ++ (after e l).tx ≡ l.tx ++ admitted_of e l) × IsOneSession es
unfolding link_step
step-fifo (link_does come_up) es l h = (sym (append-nil l.tx), h)
step-fifo (link_does go_down) es l h = absurd h
step-fifo (link_does take_line) es l h = (front-drop l.tx ∙ sym (append-nil l.tx), h)
step-fifo (hub_sends line) es l h = (admit-queue line l, h)

-- While a session lasts, the lines on the wire followed by those still queued are exactly the lines
-- that were queued at first followed by those that were admitted since: none is lost, evicted,
-- repeated or overtaken.
pub wire-fifo :
    (es : List Event) (l : Link)
    → IsOneSession es
    → wire es l ++ (run es l).tx ≡ l.tx ++ admitted es l
wire-fifo [] l h = sym (append-nil l.tx)
wire-fifo (e ∷ es) l h =
    let (now, h') = step-fifo e es l h in
    append_assoc (wire_of e l) (wire es (after e l)) (run es (after e l)).tx
    ∙ ap (λ rest. wire_of e l ++ rest) (wire-fifo es (after e l) h')
    ∙ sym (append_assoc (wire_of e l) (after e l).tx (admitted es (after e l)))
    ∙ ap (λ xs. xs ++ admitted es (after e l)) now
    ∙ append_assoc l.tx (admitted_of e l) (admitted es (after e l))

run-append : (es fs : List Event) (l : Link) → run (es ++ fs) l ≡ run fs (run es l)
run-append [] fs l = refl
run-append (e ∷ es) fs l = run-append es fs (after e l)

-- Nothing that was admitted before a session ended reaches the wire after it: from there on, wire
-- and queue hold exactly what was admitted from there on.
pub wire-session :
    (before later : List Event) (l : Link)
    → IsOneSession later
    → let fresh = run (before ++ link_does go_down ∷ []) l in
      wire later fresh ++ (run later fresh).tx ≡ admitted later fresh
unfolding link_step
wire-session before later l h =
    rw (run-append before (link_does go_down ∷ []) l)
      (wire-fifo later (link_step go_down (run before l)) h)

-- At most 256 lines wait, and none while the link is down.
abbrev pub IsSound : Link → Type 0
IsSound l = (length l.tx ≤ tx_max) × (l.connected ≡ false → l.tx ≡ [])

after-IsSound : (e : Event) (l : Link) → IsSound l → IsSound (after e l)
unfolding admit link_step drop_first
after-IsSound (link_does come_up) l h = (h.0, λ p. cc)
after-IsSound (link_does go_down) l h = (omega arith, λ p. refl)
after-IsSound (link_does take_line) l h = (ground (arith, h), λ p. ground (arith, h))
after-IsSound (hub_sends line) l h =
    (ground (arith, h, length-append l.tx (with_newline line ∷ [])), λ p. ground (arith, h, p))

-- From a sound link, every history leads to a sound one: the queue never holds more than 256 lines,
-- and it is empty whenever the link is down.
pub run-IsSound : (es : List Event) (l : Link) → IsSound l → IsSound (run es l)
run-IsSound [] l h = h
run-IsSound (e ∷ es) l h = run-IsSound es (after e l) (after-IsSound e l h)
