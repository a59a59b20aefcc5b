-- ===== src/Link/Receive/Chunks.antt =====
-- The receive buffer: nothing is lost, however the bytes are cut into chunks.
use bosun_midi_captain.Base.{
  ℕ, ◌+◌, ◌≤◌, ◌≡◌, refl, sym, ap, ◌∙◌, String, Bool, true, false, List, [], ◌∷◌, ◌++◌, arith,
  length, length-append, append-nil, append_assoc, Bool-cases, inl, inr, ltb, ◌==◌, ◌||◌, same_nat,
  same_text, contains,
}
use bosun_midi_captain.Json.{Json}
use bosun_midi_captain.Link.Receive.{
  rx_buf_max, newline, after_last, trim, split_lines, deliver_line, deliver_lines, feed_bytes,
}

-- The lines with their newlines again.
abbrev pub join_lines : List (List ℕ) → List ℕ
join_lines [] = []
join_lines (l ∷ ls) = l ++ newline ∷ join_lines ls

split_lines-end :
    (line bs : List ℕ) (b : ℕ)
    → (b == newline) ≡ true
    → split_lines line (b ∷ bs) ≡ (line ∷ (split_lines [] bs).0, (split_lines [] bs).1)
unfolding split_lines
split_lines-end line bs b h = rw (split_lines, h) refl

split_lines-more :
    (line bs : List ℕ) (b : ℕ)
    → (b == newline) ≡ false
    → split_lines line (b ∷ bs) ≡ split_lines (line ++ b ∷ []) bs
unfolding split_lines
split_lines-more line bs b h = rw (split_lines, h) refl

-- The bytes again: none is lost or added.
join-bytes :
    (line bytes : List ℕ)
    → join_lines (split_lines line bytes).0 ++ (split_lines line bytes).1 ≡ line ++ bytes
unfolding split_lines
join-bytes line [] = sym (append-nil line)
join-bytes line (b ∷ bs) = elim (Bool-cases (b == newline)) [
  | inl ends ↦ rw (split_lines-end line bs b ends) (
      append_assoc line (newline ∷ join_lines (split_lines [] bs).0) (split_lines [] bs).1
      ∙ ap (λ rest. line ++ newline ∷ rest) (join-bytes [] bs)
      ∙ ap (λ c. line ++ c ∷ bs) (sym ((same_nat.same_iff b newline).0 ends)))
  | inr more ↦
      rw (split_lines-more line bs b more)
        (join-bytes (line ++ b ∷ []) bs ∙ append_assoc line (b ∷ []) bs)
]

-- Two stretches of bytes, one after the other.
split_lines-append :
    (line xs ys : List ℕ)
    → let (raws, rest) = split_lines line xs in
      split_lines line (xs ++ ys) ≡ (raws ++ (split_lines rest ys).0, (split_lines rest ys).1)
unfolding split_lines
split_lines-append line [] ys = refl
split_lines-append line (b ∷ bs) ys = elim (Bool-cases (b == newline)) [
  | inl ends ↦
      rw (split_lines-end line (bs ++ ys) b ends, split_lines-end line bs b ends)
        (ap (λ p. (line ∷ p.0, p.1)) (split_lines-append [] bs ys))
  | inr more ↦
      rw (split_lines-more line (bs ++ ys) b more, split_lines-more line bs b more)
        (split_lines-append (line ++ b ∷ []) bs ys)
]

-- A stretch with no newline only grows the line.
split_lines-partial :
    (line xs ys : List ℕ)
    → contains newline xs ≡ false
    → split_lines line (xs ++ ys) ≡ split_lines (line ++ xs) ys
unfolding split_lines
split_lines-partial line [] ys h = rw (append-nil line) refl
split_lines-partial line (b ∷ bs) ys h =
    rw (split_lines-more line (bs ++ ys) b (or-false-left (b == newline) (contains newline bs) h)) (
      split_lines-partial (line ++ b ∷ []) bs ys
        (or-false-right (b == newline) (contains newline bs) h)
      ∙ ap (λ l. split_lines l ys) (append_assoc line (b ∷ []) bs))
  where
    or-false-left : (a b : Bool) → (a || b) ≡ false → a ≡ false
    or-false-left a b e = ground arith

    or-false-right : (a b : Bool) → (a || b) ≡ false → b ≡ false
    or-false-right a b e = ground arith

contains-snoc :
    (xs : List ℕ) (y : ℕ)
    → contains newline xs ≡ false
    → (y == newline) ≡ false
    → contains newline (xs ++ y ∷ []) ≡ false
contains-snoc [] y e f = ground (arith, e, f)
contains-snoc (x ∷ xs) y e f = ground (arith, contains-snoc xs y, e, f)

-- What remains has no newline.
split_lines-rest :
    (line bytes : List ℕ)
    → contains newline line ≡ false
    → contains newline (split_lines line bytes).1 ≡ false
unfolding split_lines
split_lines-rest line [] h = h
split_lines-rest line (b ∷ bs) h = elim (Bool-cases (b == newline)) [
  | inl ends ↦ rw (split_lines-end line bs b ends) (split_lines-rest [] bs refl)
  | inr more ↦
      rw (split_lines-more line bs b more)
        (split_lines-rest (line ++ b ∷ []) bs (contains-snoc line b h more))
]

-- No line holds a newline.
abbrev pub AllCut : List (List ℕ) → Type 0
AllCut [] = Unit
AllCut (l ∷ ls) = (contains newline l ≡ false) × AllCut ls

split_lines-AllCut :
    (line bytes : List ℕ) → contains newline line ≡ false → AllCut (split_lines line bytes).0
unfolding split_lines
split_lines-AllCut line [] h = tt
split_lines-AllCut line (b ∷ bs) h = elim (Bool-cases (b == newline)) [
  | inl ends ↦ rw (split_lines-end line bs b ends) ((h, split_lines-AllCut [] bs refl))
  | inr more ↦
      rw (split_lines-more line bs b more)
        (split_lines-AllCut (line ++ b ∷ []) bs (contains-snoc line b h more))
]

-- When the line begun before has no newline: the lines that are cut off, with their newlines,
-- followed by what remains, are the bytes that were there, and neither a line nor what remains
-- holds a newline. So the bytes are cut at each newline and nowhere else.
pub split_lines-join :
    (line bytes : List ℕ)
    → contains newline line ≡ false
    → (join_lines (split_lines line bytes).0 ++ (split_lines line bytes).1 ≡ line ++ bytes)
      × AllCut (split_lines line bytes).0
      × (contains newline (split_lines line bytes).1 ≡ false)
split_lines-join line bytes h =
    (join-bytes line bytes, split_lines-AllCut line bytes h, split_lines-rest line bytes h)

-- What remains is no longer than what there was.
split_lines-length :
    (line bytes : List ℕ) → length (split_lines line bytes).1 ≤ length line + length bytes
unfolding split_lines
split_lines-length line [] = omega arith
split_lines-length line (b ∷ bs) = elim (Bool-cases (b == newline)) [
  | inl ends ↦ rw (split_lines-end line bs b ends) (omega (arith, split_lines-length [] bs))
  | inr more ↦
      rw (split_lines-more line bs b more)
        (omega (arith, split_lines-length (line ++ b ∷ []) bs, length-append line (b ∷ [])))
]

after_last-rest : (bs : List ℕ) → contains newline (after_last bs) ≡ false
unfolding after_last
after_last-rest [] = refl
after_last-rest (b ∷ bs) = ground (arith, after_last-rest bs)

-- A buffer between two chunks: the start of a line, within the bound.
abbrev pub IsPartial : List ℕ → Type 0
IsPartial rx = (contains newline rx ≡ false) × (length rx ≤ rx_buf_max)

module _ ⦃json : Json⦄ (decode : List ℕ → String) where
  deliver_lines-append :
      (xs ys : List (List ℕ))
      → deliver_lines decode (xs ++ ys) ≡ deliver_lines decode xs ++ deliver_lines decode ys
  unfolding deliver_lines
  deliver_lines-append [] ys = refl
  deliver_lines-append (x ∷ xs) ys =
      ap (λ rest. deliver_line decode x ++ rest) (deliver_lines-append xs ys)
      ∙ sym
          (append_assoc (deliver_line decode x) (deliver_lines decode xs) (deliver_lines decode ys))

  feed_bytes-room :
      (chunk rx : List ℕ)
      → length rx + length chunk ≤ rx_buf_max
      → feed_bytes decode chunk rx
        ≡ (deliver_lines decode (split_lines [] (rx ++ chunk)).0, (split_lines [] (rx ++ chunk)).1)
  unfolding feed_bytes trim
  feed_bytes-room chunk rx room =
      let e : ltb rx_buf_max (length (rx ++ chunk)) ≡ false =
        ground (arith, length-append rx chunk) in
      rw e refl

  -- However the Captain's bytes are cut into chunks, the same lines are delivered in the same order
  -- and the same bytes remain, as long as they fit the buffer.
  pub feed_bytes-append :
      (first second rx : List ℕ)
      → contains newline rx ≡ false
      → length rx + length first + length second ≤ rx_buf_max
      → let (lines, rest) = feed_bytes decode first rx in
        feed_bytes decode (first ++ second) rx
        ≡ (lines ++ (feed_bytes decode second rest).0, (feed_bytes decode second rest).1)
  feed_bytes-append first second rx partial room =
      let raws = (split_lines [] (rx ++ first)).0 in
      let rest = (split_lines [] (rx ++ first)).1 in
      let no_newline = split_lines-rest [] (rx ++ first) refl in
      let shorter = split_lines-length [] (rx ++ first) in
      rw
        (
          feed_bytes-room first rx (omega arith),
          feed_bytes-room (first ++ second) rx (omega (arith, length-append first second)),
          feed_bytes-room second rest (omega (arith, shorter, length-append rx first)),
          sym (append_assoc rx first second),
          split_lines-append [] (rx ++ first) second,
          split_lines-partial [] rest second no_newline,
        )
        (ap (λ ls. (ls, (split_lines rest second).1))
          (deliver_lines-append raws (split_lines rest second).0))

after_last-le : (bs : List ℕ) → length (after_last bs) ≤ length bs
unfolding after_last
after_last-le [] = omega arith
after_last-le (b ∷ bs) = ground (arith, after_last-le bs)

-- The overflow guard drops the start of the line that was waiting.
after_last-append :
    (rx ys : List ℕ) → contains newline rx ≡ false → length (after_last (rx ++ ys)) ≤ length ys
unfolding after_last
after_last-append [] ys h = after_last-le ys
after_last-append (b ∷ bs) ys h = ground (arith, after_last-append bs ys)

trim-bounded :
    (rx chunk : List ℕ)
    → contains newline rx ≡ false
    → length chunk ≤ rx_buf_max
    → length (trim (rx ++ chunk)) ≤ rx_buf_max
unfolding trim
trim-bounded rx chunk h room = ground (arith, after_last-append rx chunk h)

-- After any chunk of at most 1 MiB, overflow included, the buffer holds the start of one line and
-- stays within 1 MiB.
pub feed_bytes-IsPartial :
    ⦃json : Json⦄ (decode : List ℕ → String) (chunk rx : List ℕ)
    → IsPartial rx
    → length chunk ≤ rx_buf_max
    → IsPartial (feed_bytes decode chunk rx).1
unfolding feed_bytes
feed_bytes-IsPartial decode chunk rx (partial, _) room = (
  split_lines-rest [] (trim (rx ++ chunk)) refl,
  omega (arith, split_lines-length [] (trim (rx ++ chunk)), trim-bounded rx chunk partial room),
)
