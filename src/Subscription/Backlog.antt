-- ===== src/Subscription/Backlog.antt =====
-- What a slow subscriber finds in its queue.
use bosun_midi_captain.Base.{
  ℕ, suc, ◌≤◌, ◌<◌, ◌≡◌, refl, sym, ap, ◌∙◌, String, Bool, true, false, Option, some, List, [], ◌∷◌,
  ◌++◌, arith, Bool-cases, ◌⊎◌, inl, inr, leb, length, length-append, append_assoc, append-nil, map,
  if◌then◌else◌,
}
use bosun_midi_captain.Json.{Json}
use bosun_midi_captain.Subscription.{
  subscriber_queue_max, status_line, put_nowait, drop_oldest, make_room, offer_queue,
}

-- The last n elements of a list.
abbrev pub newest {ℓ} : {A : Type ℓ} → ℕ → List A → List A
newest n [] = []
newest n (x ∷ xs) = let rest = newest n xs in if leb (length (x ∷ xs)) n then x ∷ xs else rest

newest-all {ℓ} : {A : Type ℓ} (n : ℕ) (xs : List A) → length xs ≤ n → newest n xs ≡ xs
newest-all n [] h = refl
newest-all n (x ∷ xs) h = ground (arith, h)

newest-newest {ℓ} :
    {A : Type ℓ} (n : ℕ) (xs ys : List A) → newest n (newest n xs ++ ys) ≡ newest n (xs ++ ys)
newest-newest n [] ys = refl
newest-newest n (x ∷ xs) ys = elim (Bool-cases (leb (length (x ∷ xs)) n)) [
  | inl fits ↦ rw fits refl
  | inr long ↦
      let longer : leb (length (x ∷ xs ++ ys)) n ≡ false =
        ground (arith, long, length-append xs ys) in
      rw (long, longer) (newest-newest n xs ys)
]

length-newest {ℓ} : {A : Type ℓ} (n : ℕ) (xs : List A) → length (newest n xs) ≤ n
length-newest n [] = omega arith
length-newest n (x ∷ xs) = ground (arith, length-newest n xs)

-- A full queue loses its oldest entry.
newest-full :
    (n : ℕ) (q : List (Option String)) (e : Option String)
    → length q ≡ suc n
    → newest (suc n) (q ++ e ∷ []) ≡ drop_oldest q ++ e ∷ []
unfolding drop_oldest
newest-full n [] e h = absurd (omega arith)
newest-full n (x ∷ q) e h =
    let longer : leb (length (x ∷ q ++ e ∷ [])) (suc n) ≡ false =
      ground (arith, h, length-append q (e ∷ [])) in
    rw longer (newest-all (suc n) (q ++ e ∷ []) (omega (arith, length-append q (e ∷ []))))

length-drop_oldest : (q : List (Option String)) → 0 < length q → length (drop_oldest q) < length q
unfolding drop_oldest
length-drop_oldest [] h = absurd (omega arith)
length-drop_oldest (x ∷ q) h = omega arith

put_nowait-room :
    (e : Option String) (q : List (Option String))
    → length q < subscriber_queue_max
    → put_nowait e q ≡ q ++ e ∷ []
unfolding put_nowait
put_nowait-room e q h = ground (arith, h)

module _ ⦃json : Json⦄ where
  offer_queue-newest :
      (line : String) (q : List (Option String))
      → length q ≤ subscriber_queue_max
      → offer_queue false line q ≡ newest subscriber_queue_max (q ++ some line ∷ [])
  unfolding offer_queue make_room
  offer_queue-newest line q h = elim (Bool-cases (leb subscriber_queue_max (length q))) [
    | inl full ↦
        let exact : length q ≡ suc 511 = ground (arith, h, full) in
        rw full (
          put_nowait-room (some line) (drop_oldest q)
            (omega (arith, length-drop_oldest q (omega arith)))
          ∙ sym (newest-full 511 q (some line) exact))
    | inr room ↦
        let short : length q < subscriber_queue_max = ground (arith, room) in
        rw room (
          sym (
            newest-all subscriber_queue_max (q ++ some line ∷ [])
              (omega (arith, length-append q (some line ∷ [])))))
  ]

  abbrev pub offer_all : Bool → List String → List (Option String) → List (Option String)
  offer_all want_status [] q = q
  offer_all want_status (line ∷ lines) q =
      offer_all want_status lines (offer_queue want_status line q)

  -- A subscriber that did not ask for status finds the newest 512 of all that its queue was given:
  -- only the oldest lines are lost, and none changes places.
  pub offer_all-newest :
      (lines : List String) (q : List (Option String))
      → length q ≤ subscriber_queue_max
      → offer_all false lines q ≡ newest subscriber_queue_max (q ++ map some lines)
  offer_all-newest [] q h =
      sym (newest-all subscriber_queue_max (q ++ []) (rw (append-nil q) h) ∙ append-nil q)
  offer_all-newest (line ∷ lines) q h = rw (offer_queue-newest line q h) (
      offer_all-newest lines (newest subscriber_queue_max (q ++ some line ∷ []))
        (length-newest subscriber_queue_max (q ++ some line ∷ []))
      ∙ newest-newest subscriber_queue_max (q ++ some line ∷ []) (map some lines)
      ∙ ap (newest subscriber_queue_max) (append_assoc q (some line ∷ []) (map some lines)))

  -- A subscriber that asked for status loses nothing while its queue has room. When the queue is
  -- full, the whole backlog gives way to one down/up pair in front of the new line. Either way the
  -- new line is the last entry and the bound of 512 is kept.
  pub offer_queue-status :
      (line : String) (q : List (Option String))
      → length q ≤ subscriber_queue_max
      → (length (offer_queue true line q) ≤ subscriber_queue_max)
        × ((offer_queue true line q ≡ q ++ some line ∷ [])
            ⊎ ((length q ≡ subscriber_queue_max)
                × (offer_queue true line q
                    ≡ some (status_line false) ∷ (some (status_line true) ∷ (some line ∷ [])))))
  unfolding offer_queue make_room put_nowait
  offer_queue-status line q h = elim (Bool-cases (leb subscriber_queue_max (length q))) [
    | inl full ↦ rw full (omega arith, inr (ground (arith, h, full), refl))
    | inr room ↦ rw room (ground (arith, length-append q (some line ∷ []), room), inl refl)
  ]
