-- ===== src/Update/Upload/Storage.antt =====
-- The bytes of an upload: what has been acknowledged stays as it is.
use bosun_midi_captain.Base.{
  ℕ, zero, suc, ◌+◌, ◌-◌, ◌≤◌, ◌≡◌, refl, sym, ap, ◌∙◌, Bool, true, false, List, [], ◌∷◌, ◌++◌,
  arith, Bool-cases, inl, inr, ltb, length, length-append, take, drop, take-append, take-take,
  length-take, take-length, drop-append, take-drop-take, ◌==◌, ◌||◌, not, same_nat, if◌then◌else◌,
}
use bosun_midi_captain.Update.Uf2.{equal_lists}
use bosun_midi_captain.Update.Uf2.Accepts.{equal_lists-eq}
use bosun_midi_captain.Update.Upload.{
  Job, Fault, no_fault, write_stops, save_fails, reply, refuse, seek, torn_write, full_write, zeros,
  append_chunk, store_chunk, conflicting_retry, out_of_order,
}

-- The status on the disk and the bytes beside it.
abbrev pub Stored : Type 0
Stored = Job × List ℕ

-- Every byte that counts as received is in the file.
abbrev pub IsStored : Stored → Type 0
IsStored (status, bytes) = status.received ≤ length bytes

-- The received bytes of the first are a prefix of those of the second.
abbrev pub Extends : Stored → Stored → Type 0
Extends (status, bytes) (status', bytes') =
    (status.received ≤ status'.received)
    × (take status.received bytes' ≡ take status.received bytes)

take-seek :
    (offset : ℕ) (bytes more : List ℕ)
    → offset ≤ length bytes
    → (take offset (seek offset bytes ++ more) ≡ take offset bytes)
      × (length (seek offset bytes) ≡ offset)
unfolding seek
take-seek offset bytes more h =
    let gap = zeros (offset - length bytes) in
    let long = length-take offset (bytes ++ gap) (omega (arith, length-append bytes gap)) in
    (
      take-append offset (take offset (bytes ++ gap)) more (omega arith)
          ∙ take-take offset offset (bytes ++ gap) (omega arith)
          ∙ take-append offset bytes gap h,
      long,
    )

-- An appended chunk, however it ends, keeps what was received; if it is answered it is received.
append_chunk-keeps :
    (fault : Fault) (content : List ℕ) (state : Job) (bytes : List ℕ)
    → state.received ≤ length bytes
    → let stored = (append_chunk fault state.received content state bytes).1 in
      IsStored stored × Extends (state, bytes) stored
unfolding append_chunk torn_write full_write
append_chunk-keeps (write_stops zero) content state bytes h = (h, (omega arith, refl))
append_chunk-keeps (write_stops (suc n)) content state bytes h =
    let more =
      take (suc n) content ++ drop (state.received + length (take (suc n) content)) bytes in
    let (kept, long) = take-seek state.received bytes more h in
    (omega (arith, long, length-append (seek state.received bytes) more), (omega arith, kept))
append_chunk-keeps save_fails content state bytes h =
    let (kept, long) = take-seek state.received bytes content h in
    (omega (arith, long, length-append (seek state.received bytes) content), (omega arith, kept))
append_chunk-keeps no_fault content state bytes h =
    let (kept, long) = take-seek state.received bytes content h in
    (omega (arith, long, length-append (seek state.received bytes) content), (omega arith, kept))

store_chunk-append :
    (fault : Fault) (content : List ℕ) (state : Job) (bytes : List ℕ)
    → store_chunk fault state.received content state bytes
      ≡ append_chunk fault state.received content state bytes
unfolding store_chunk
store_chunk-append fault content state bytes = ground arith

-- A chunk that does not start where the received bytes end changes nothing on the disk.
store_chunk-elsewhere :
    (fault : Fault) (offset : ℕ) (content : List ℕ) (state : Job) (bytes : List ℕ)
    → (offset == state.received) ≡ false
    → (store_chunk fault offset content state bytes).1 ≡ (state, bytes)
unfolding store_chunk
store_chunk-elsewhere fault offset content state bytes h = ground (arith, h)

pub store_chunk-keeps :
    (fault : Fault) (offset : ℕ) (content : List ℕ) (state : Job) (bytes : List ℕ)
    → state.received ≤ length bytes
    → let stored = (store_chunk fault offset content state bytes).1 in
      IsStored stored × Extends (state, bytes) stored
store_chunk-keeps fault offset content state bytes h =
    elim (Bool-cases (offset == state.received)) [
      | inl next ↦
          rw
            (
              (same_nat.same_iff offset state.received).0 next,
              store_chunk-append fault content state bytes,
            )
            (append_chunk-keeps fault content state bytes h)
      | inr elsewhere ↦
          rw (store_chunk-elsewhere fault offset content state bytes elsewhere)
            (h, (omega arith, refl))
    ]

-- One request's chunk: what the disk does, where it goes and its bytes.
pub record Attempt : Type 0 where
  pub fault : Fault
  pub offset : ℕ
  pub content : List ℕ

abbrev pub attempt : Attempt → Stored → Stored
attempt a (state, bytes) = (store_chunk a.fault a.offset a.content state bytes).1

abbrev pub attempts : List Attempt → Stored → Stored
attempts [] st = st
attempts (a ∷ rest) st = attempts rest (attempt a st)

Extends-trans : (a b c : Stored) → Extends a b → Extends b c → Extends a c
Extends-trans (s, xs) (t, ys) (u, zs) (le, same) (le', same') = (
  omega arith,
  sym (take-take s.received t.received zs le)
      ∙ ap (take s.received) same'
      ∙ take-take s.received t.received ys le
      ∙ same,
)

attempts-Extends :
    (rest : List Attempt) (st : Stored)
    → IsStored st
    → IsStored (attempts rest st) × Extends st (attempts rest st)
attempts-Extends [] (state, bytes) h = (h, (omega arith, refl))
attempts-Extends (a ∷ rest) (state, bytes) h =
    let next = attempt a (state, bytes) in
    let (stored, extends) = store_chunk-keeps a.fault a.offset a.content state bytes h in
    let (stored', extends') = attempts-Extends rest next stored in
    (stored', Extends-trans (state, bytes) next (attempts rest next) extends extends')

-- The slice of a file that a chunk covers, and that it counts as received.
abbrev pub Holds : Attempt → Stored → Type 0
Holds a (state, bytes) =
    (a.offset + length a.content ≤ state.received)
    × (take (length a.content) (drop a.offset bytes) ≡ a.content)

retry-Holds :
    (a : Attempt) (state : Job) (bytes : List ℕ)
    → (ltb state.received (a.offset + length a.content)
        || not (equal_lists (take (length a.content) (drop a.offset bytes)) a.content))
      ≡ false
    → Holds a (state, bytes)
retry-Holds a state bytes h = (ground (arith, h), equal_lists-eq _ _ (ground (arith, h)))

append-Holds :
    (fault : Fault) (content : List ℕ) (state answer : Job) (bytes : List ℕ)
    → (append_chunk fault state.received content state bytes).0 ≡ reply answer
    → state.received ≤ length bytes
    → Holds
        (record { fault = fault; offset = state.received; content = content })
        (append_chunk fault state.received content state bytes).1
unfolding append_chunk full_write
append-Holds (write_stops n) content state answer bytes e h = absurd cc
append-Holds save_fails content state answer bytes e h = absurd cc
append-Holds no_fault content state answer bytes e h =
    let (_, long) = take-seek state.received bytes content h in
    (
      omega arith,
      ap (take (length content))
            (drop-append state.received (seek state.received bytes) content long)
          ∙ take-length content,
    )

-- A chunk that is answered is received, and its bytes are in the file.
store_chunk-Holds :
    (fault : Fault) (offset : ℕ) (content : List ℕ) (state answer : Job) (bytes : List ℕ)
    → (store_chunk fault offset content state bytes).0 ≡ reply answer
    → state.received ≤ length bytes
    → Holds
        (record { fault = fault; offset = offset; content = content })
        (store_chunk fault offset content state bytes).1
unfolding store_chunk
store_chunk-Holds fault offset content state answer bytes e h =
    let clash =
      ltb state.received (offset + length content)
      || not (equal_lists (take (length content) (drop offset bytes)) content) in
    elim (Bool-cases (offset == state.received)) [
      | inl next ↦
          let at = (same_nat.same_iff offset state.received).0 next in
          rw (at, store_chunk-append fault content state bytes)
            (append-Holds fault content state answer bytes
              (sym (ap (λ p. p.0) (store_chunk-append fault content state bytes))
                ∙ ap (λ o. (store_chunk fault o content state bytes).0) (sym at)
                ∙ e)
              h)
      | inr elsewhere ↦ rw (store_chunk-elsewhere fault offset content state bytes elsewhere) (
          retry-Holds (record { fault = fault; offset = offset; content = content }) state bytes
            (retried (ltb offset state.received) clash (offset == state.received) elsewhere e))
    ]
  where
    -- Off the end, only a retry of the same bytes is answered.
    retried :
        (before clash here : Bool)
        → here ≡ false
        → (if before
            then (if clash
                then (refuse conflicting_retry, (state, bytes))
                else (reply state, (state, bytes)))
            else if not here
            then (refuse out_of_order, (state, bytes))
            else append_chunk fault offset content state bytes).0
          ≡ reply answer
        → clash ≡ false
    retried true true here miss e = absurd cc
    retried true false here miss e = refl
    retried false clash true miss e = absurd cc
    retried false clash false miss e = absurd cc

Holds-Extends : (a : Attempt) (st final : Stored) → Extends st final → Holds a st → Holds a final
Holds-Extends a (s, xs) (t, ys) (le, same) (inside, here) =
    let n = length a.content in
    (
      omega arith,
      sym (take-drop-take s.received n a.offset ys inside)
          ∙ ap (λ zs. take n (drop a.offset zs)) same
          ∙ take-drop-take s.received n a.offset xs inside
          ∙ here,
    )

-- An acknowledged chunk is on the disk for good: from a job all of whose received bytes are in the
-- file, if a chunk is answered, then after any further chunks, in whatever order, repeated, torn by
-- a failing write or left without a saved status, the file still holds its bytes at its offset, they
-- count as received, and every received byte is in the file.
pub store_chunk-durable :
    (a : Attempt) (rest : List Attempt) (state answer : Job) (bytes : List ℕ)
    → state.received ≤ length bytes
    → (store_chunk a.fault a.offset a.content state bytes).0 ≡ reply answer
    → let final = attempts rest (attempt a (state, bytes)) in Holds a final × IsStored final
store_chunk-durable a rest state answer bytes h e =
    let now = attempt a (state, bytes) in
    let (stored, _) = store_chunk-keeps a.fault a.offset a.content state bytes h in
    let (stored', extends) = attempts-Extends rest now stored in
    (
      Holds-Extends a now (attempts rest now) extends
          (store_chunk-Holds a.fault a.offset a.content state answer bytes e h),
      stored',
    )
