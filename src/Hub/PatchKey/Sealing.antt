-- ===== src/Hub/PatchKey/Sealing.antt =====
-- What a mutation does to the patch cache and to the flights in the air (_prepare_patch_mutation).
use bosun_midi_captain.Base.{
  ℕ, ◌≡◌, refl, String, Bool, true, false, none, some, List, [], ◌∷◌, arith, Bool-cases, inl, inr,
  beq_refl, ◌==◌, same_nat, same_text, contains, if◌then◌else◌,
}
use bosun_midi_captain.Base.Dict.{Dict, get, pop, keys, get-pop}
use bosun_midi_captain.Json.{Fields}
use bosun_midi_captain.Hub.State.{Hub, Key, same_key, Flight}
use bosun_midi_captain.Hub.ContextFlight.{is_none}
use bosun_midi_captain.Hub.PatchKey.{
  Location, is_at, update, seal_flight, seal_where, seal_patch_location, pop_where,
  invalidate_patch_location, mutate_location, prepare_patch_mutation, patch_location_mutations,
  patch_location,
}

get-absent : (k : Key) (d : Dict Key Fields) → contains k (keys d) ≡ false → get k d ≡ none
unfolding get
get-absent k [] h = refl
get-absent k ((j, v) ∷ d) h = ground (arith, get-absent k d)

-- Popping every key that satisfies a test.
get-pop_where :
    (p : Key → Bool) (k : Key) (ks : List Key) (d : Dict Key Fields)
    → get k (pop_where p ks d)
      ≡ (if p k then (if contains k ks then none else get k d) else get k d)
unfolding pop_where
get-pop_where p k [] d = ground arith
get-pop_where p k (j ∷ ks) d = ground (
  arith,
  get-pop_where p k ks (pop j d),
  get-pop_where p k ks d,
  get-pop k j d,
  same_key.same_iff j k,
)

pub get-invalidate :
    (l : Location) (k : Key) (h : Hub)
    → get k (invalidate_patch_location l h).patch.cache
      ≡ (if is_at l k then none else get k h.patch.cache)
unfolding invalidate_patch_location
get-invalidate l k h = ground (
  arith,
  get-pop_where (is_at l) k (keys h.patch.cache) h.patch.cache,
  get-absent k h.patch.cache,
)

-- A flight that is idle, or sealed against new waiters.
abbrev pub IsSealed : Flight → Type 0
IsSealed f = (is_none f.flight_id ≡ false) → f.sealed ≡ true

seal_flight-IsSealed : (f : Flight) → IsSealed (seal_flight f)
unfolding seal_flight
seal_flight-IsSealed f = ground arith

seal_flight-keeps : (f : Flight) → IsSealed f → IsSealed (seal_flight f)
seal_flight-keeps f h = seal_flight-IsSealed f

seal_where-keeps :
    (p : Key → Bool) (d : Dict Key ℕ) (flights : ℕ → Flight) (r : ℕ)
    → IsSealed (flights r)
    → IsSealed (seal_where p d flights r)
unfolding seal_where
seal_where-keeps p [] flights r h = h
seal_where-keeps p ((k, i) ∷ d) flights r h = elim (Bool-cases (p k)) [
  | inl hit ↦
      rw (hit, seal_where)
        (seal_where-keeps p d (update flights i (seal_flight (flights i))) r
          (elim (Bool-cases (r == i)) [
            | inl same ↦ rw same (seal_flight-IsSealed (flights i))
            | inr other ↦ rw other h
          ]))
  | inr miss ↦ rw (miss, seal_where) (seal_where-keeps p d flights r h)
]

-- Every flight whose key satisfies the test is sealed.
pub seal_where-IsSealed :
    (p : Key → Bool) (k : Key) (r : ℕ) (d : Dict Key ℕ) (flights : ℕ → Flight)
    → p k ≡ true
    → get k d ≡ some r
    → IsSealed (seal_where p d flights r)
unfolding seal_where get
seal_where-IsSealed p k r [] flights at e = absurd cc
seal_where-IsSealed p k r ((j, i) ∷ d) flights at e = elim (Bool-cases (j == k)) [
  | inl same ↦
      let here : j ≡ k = (same_key.same_iff j k).0 same in
      let found : i ≡ r = ground arith in
      rw (here, found, at, seal_where)
        (seal_where-keeps p d (update flights r (seal_flight (flights r))) r
          (rw (beq_refl r) (seal_flight-IsSealed (flights r))))
  | inr other ↦ seal_where-IsSealed p k r d _ at (ground arith)
]

-- Sealing changes neither a flight's key nor its id.
pub seal_where-key :
    (p : Key → Bool) (d : Dict Key ℕ) (flights : ℕ → Flight) (r : ℕ)
    → ((seal_where p d flights r).key ≡ (flights r).key)
      × ((seal_where p d flights r).flight_id ≡ (flights r).flight_id)
unfolding seal_where seal_flight
seal_where-key p [] flights r = (refl, refl)
seal_where-key p ((k, i) ∷ d) flights r = ground (
  arith,
  same_nat.same_iff r i,
  seal_where-key p d flights r,
  seal_where-key p d (update flights i (seal_flight (flights i))) r,
)

-- A mutation of one location (PUT_PATCH, PUT_BINDING, DELETE_PATCH, DISCARD) drops what is cached
-- for that location under any profile, leaves the rest of the cache alone, and seals every flight
-- in the air for that location.
pub prepare_patch_mutation-location :
    (kind : String) (msg : Fields) (l : Location) (h : Hub)
    → contains kind patch_location_mutations ≡ true
    → patch_location msg ≡ some l
    → let g = prepare_patch_mutation kind msg h in
      ((k : Key) → get k g.patch.cache ≡ (if is_at l k then none else get k h.patch.cache))
      × ((k : Key) (r : ℕ)
          → is_at l k ≡ true
          → get k h.patch.by_key ≡ some r
          → IsSealed (g.patch.flights r))
unfolding prepare_patch_mutation mutate_location seal_patch_location invalidate_patch_location
prepare_patch_mutation-location kind msg l h mutates at =
    rw (mutates, at)
      (
        λ k. get-invalidate l k h,
        λ k r here e. seal_where-IsSealed (is_at l) k r h.patch.by_key h.patch.flights here e,
      )
