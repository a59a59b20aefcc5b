-- ===== src/Hub/PatchReply/Stale.antt =====
-- A reply that was read before a mutation does not bring the old patch back into the cache.
use bosun_midi_captain.Base.{
  ℕ, ◌≡◌, ◌≢◌, refl, sym, ap, ◌∙◌, String, Bool, true, false, none, some, Bool-cases, inl, inr,
  ◌==◌, same_text, same_nat, contains, subst,
}
use bosun_midi_captain.Base.Dict.{get, get-put}
use bosun_midi_captain.Json.{Json, Fields, get_or_null, pop_field, is_text}
use bosun_midi_captain.Hub.State.{Hub, Key, same_key, Flight, read_done}
use bosun_midi_captain.Hub.State.Frame.{read_done-Quiet}
use bosun_midi_captain.Hub.Request.{own_id}
use bosun_midi_captain.Hub.ContextFlight.{is_none}
use bosun_midi_captain.Hub.PatchKey.{
  Location, is_at, prepare_patch_mutation, patch_location_mutations, patch_location,
  mutate_location, seal_patch_location, invalidate_patch_location,
}
use bosun_midi_captain.Hub.PatchKey.Sealing.{prepare_patch_mutation-location, seal_where-key}
use bosun_midi_captain.Hub.PatchReply.{
  malformed_patch, store_patch, settle_patch_reply, settle_ref, take_patch_reply, consume_patch_id,
  consume_patch_reply,
}
use bosun_midi_captain.Hub.PatchReply.Cache.{
  finish_patch_flight-SameCache, fail_patch_flight-SameCache,
}

-- A location-mutated hub's prefix, ids and flight names are those it had.
prepared :
    (kind : String) (msg : Fields) (l : Location) (h : Hub)
    → contains kind patch_location_mutations ≡ true
    → patch_location msg ≡ some l
    → let g = prepare_patch_mutation kind msg h in
      (g.patch.id_prefix ≡ h.patch.id_prefix)
      × (g.patch.by_id ≡ h.patch.by_id)
      × ((r : ℕ)
          → ((g.patch.flights r).key ≡ (h.patch.flights r).key)
            × ((g.patch.flights r).flight_id ≡ (h.patch.flights r).flight_id))
unfolding prepare_patch_mutation mutate_location seal_patch_location invalidate_patch_location
prepared kind msg l h mutates at =
    rw (mutates, at) (refl, refl, λ r. seal_where-key (is_at l) h.patch.by_key h.patch.flights r)

differ : (b : Bool) → b ≡ true → b ≢ false
differ b t f = cc

module _ ⦃json : Json⦄ (l : Location) (k : Key) (here : is_at l k ≡ true) where
  -- A location's empty cache stays empty: a flight of that location is sealed.
  store_patch-stale :
      (f : Flight) (msg : Fields) (g : Hub)
      → (is_at l f.key ≡ true → f.sealed ≡ true)
      → get k g.patch.cache ≡ none
      → get k (store_patch f msg g).patch.cache ≡ none
  unfolding store_patch
  store_patch-stale f msg g sealed empty = elim (Bool-cases f.sealed) [
    | inl s ↦ rw s empty
    | inr unsealed ↦
        rw (unsealed, get-put k f.key (pop_field "id" msg) g.patch.cache)
          (elim (Bool-cases (f.key == k)) [
            | inl same ↦
                let moved = (same_key.same_iff f.key k).0 same in
                absurd (differ f.sealed (sealed (rw moved here)) unsealed)
            | inr other ↦ rw other empty
          ])
  ]

  settle_patch_reply-stale :
      (r : ℕ) (msg : Fields) (g : Hub)
      → (is_at l (g.patch.flights r).key ≡ true → (g.patch.flights r).sealed ≡ true)
      → get k g.patch.cache ≡ none
      → get k (settle_patch_reply r msg g).patch.cache ≡ none
  unfolding settle_patch_reply
  settle_patch_reply-stale r msg g sealed empty =
      let f = g.patch.flights r in
      elim (Bool-cases (is_text "PATCH" (get_or_null "type" msg))) [
        | inl patch ↦ elim (Bool-cases (malformed_patch f.key msg)) [
          | inl bad ↦ rw (patch, bad, fail_patch_flight-SameCache r "patch_protocol" true g) empty
          | inr good ↦
              rw (patch, good, finish_patch_flight-SameCache r msg true (store_patch f msg g))
                (store_patch-stale f msg g sealed empty)
        ]
        | inr other ↦ elim (Bool-cases (is_text "ERROR" (get_or_null "type" msg))) [
          | inl error ↦ rw (other, error, finish_patch_flight-SameCache r msg true g) empty
          | inr odd ↦ rw (other, odd, fail_patch_flight-SameCache r "patch_protocol" true g) empty
        ]
      ]

-- A flight in the air stands under its key and under its id.
abbrev pub Flying : String → ℕ → Hub → Type 0
Flying id r h =
    (get id h.patch.by_id ≡ some r)
    × (get (h.patch.flights r).key h.patch.by_key ≡ some r)
    × (is_none (h.patch.flights r).flight_id ≡ false)

-- After a mutation of a location, the reply to any flight that was in the air before it is consumed
-- and leaves nothing in the cache for that location, whatever the reply is: what it read before the
-- mutation is not served again.
pub consume_patch_reply_stale :
    ⦃json : Json⦄ (kind : String) (mutation reply : Fields) (l : Location) (k : Key) (id : String)
    (r : ℕ) (h : Hub)
    → contains kind patch_location_mutations ≡ true
    → patch_location mutation ≡ some l
    → own_id h.patch.id_prefix (get_or_null "id" reply) ≡ some id
    → Flying id r h
    → is_at l k ≡ true
    → let (taken, g) = consume_patch_reply reply (prepare_patch_mutation kind mutation h) in
      (taken ≡ true) × (get k g.patch.cache ≡ none)
unfolding consume_patch_reply consume_patch_id take_patch_reply settle_ref
consume_patch_reply_stale kind mutation reply l k id r h mutates at own (by_id, by_key, active)
      here =
    let g₀ = prepare_patch_mutation kind mutation h in
    let g₁ = read_done (some id) g₀ in
    let (same_prefix, same_ids, same_flights) = prepared kind mutation l h mutates at in
    let (same_key_of, same_id_of) = same_flights r in
    let (cache, sealed) = prepare_patch_mutation-location kind mutation l h mutates at in
    let own₀ : own_id g₀.patch.id_prefix (get_or_null "id" reply) ≡ some id = rw same_prefix own in
    let same : g₁.patch ≡ g₀.patch = (read_done-Quiet (some id) g₀).patch in
    let found : get id g₁.patch.by_id ≡ some r =
      ap (λ p. get id p.by_id) same ∙ rw same_ids by_id in
    rw (own₀, found)
      (
        refl,
        settle_patch_reply-stale l k here r reply g₁
            (subst (λ p. is_at l (p.flights r).key ≡ true → (p.flights r).sealed ≡ true) (sym same)
              (λ there.
                sealed (h.patch.flights r).key r (rw (← same_key_of) there) by_key
                  (rw same_id_of active)))
            (ap (λ p. get k p.cache) same ∙ cache k ∙ rw here refl),
      )
