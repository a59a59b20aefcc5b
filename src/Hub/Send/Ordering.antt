-- ===== src/Hub/Send/Ordering.antt =====
-- Reads that follow a command are not answered by a snapshot from before it.
use bosun_midi_captain.Base.{
  ℕ, ◌≡◌, ◌∙◌, ap, String, true, false, [], ◌∷◌, ◌++◌, ◌⊎◌, inl, inr, contains, same_text, same_nat,
}
use bosun_midi_captain.Json.{Json, Fields, has_other_key}
use bosun_midi_captain.Hub.State.{Hub, error_fields}
use bosun_midi_captain.Hub.ContextFlight.{is_none, queue_context_request}
use bosun_midi_captain.Hub.ContextFlight.Invariant.{ContextInv}
use bosun_midi_captain.Hub.ContextFlight.Queueing.{
  Queued, waiter_of, offer_to, queue_context_request-Queued,
}
use bosun_midi_captain.Hub.Send.{route, context_barrier_types}
use bosun_midi_captain.Hub.Send.Barrier.{route-sealed}

module _ ⦃json : Json⦄ where
  -- While a flight is in the air and its context record satisfies its invariant: after a command
  -- that can make the snapshot stale, a canonical GET_CONTEXT of a live subscriber does not join
  -- that flight. Its waiters stay those from before the command, and the request either gets an
  -- error or queues as the last waiter of the next flight.
  pub read_after_barrier :
      (sub reader : ℕ) (line kind : String) (msg request : Fields) (h : Hub)
      → contains kind context_barrier_types ≡ true
      → is_none h.context.flight_id ≡ false
      → ContextInv h.context
      → contains reader h.subs ≡ true
      → has_other_key ("type" ∷ "id" ∷ []) request ≡ false
      → let g = route sub line kind msg h in
        let k = (queue_context_request reader request g).1 in
        (k.context.waiters ≡ h.context.waiters)
        × (((error : String) × (k.context.next_waiters ≡ h.context.next_waiters)
              × (k.offers
                  ≡ g.offers
                    ++ offer_to (waiter_of reader request) (error_fields error "GET_CONTEXT") ∷ []))
            ⊎ (k.context.next_waiters ≡ h.context.next_waiters ++ waiter_of reader request ∷ []))
  read_after_barrier sub reader line kind msg request h barrier flying v live canonical =
      let g = route sub line kind msg h in
      let untouched = route-sealed sub line kind msg h barrier flying in
      let e = untouched.context in
      let w = ap (λ c. c.waiters) e in
      let n = ap (λ c. c.next_waiters) e in
      let sealed : ContextInv (record h.context { sealed = true }) = record {
        idle = λ p. cc;
        named = v.named;
        unsealed = λ p. cc;
        fits = v.fits;
      } in
      let queued =
        queue_context_request-Queued reader request g (rw e sealed) (rw untouched.subs live)
          canonical in
      split (queue_context_request reader request g).1 w n
        (ap (λ c. is_none c.flight_id) e ∙ flying) (ap (λ c. c.sealed) e) queued.1
    where
      split :
          (k : Hub)
          → (route sub line kind msg h).context.waiters ≡ h.context.waiters
          → (route sub line kind msg h).context.next_waiters ≡ h.context.next_waiters
          → is_none (route sub line kind msg h).context.flight_id ≡ false
          → (route sub line kind msg h).context.sealed ≡ true
          → Queued (waiter_of reader request) (route sub line kind msg h) k
          → (k.context.waiters ≡ h.context.waiters)
            × (((error : String) × (k.context.next_waiters ≡ h.context.next_waiters)
                  × (k.offers
                      ≡ (route sub line kind msg h).offers
                        ++ offer_to (waiter_of reader request) (error_fields error "GET_CONTEXT")
                          ∷ []))
                ⊎ (k.context.next_waiters
                    ≡ h.context.next_waiters ++ waiter_of reader request ∷ []))
      split k w n f s (inl (error, _, kw, kn, o)) = (kw ∙ w, inl (error, kn ∙ n, o))
      split k w n f s (inr (inl (inl (idle, _), kw, kn, o))) = cc
      split k w n f s (inr (inl (inr (_, unsealed, _), kw, kn, o))) = cc
      split k w n f s (inr (inr (_, _, kw, kn, o))) =
          (kw ∙ w, inr (kn ∙ ap (λ l. l ++ waiter_of reader request ∷ []) n))
