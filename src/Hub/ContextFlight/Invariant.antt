-- ===== src/Hub/ContextFlight/Invariant.antt =====
-- The invariant of the context single flight.
use bosun_midi_captain.Base.{
  ℕ, ◌+◌, ◌≤◌, String, ◌≡◌, refl, ap, ◌∙◌, Bool, true, false, Option, none, some, List, [], arith,
  Bool-cases, inl, inr, length, same_nat,
}
use bosun_midi_captain.Json.{Json}
use bosun_midi_captain.Hub.State.{Hub, Context, Waiter, private_id, error_fields, refusal}
use bosun_midi_captain.Hub.State.Frame.{refusal-Quiet}
use bosun_midi_captain.Hub.ContextFlight.Steps.{
  landed, answered-context, finish-none, launch-context, launched_context,
}
use bosun_midi_captain.Hub.ContextFlight.{
  context_waiters_max, context_waiters_per_sub_max, count_of, is_none, is_empty, launch_context,
  fail_context_with, settle_context, start_context_with,
}

-- The waiters of both batches stay within the limits, in all and for each subscriber.
pub record Fits (ws next : List Waiter) : Type 0 where
  pub total : length ws + length next ≤ context_waiters_max
  pub per_sub : (sub : ℕ) → count_of sub ws + count_of sub next ≤ context_waiters_per_sub_max

-- With no flight nobody waits; a flight has the id of the last number given out; waiters queue
-- behind a flight only once it is sealed.
pub record ContextInv (c : Context) : Type 0 where
  pub idle :
      is_none c.flight_id ≡ true → (c.waiters ≡ []) × (c.next_waiters ≡ []) × (c.sealed ≡ false)
  pub named : (id : String) → c.flight_id ≡ some id → id ≡ private_id c.id_prefix c.seq
  pub unsealed : c.sealed ≡ false → c.next_waiters ≡ []
  pub fits : Fits c.waiters c.next_waiters

-- A context that a flight may start from.
pub record Ready (c : Context) : Type 0 where
  pub no_flight : c.flight_id ≡ none
  pub none_behind : c.next_waiters ≡ []
  pub open_flight : c.sealed ≡ false
  pub fits : Fits c.waiters c.next_waiters

pub landed-ContextInv : (c : Context) → c.next_waiters ≡ [] → ContextInv (landed c)
landed-ContextInv c e = record {
  idle = λ _. (refl, e, refl);
  named = λ id p. cc;
  unsealed = λ _. e;
  fits = record { total = rw e (omega arith); per_sub = λ sub. rw e (omega arith) };
}

launched-ContextInv :
    (c : Context) (handle : Option ℕ) → Ready c → ContextInv (launched_context c handle)
launched-ContextInv c handle r = record {
  idle = λ p. cc;
  named = λ id p. ground arith;
  unsealed = λ _. r.none_behind;
  fits = r.fits;
}

module _ ⦃json : Json⦄ (start : Hub → Hub) where
  pub fail_with-ContextInv :
      (error : String) (stop : Bool) (h : Hub)
      → ContextInv h.context
      → h.context.next_waiters ≡ []
      → ContextInv (fail_context_with start error stop h).context
  unfolding fail_context_with
  fail_with-ContextInv error stop h v e = elim (Bool-cases (is_none h.context.flight_id)) [
    | inl idle ↦ rw idle v
    | inr flying ↦
        rw
          (
            flying,
            finish-none start (error_fields error "GET_CONTEXT") stop h e,
            answered-context (error_fields error "GET_CONTEXT") stop h,
          )
          (landed-ContextInv h.context e)
  ]

  settle-ContextInv :
      (accepted : Bool) (h : Hub)
      → ContextInv h.context
      → h.context.next_waiters ≡ []
      → ContextInv (settle_context start accepted h).context
  unfolding settle_context
  settle-ContextInv true h v e = v
  settle-ContextInv false h v e =
      let same = (refusal-Quiet h).context in
      fail_with-ContextInv (refusal h).0 true (refusal h).1 (rw same v) (rw same e)

  pub start-ContextInv :
      (h : Hub) → Ready h.context → ContextInv (start_context_with start h).context
  unfolding start_context_with
  start-ContextInv h r =
      let free : is_none h.context.flight_id ≡ true = ground arith in
      elim (Bool-cases (is_empty h.context.waiters)) [
        | inl nobody ↦ rw (free, nobody) (ready_idle h.context r nobody)
        | inr somebody ↦
            let launched = launch-context h in
            rw (free, somebody)
              (settle-ContextInv (launch_context h).0 (launch_context h).1
                (rw (launched.1) (launched-ContextInv h.context launched.0 r))
                (ap (λ c. c.next_waiters) launched.1 ∙ r.none_behind))
      ]
    where
      ready_idle : (c : Context) → Ready c → is_empty c.waiters ≡ true → ContextInv c
      ready_idle c r e = record {
        idle = λ _. (ground arith, r.none_behind, r.open_flight);
        named = λ id p. ground arith;
        unsealed = λ _. r.none_behind;
        fits = r.fits;
      }
