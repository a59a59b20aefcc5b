-- ===== src/Hub/ContextFlight/Depth.antt =====
-- The nesting of failed context flights: two levels are enough.
use bosun_midi_captain.Base.{
  ℕ, zero, suc, ◌≡◌, refl, sym, ap, ◌∙◌, Bool, true, false, [], String, arith, Bool-cases, inl, inr,
}
use bosun_midi_captain.Json.{Json, Fields}
use bosun_midi_captain.Hub.State.{Hub, refusal, error_fields}
use bosun_midi_captain.Hub.State.Frame.{refusal-Quiet}
use bosun_midi_captain.Hub.ContextFlight.Steps.{finish-none, finish-some, launch-context}
use bosun_midi_captain.Hub.ContextFlight.{
  launch_context, is_none, is_empty, finish_context_with, fail_context_with, settle_context,
  start_context_with, start_context_flight, start_context,
}

module _ ⦃json : Json⦄ (s t : Hub → Hub) where
  -- Two ways to start flights that agree where nobody waits behind.
  module _ (agree : (h : Hub) → h.context.next_waiters ≡ [] → s h ≡ t h) where
    finish_agree :
        (response : Fields) (stop : Bool) (h : Hub)
        → finish_context_with s response stop h ≡ finish_context_with t response stop h
    finish_agree response stop h = elim (Bool-cases (is_empty h.context.next_waiters)) [
      | inl none_behind ↦
          let e : h.context.next_waiters ≡ [] = ground arith in
          finish-none s response stop h e ∙ sym (finish-none t response stop h e)
      | inr behind ↦
          finish-some s response stop h behind
          ∙ agree _ refl
          ∙ sym (finish-some t response stop h behind)
    ]

    fail_agree :
        (error : String) (stop : Bool) (h : Hub)
        → fail_context_with s error stop h ≡ fail_context_with t error stop h
    unfolding fail_context_with
    fail_agree error stop h = elim (Bool-cases (is_none h.context.flight_id)) [
      | inl idle ↦ rw idle
      | inr flying ↦ rw flying (finish_agree (error_fields error "GET_CONTEXT") stop h)
    ]

    settle_agree :
        (accepted : Bool) (h : Hub) → settle_context s accepted h ≡ settle_context t accepted h
    unfolding settle_context
    settle_agree true h = refl
    settle_agree false h = fail_agree (refusal h).0 true (refusal h).1

    start_agree : (h : Hub) → start_context_with s h ≡ start_context_with t h
    unfolding start_context_with
    start_agree h = ground (arith, settle_agree (launch_context h).0 (launch_context h).1)

  fail_none :
      (error : String) (stop : Bool) (h : Hub)
      → h.context.next_waiters ≡ []
      → fail_context_with s error stop h ≡ fail_context_with t error stop h
  unfolding fail_context_with
  fail_none error stop h e = elim (Bool-cases (is_none h.context.flight_id)) [
    | inl idle ↦ rw idle
    | inr flying ↦ rw flying (
        finish-none s (error_fields error "GET_CONTEXT") stop h e
        ∙ sym (finish-none t (error_fields error "GET_CONTEXT") stop h e))
  ]

  settle_none :
      (accepted : Bool) (h : Hub)
      → h.context.next_waiters ≡ []
      → settle_context s accepted h ≡ settle_context t accepted h
  unfolding settle_context
  settle_none true h e = refl
  settle_none false h e =
      fail_none (refusal h).0 true (refusal h).1
        (ap (λ c. c.next_waiters) (refusal-Quiet h).context ∙ e)

  -- A flight with nobody behind it never starts another.
  start_none :
      (h : Hub) → h.context.next_waiters ≡ [] → start_context_with s h ≡ start_context_with t h
  unfolding start_context_with
  start_none h e = ground (
    arith,
    settle_none (launch_context h).0 (launch_context h).1
        (ap (λ c. c.next_waiters) (launch-context h).1 ∙ e),
  )

-- Deeper nesting changes nothing: from a request or a reply, at most two flights are started.
pub start_context-depth :
    ⦃json : Json⦄ (depth : ℕ) (h : Hub) → start_context_flight (suc (suc depth)) h ≡ start_context h
unfolding start_context start_context_flight start_context_with
start_context-depth depth h =
    start_agree (start_context_flight (suc depth)) (start_context_flight 1)
      (λ g e. start_none (start_context_flight depth) (start_context_flight zero) g e) h
