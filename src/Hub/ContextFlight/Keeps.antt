-- ===== src/Hub/ContextFlight/Keeps.antt =====
-- Every operation of the context single flight keeps its invariant.
use bosun_midi_captain.Base.{
  ℕ, ◌+◌, ◌<◌, String, ◌≡◌, refl, Bool, true, false, Option, none, some, List, [], ◌∷◌, ◌++◌, arith,
  Bool-cases, inl, inr, length, length-append, count_if-append, same_nat, ◌==◌, ◌&&◌,
}
use bosun_midi_captain.Json.{Json, Fields, has_field, get_or_null}
use bosun_midi_captain.Hub.State.{
  Hub, Context, Waiter, error_fields, read_connected, offer_correlated, read_done,
}
use bosun_midi_captain.Hub.State.Frame.{
  read_connected-Quiet, offer_waiters-SameTables, read_done-Quiet,
}
use bosun_midi_captain.Hub.ContextFlight.Steps.{
  landed, promoted, answered-context, finish-none, finish-some, take-context,
}
use bosun_midi_captain.Hub.ContextFlight.Invariant.{
  Fits, ContextInv, Ready, landed-ContextInv, start-ContextInv,
}
use bosun_midi_captain.Hub.ContextFlight.{
  context_waiters_max, context_waiters_per_sub_max, count_of, is_none, is_empty, fail_context_with,
  start_context_flight, start_context, seal_context_flight, take_context_flight, join_context,
  context_busy, finish_context_flight, fail_context_flight, context_timed_out,
  fail_all_context_waiters, clear_all_context_waiters, queue_context_request, admit_context,
  settle_context_reply, consume_context_id, consume_context_reply,
}
use bosun_midi_captain.Hub.Request.{own_id}

module _ ⦃json : Json⦄ where
  start_context-ContextInv : (h : Hub) → Ready h.context → ContextInv (start_context h).context
  unfolding start_context start_context_flight
  start_context-ContextInv h r = start-ContextInv (start_context_flight 1) h r

  pub finish-ContextInv :
      (response : Fields) (stop : Bool) (h : Hub)
      → ContextInv h.context
      → ContextInv (finish_context_flight response stop h).context
  unfolding finish_context_flight
  finish-ContextInv response stop h v = elim (Bool-cases (is_empty h.context.next_waiters)) [
    | inl nobody ↦
        let e : h.context.next_waiters ≡ [] = ground arith in
        rw (finish-none start_context response stop h e, answered-context response stop h)
          (landed-ContextInv h.context e)
    | inr somebody ↦ rw (finish-some start_context response stop h somebody) (
        start_context-ContextInv (promoted response stop h) (record {
          no_flight = refl;
          none_behind = refl;
          open_flight = refl;
          fits = record {
            total = omega (arith, v.fits.total);
            per_sub = λ sub. omega (arith, v.fits.per_sub sub);
          };
        }))
  ]

  pub fail-ContextInv :
      (error : String) (stop : Bool) (h : Hub)
      → ContextInv h.context
      → ContextInv (fail_context_flight error stop h).context
  unfolding fail_context_flight finish_context_flight fail_context_with
  fail-ContextInv error stop h v =
      ground (arith, finish-ContextInv (error_fields error "GET_CONTEXT") stop h v)

  pub timed_out-ContextInv :
      (id : String) (h : Hub) → ContextInv h.context → ContextInv (context_timed_out id h).context
  unfolding context_timed_out
  timed_out-ContextInv id h v = ground (arith, fail-ContextInv "context_timeout" false h v)

  pub fail_all-ContextInv :
      (error : String) (h : Hub)
      → ContextInv h.context
      → ContextInv (fail_all_context_waiters error h).context
  unfolding fail_all_context_waiters clear_all_context_waiters
  fail_all-ContextInv error h v =
      elim (Bool-cases (is_none h.context.flight_id && is_empty h.context.next_waiters)) [
        | inl idle ↦ rw idle v
        | inr busy ↦
            let (ws, g) = clear_all_context_waiters h in
            rw (busy, (offer_waiters-SameTables ws (error_fields error "GET_CONTEXT") g).context)
              (cleared (take_context_flight true h).1.context (take-context true h))
      ]
    where
      cleared : (c : Context) → c ≡ landed h.context → ContextInv (record c { next_waiters = [] })
      cleared c e = rw e (landed-ContextInv (record h.context { next_waiters = [] }) refl)

pub seal-ContextInv : (h : Hub) → ContextInv h.context → ContextInv (seal_context_flight h).context
unfolding seal_context_flight
seal-ContextInv h v = elim (Bool-cases (is_none h.context.flight_id)) [
  | inl idle ↦ rw idle v
  | inr flying ↦
      rw flying (record { idle = λ p. cc; named = v.named; unsealed = λ p. cc; fits = v.fits })
]

-- Room for one more waiter of a subscriber.
push-Fits :
    (w : Waiter) (ws next : List Waiter)
    → Fits ws next
    → length ws + length next < context_waiters_max
    → count_of w.sub ws + count_of w.sub next < context_waiters_per_sub_max
    → Fits (ws ++ w ∷ []) next
push-Fits w ws next f total per_sub = record {
  total = omega (arith, length-append ws (w ∷ []));
  per_sub = λ sub. ground (arith, count_if-append (λ x. x.sub == sub) ws (w ∷ []), f.per_sub sub);
}

push_next-Fits :
    (w : Waiter) (ws next : List Waiter)
    → Fits ws next
    → length ws + length next < context_waiters_max
    → count_of w.sub ws + count_of w.sub next < context_waiters_per_sub_max
    → Fits ws (next ++ w ∷ [])
push_next-Fits w ws next f total per_sub = record {
  total = omega (arith, length-append next (w ∷ []));
  per_sub = λ sub. ground (arith, count_if-append (λ x. x.sub == sub) next (w ∷ []), f.per_sub sub);
}

module _ ⦃json : Json⦄ where
  join-ContextInv :
      (w : Waiter) (h : Hub)
      → ContextInv h.context
      → length h.context.waiters + length h.context.next_waiters < context_waiters_max
      → count_of w.sub h.context.waiters + count_of w.sub h.context.next_waiters
        < context_waiters_per_sub_max
      → ContextInv (join_context w h).context
  unfolding join_context
  join-ContextInv w h v total per_sub = elim (Bool-cases (is_none h.context.flight_id)) [
    | inl idle ↦ rw idle (
        start_context-ContextInv
          (record h { context = record h.context { waiters = h.context.waiters ++ w ∷ [] } })
          (record {
            no_flight = ground arith;
            none_behind = (v.idle idle).1;
            open_flight = (v.idle idle).2;
            fits = push-Fits w h.context.waiters h.context.next_waiters v.fits total per_sub;
          }))
    | inr flying ↦ elim (Bool-cases h.context.sealed) [
      | inl sealed ↦
          rw (flying, sealed)
            (record {
              idle = λ p. cc;
              named = v.named;
              unsealed = λ p. cc;
              fits = push_next-Fits w h.context.waiters h.context.next_waiters v.fits total per_sub;
            })
      | inr unsealed ↦
          rw (flying, unsealed)
            (record {
              idle = λ p. cc;
              named = v.named;
              unsealed = λ p. v.unsealed unsealed;
              fits = push-Fits w h.context.waiters h.context.next_waiters v.fits total per_sub;
            })
    ]
  ]

  admit-ContextInv :
      (up : Bool) (sub : ℕ) (msg : Fields) (h : Hub)
      → ContextInv h.context
      → ContextInv (admit_context up sub msg h).context
  unfolding admit_context offer_correlated
  admit-ContextInv false sub msg h v = v
  admit-ContextInv true sub msg h v = elim (Bool-cases (context_busy sub h)) [
    | inl busy ↦ rw busy v
    | inr room ↦ rw room (
        join-ContextInv
          (record { sub = sub; has_id = has_field "id" msg; request_id = get_or_null "id" msg }) h v
          (room_total sub h room) (room_sub sub h room))
  ]
    where
      room_total :
          (sub : ℕ) (h : Hub)
          → context_busy sub h ≡ false
          → length h.context.waiters + length h.context.next_waiters < context_waiters_max
      room_total sub h e = unfold context_busy in ground arith

      room_sub :
          (sub : ℕ) (h : Hub)
          → context_busy sub h ≡ false
          → count_of sub h.context.waiters + count_of sub h.context.next_waiters
            < context_waiters_per_sub_max
      room_sub sub h e = unfold context_busy in ground arith

  pub queue-ContextInv :
      (sub : ℕ) (msg : Fields) (h : Hub)
      → ContextInv h.context
      → ContextInv (queue_context_request sub msg h).1.context
  unfolding queue_context_request
  queue-ContextInv sub msg h v = ground (
    arith,
    admit-ContextInv (read_connected h).0 sub msg (read_connected h).1
        (rw (read_connected-Quiet h).context v),
  )

  settle-ContextInv :
      (msg : Fields) (h : Hub)
      → ContextInv h.context
      → ContextInv (settle_context_reply msg h).1.context
  unfolding settle_context_reply
  settle-ContextInv msg h v =
      ground (arith, fail-ContextInv "context_protocol" true h v, finish-ContextInv msg true h v)

  consume_id-ContextInv :
      (id : Option String) (msg : Fields) (h : Hub)
      → ContextInv h.context
      → ContextInv (consume_context_id id msg h).1.context
  unfolding consume_context_id
  consume_id-ContextInv none msg h v = v
  consume_id-ContextInv (some id) msg h v =
      let v' : ContextInv (read_done (some id) h).context =
        rw (read_done-Quiet (some id) h).context v in
      ground (arith, settle-ContextInv msg (read_done (some id) h) v')

  pub consume-ContextInv :
      (msg : Fields) (h : Hub)
      → ContextInv h.context
      → ContextInv (consume_context_reply msg h).1.context
  unfolding consume_context_reply
  consume-ContextInv msg h v =
      consume_id-ContextInv (own_id h.context.id_prefix (get_or_null "id" msg)) msg h v
