-- ===== src/Hub/ContextFlight/Answers.antt =====
-- Who is answered by a context flight, and who goes on waiting.
use bosun_midi_captain.Base.{
  ◌+◌, some, none, ◌≡◌, refl, sym, ap, ◌∙◌, String, Bool, true, false, [], ◌++◌, ◌⊎◌, inl, inr,
  arith, Bool-cases,
}
use bosun_midi_captain.Json.{Json, Fields}
use bosun_midi_captain.Hub.State.{
  Hub, Context, private_id, error_fields, refusal, send_line, track_read, call_later, cancel,
}
use bosun_midi_captain.Hub.State.Frame.{
  cancel-link, read_done-link, offer_waiters-link, refusal-Quiet, cancel-Quiet, read_done-Quiet,
  offer_waiters-SameTables,
}
use bosun_midi_captain.Hub.State.Replies.{replies, offers-offer_waiters}
use bosun_midi_captain.Hub.ContextFlight.Steps.{
  promoted, answered, answered-context, finish-none, finish-some, take-subs, launch-context,
  launched_context,
}
use bosun_midi_captain.Link.{Link, send}
use bosun_midi_captain.Hub.ContextFlight.{
  context_request, is_none, is_empty, take_context_flight, launch_context, fail_context_with,
  settle_context, start_context_with, start_context_flight, start_context, finish_context_flight,
}

take-offers : (stop : Bool) (h : Hub) → (take_context_flight stop h).1.offers ≡ h.offers
unfolding take_context_flight
take-offers true h = ground (
  arith,
  cancel-Quiet h.context.timeout_handle h,
  read_done-Quiet h.context.flight_id (cancel h.context.timeout_handle h),
)
take-offers false h = ground (arith, cancel-Quiet h.context.timeout_handle h)

launch-subs : ⦃json : Json⦄ (h : Hub) → (launch_context h).1.subs ≡ h.subs
unfolding launch_context send_line track_read call_later
launch-subs h = ground arith

launch-offers : ⦃json : Json⦄ (h : Hub) → (launch_context h).1.offers ≡ h.offers
unfolding launch_context send_line track_read call_later
launch-offers h = ground arith

take-link : (stop : Bool) (h : Hub) → (take_context_flight stop h).1.link ≡ h.link
unfolding take_context_flight
take-link true h = ground (
  arith,
  cancel-link h.context.timeout_handle h,
  read_done-link h.context.flight_id (cancel h.context.timeout_handle h),
)
take-link false h = ground (arith, cancel-link h.context.timeout_handle h)

launch-send :
    ⦃json : Json⦄ (h : Hub)
    → send (context_request (private_id h.context.id_prefix (h.context.seq + 1))) h.link
      ≡ ((launch_context h).0, (launch_context h).1.link)
unfolding launch_context send_line track_read call_later
launch-send h = ground arith

module _ ⦃json : Json⦄ where
  pub answered-subs :
      (response : Fields) (stop : Bool) (h : Hub) → (answered response stop h).subs ≡ h.subs
  answered-subs response stop h =
      (offer_waiters-SameTables h.context.waiters response (take_context_flight stop h).1).subs
      ∙ take-subs stop h

  -- A batch that is answered: one line for each waiter that is still there, in order.
  pub answered-offers :
      (response : Fields) (stop : Bool) (h : Hub)
      → (answered response stop h).offers ≡ h.offers ++ replies h.subs response h.context.waiters
  answered-offers response stop h = rw (
    offers-offer_waiters h.context.waiters response (take_context_flight stop h).1,
    take-offers stop h,
    take-subs stop h,
  )

  pub answered-link :
      (response : Fields) (stop : Bool) (h : Hub) → (answered response stop h).link ≡ h.link
  answered-link response stop h =
      offer_waiters-link h.context.waiters response (take_context_flight stop h).1
      ∙ take-link stop h

  -- The request of the flight after those of `c`.
  abbrev pub next_request : Context → String
  next_request c = context_request (private_id c.id_prefix (c.seq + 1))

  -- A new flight is in the air under the next private id, and the link `l` has taken its request.
  abbrev pub Launched : Context → Link → Hub → Type 0
  Launched c l g =
      (g.context.flight_id ≡ some (private_id c.id_prefix (c.seq + 1)))
      × (send (next_request c) l ≡ (true, g.link))

  -- The link `l` has refused the request of the next flight, and no flight is in the air.
  abbrev pub Rejected : Context → Link → Hub → Type 0
  Rejected c l g = ((send (next_request c) l).0 ≡ false) × (g.context.flight_id ≡ none)

  -- A flight that starts with nobody behind it: its request is on the link and its waiters wait, or
  -- the link refused it and all of them get one error.
  abbrev pub Started : Hub → Hub → Type 0
  Started h g =
      (g.context.next_waiters ≡ [])
      × ((Launched h.context h.link g
            × (g.context.waiters ≡ h.context.waiters)
            × (g.offers ≡ h.offers))
          ⊎ (Rejected h.context h.link g
              × (g.context.waiters ≡ [])
              × ((error : String) × (g.offers
                    ≡ h.offers
                      ++ replies h.subs (error_fields error "GET_CONTEXT") h.context.waiters))))

  module _ (start : Hub → Hub) where
    -- What a refused request does to a flight that nobody waits behind.
    abbrev Failed : Hub → Hub → Type 0
    Failed h g =
        (g.context.next_waiters ≡ [])
        × (g.context.waiters ≡ [])
        × (g.context.flight_id ≡ none)
        × ((error : String) × (g.offers
              ≡ h.offers ++ replies h.subs (error_fields error "GET_CONTEXT") h.context.waiters))

    settle-Failed :
        (h : Hub)
        → h.context.next_waiters ≡ []
        → is_none h.context.flight_id ≡ false
        → Failed h (settle_context start false h)
    unfolding settle_context fail_context_with
    settle-Failed h e f =
        let g = (refusal h).1 in
        let q = refusal-Quiet h in
        let response = error_fields (refusal h).0 "GET_CONTEXT" in
        let flying : is_none g.context.flight_id ≡ false = rw q.context f in
        let behind : g.context.next_waiters ≡ [] = rw q.context e in
        rw (flying, finish-none start response true g behind)
          (
            ap (λ c. c.next_waiters) (answered-context response true g) ∙ behind,
            ap (λ c. c.waiters) (answered-context response true g),
            ap (λ c. c.flight_id) (answered-context response true g),
            ((refusal h).0, answered-offers response true g ∙ rw (q.offers, q.subs, q.context)),
          )

    start-Started :
        (h : Hub)
        → h.context.next_waiters ≡ []
        → is_none h.context.flight_id ≡ true
        → is_empty h.context.waiters ≡ false
        → Started h (start_context_with start h)
    unfolding start_context_with settle_context
    start-Started h e idle somebody =
        rw (idle, somebody)
          (elim (Bool-cases (launch_context h).0) [
            | inl accepted ↦ rw accepted (
              ap (λ c. c.next_waiters) launched ∙ e,
              inl (
                (
                  ap (λ c. c.flight_id) launched,
                  launch-send h ∙ ap (λ b. (b, (launch_context h).1.link)) accepted,
                ),
                ap (λ c. c.waiters) launched,
                launch-offers h,
              ),
            )
            | inr refused ↦ rw refused (
                from_launch refused (settle_context start false (launch_context h).1) (
                  settle-Failed (launch_context h).1 (ap (λ c. c.next_waiters) launched ∙ e)
                    (ap (λ c. is_none c.flight_id) launched)))
          ])
      where
        launched : (launch_context h).1.context ≡ launched_context h.context (launch-context h).0
        launched = (launch-context h).1

        from_launch :
            (launch_context h).0 ≡ false → (g : Hub) → Failed (launch_context h).1 g → Started h g
        from_launch refused g (n, w, f, (error, o)) = (
          n,
          inr (
            (ap (λ r. r.0) (launch-send h) ∙ refused, f),
            w,
            (error, o ∙ rw (launch-offers h, launch-subs h, launched)),
          ),
        )

  pub start_context-Started :
      (h : Hub)
      → h.context.next_waiters ≡ []
      → is_none h.context.flight_id ≡ true
      → is_empty h.context.waiters ≡ false
      → Started h (start_context h)
  unfolding start_context start_context_flight
  start_context-Started h = start-Started (start_context_flight 1) h

  -- How a batch ends: all of it gets the response, in order, and nobody is left behind. With nobody
  -- behind it no flight is in the air. Otherwise those behind it wait in the next flight, whose
  -- request is on the link, or they get one error because the link refused that request.
  abbrev pub Finished : Fields → Hub → Hub → Type 0
  Finished response h g =
      let answered_offers = h.offers ++ replies h.subs response h.context.waiters in
      (g.context.next_waiters ≡ [])
      × (((h.context.next_waiters ≡ [])
            × (g.context.waiters ≡ [])
            × (g.context.flight_id ≡ none)
            × (g.offers ≡ answered_offers))
          ⊎ ((is_empty h.context.next_waiters ≡ false)
              × ((Launched h.context h.link g
                    × (g.context.waiters ≡ h.context.next_waiters)
                    × (g.offers ≡ answered_offers))
                  ⊎ (Rejected h.context h.link g
                      × (g.context.waiters ≡ [])
                      × ((error : String) × (g.offers
                            ≡ answered_offers
                              ++ replies h.subs (error_fields error "GET_CONTEXT")
                                  h.context.next_waiters))))))

  pub finish-Finished :
      (response : Fields) (stop : Bool) (h : Hub)
      → Finished response h (finish_context_flight response stop h)
  unfolding finish_context_flight
  finish-Finished response stop h = elim (Bool-cases (is_empty h.context.next_waiters)) [
    | inl nobody ↦
        let e : h.context.next_waiters ≡ [] = ground arith in
        let c = answered-context response stop h in
        rw (finish-none start_context response stop h e) (
          ap (λ c. c.next_waiters) c ∙ e,
          inl (e, ap (λ c. c.waiters) c, ap (λ c. c.flight_id) c, answered-offers response stop h),
        )
    | inr somebody ↦ rw (finish-some start_context response stop h somebody) (
        from_start somebody (start_context (promoted response stop h))
          (start_context-Started (promoted response stop h) refl refl somebody))
  ]
    where
      from_start :
          is_empty h.context.next_waiters ≡ false
          → (g : Hub) → Started (promoted response stop h) g
          → Finished response h g
      from_start somebody g (n, inl ((f, t), w, o)) = (
        n,
        inr (
          somebody,
          inl (
            (f, ap (send (next_request h.context)) (sym (answered-link response stop h)) ∙ t),
            w,
            o ∙ answered-offers response stop h,
          ),
        ),
      )
      from_start somebody g (n, inr ((t, f), w, (error, o))) = (
        n,
        inr (
          somebody,
          inr (
            (
              ap (λ l. (send (next_request h.context) l).0) (sym (answered-link response stop h))
                  ∙ t,
              f,
            ),
            w,
            (error, o ∙ rw (answered-offers response stop h, answered-subs response stop h)),
          ),
        ),
      )
