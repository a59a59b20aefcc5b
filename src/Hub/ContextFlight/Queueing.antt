-- ===== src/Hub/ContextFlight/Queueing.antt =====
-- What becomes of a GET_CONTEXT request.
use bosun_midi_captain.Base.{
  subst, ℕ, ◌≡◌, refl, sym, ap, ◌∙◌, String, Bool, true, false, List, [], ◌∷◌, ◌++◌, ◌⊎◌, inl, inr,
  Bool-cases, contains, same_nat, same_text,
}
use bosun_midi_captain.Json.{Json, Fields, has_field, get_or_null, has_other_key}
use bosun_midi_captain.Hub.State.{
  Hub, Waiter, Offer, error_fields, correlated, offer_correlated, read_connected,
}
use bosun_midi_captain.Hub.State.Replies.{replies}
use bosun_midi_captain.Hub.ContextFlight.Answers.{
  Launched, Rejected, Started, start_context-Started,
}
use bosun_midi_captain.Hub.ContextFlight.Invariant.{ContextInv}
use bosun_midi_captain.Link.{Link, is_connected}
use bosun_midi_captain.Hub.ContextFlight.{
  is_empty, is_none, join_context, admit_context, context_busy, start_context,
  queue_context_request,
}

-- The waiter that a request makes.
abbrev pub waiter_of : ℕ → Fields → Waiter
waiter_of sub msg = record {
  sub = sub;
  has_id = has_field "id" msg;
  request_id = get_or_null "id" msg;
}

module _ ⦃json : Json⦄ where
  -- One line to the waiter under its own id.
  abbrev pub offer_to : Waiter → Fields → Offer
  offer_to w response = record { sub = w.sub; line = correlated w.has_id w.request_id response }

  -- Why a request is refused: the link is down, there are too many waiters, or a flight had to be
  -- started for it and the link refused that flight's GET_CONTEXT.
  abbrev pub Refusable : String → Bool → Link → Waiter → Hub → Hub → Type 0
  Refusable error up l w h g =
      ((up ≡ false) × (error ≡ "link_down"))
      ⊎ (((up ≡ true) × (context_busy w.sub h ≡ true) × (error ≡ "context_busy"))
          ⊎ ((is_none h.context.flight_id ≡ true) × Rejected h.context l g))

  -- The flight that a request waits for: the one that it starts, when none is in the air, or the
  -- one in the air, which no barrier has sealed.
  abbrev pub Boarded : Link → Hub → Hub → Type 0
  Boarded l h g =
      ((is_none h.context.flight_id ≡ true) × Launched h.context l g)
      ⊎ ((is_none h.context.flight_id ≡ false)
          × (h.context.sealed ≡ false)
          × (g.context.flight_id ≡ h.context.flight_id))

  -- By whether the link is up, and the link as it is then: the request is refused with one error
  -- and leaves no waiter; or it waits for a flight; or it waits behind a sealed flight.
  abbrev pub QueuedOn : Bool → Link → Waiter → Hub → Hub → Type 0
  QueuedOn up l w h g =
      ((error : String) × Refusable error up l w h g
        × (g.context.waiters ≡ h.context.waiters)
        × (g.context.next_waiters ≡ h.context.next_waiters)
        × (g.offers ≡ h.offers ++ offer_to w (error_fields error "GET_CONTEXT") ∷ []))
      ⊎ ((Boarded l h g
            × (g.context.waiters ≡ h.context.waiters ++ w ∷ [])
            × (g.context.next_waiters ≡ h.context.next_waiters)
            × (g.offers ≡ h.offers))
          ⊎ ((h.context.sealed ≡ true)
              × (g.context.flight_id ≡ h.context.flight_id)
              × (g.context.waiters ≡ h.context.waiters)
              × (g.context.next_waiters ≡ h.context.next_waiters ++ w ∷ [])
              × (g.offers ≡ h.offers)))

  -- The hub asks the link first.
  abbrev pub Queued : Waiter → Hub → Hub → Type 0
  Queued w h g = QueuedOn (is_connected h.link).0 (is_connected h.link).1 w h g

  replies_one :
      (w : Waiter) (subs : List ℕ) (response : Fields)
      → contains w.sub subs ≡ true
      → replies subs response (w ∷ []) ≡ offer_to w response ∷ []
  unfolding replies
  replies_one w subs response live = rw live

  join-Queued :
      (up : Bool) (w : Waiter) (h : Hub)
      → ContextInv h.context
      → contains w.sub h.subs ≡ true
      → QueuedOn up h.link w h (join_context w h)
  unfolding join_context
  join-Queued up w h v live = elim (Bool-cases (is_none h.context.flight_id)) [
    | inl idle ↦
        let (no_waiters, none_behind, unsealed) = v.idle idle in
        let only : h.context.waiters ++ w ∷ [] ≡ w ∷ [] = ap (λ ws. ws ++ w ∷ []) no_waiters in
        let h₁ : Hub = record h {
          context = record h.context { waiters = h.context.waiters ++ w ∷ [] };
        } in
        let joined : join_context w h ≡ start_context h₁ = rw idle refl in
        subst (QueuedOn up h.link w h) (sym joined) (
          from_start idle none_behind no_waiters only (start_context h₁)
            (start_context-Started h₁ none_behind idle (ap is_empty only)))
    | inr flying ↦ elim (Bool-cases h.context.sealed) [
      | inl sealed ↦ rw (flying, sealed) (inr (inr (refl, refl, refl, refl, refl)))
      | inr unsealed ↦ rw (flying, unsealed) (inr (inl (inr (refl, refl, refl), refl, refl, refl)))
    ]
  ]
    where
      from_start :
          is_none h.context.flight_id ≡ true
          → h.context.next_waiters ≡ []
          → h.context.waiters ≡ []
          → h.context.waiters ++ w ∷ [] ≡ w ∷ []
          → (g : Hub)
          → Started
              (record h { context = record h.context { waiters = h.context.waiters ++ w ∷ [] } })
              g
          → QueuedOn up h.link w h g
      from_start idle none_behind no_waiters only g (n, inl (f, ws, o)) =
          inr (inl (inl (idle, f), ws, n ∙ sym none_behind, o))
      from_start idle none_behind no_waiters only g (n, inr (f, ws, (error, o))) = inl (
        error,
        inr (inr (idle, f)),
        ws ∙ sym no_waiters,
        n ∙ sym none_behind,
        o
            ∙ ap (λ r. h.offers ++ replies h.subs (error_fields error "GET_CONTEXT") r) only
            ∙ ap (◌++◌ h.offers) (replies_one w h.subs (error_fields error "GET_CONTEXT") live),
      )

  admit-Queued :
      (up : Bool) (sub : ℕ) (msg : Fields) (h : Hub)
      → ContextInv h.context
      → contains sub h.subs ≡ true
      → QueuedOn up h.link (waiter_of sub msg) h (admit_context up sub msg h)
  unfolding admit_context offer_correlated
  admit-Queued false sub msg h v live = inl ("link_down", inl (refl, refl), refl, refl, refl)
  admit-Queued true sub msg h v live = elim (Bool-cases (context_busy sub h)) [
    | inl busy ↦ rw busy (inl ("context_busy", inr (inl (refl, refl, refl)), refl, refl, refl))
    | inr room ↦
        let admitted : admit_context true sub msg h ≡ join_context (waiter_of sub msg) h =
          rw room refl in
        subst (QueuedOn true h.link (waiter_of sub msg) h) (sym admitted)
          (join-Queued true (waiter_of sub msg) h v live)
  ]

  -- While the context record satisfies its invariant: a GET_CONTEXT of a live subscriber, with no
  -- field but type and id, is taken. Either it is refused with one error and leaves no waiter, and
  -- then the link is down, there are too many waiters, or no flight is in the air and the link
  -- refuses the GET_CONTEXT of a new one. Or it becomes the last waiter of a flight: of a new one,
  -- whose GET_CONTEXT the link has taken, when none is in the air, else of the flight in the air,
  -- which is not sealed. Or that flight is sealed, and it becomes the last waiter behind it.
  pub queue_context_request-Queued :
      (sub : ℕ) (msg : Fields) (h : Hub)
      → ContextInv h.context
      → contains sub h.subs ≡ true
      → has_other_key ("type" ∷ "id" ∷ []) msg ≡ false
      → ((queue_context_request sub msg h).0 ≡ true)
        × Queued (waiter_of sub msg) h (queue_context_request sub msg h).1
  unfolding queue_context_request read_connected context_busy
  queue_context_request-Queued sub msg h v live canonical =
      let (up, h') = read_connected h in
      rw (canonical, live) (refl, admit-Queued up sub msg h' v live)
