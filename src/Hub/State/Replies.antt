-- ===== src/Hub/State/Replies.antt =====
-- What a batch of waiters is answered: the independent description of the hub's answering loop.
use bosun_midi_captain.Base.{
  ℕ, ◌≡◌, sym, ◌∙◌, List, [], ◌∷◌, ◌++◌, contains, Bool-cases, inl, inr, same_nat, append-nil,
  append_assoc, if◌then◌else◌,
}
use bosun_midi_captain.Json.{Json, Fields}
use bosun_midi_captain.Hub.State.{Hub, Waiter, Offer, correlated, offer_correlated, offer_waiters}

module _ ⦃json : Json⦄ where
  -- One line for each waiter that is still subscribed, in order, under the waiter's own id.
  unfoldable pub replies : List ℕ → Fields → List Waiter → List Offer
  replies subs response [] = []
  replies subs response (w ∷ ws) =
      let rest = replies subs response ws in
      if contains w.sub subs
      then record { sub = w.sub; line = correlated w.has_id w.request_id response } ∷ rest
      else rest

  pub offers-offer_waiters :
      (ws : List Waiter) (response : Fields) (h : Hub)
      → (offer_waiters ws response h).offers ≡ h.offers ++ replies h.subs response ws
  unfolding offer_waiters replies
  offers-offer_waiters [] response h = sym (append-nil h.offers)
  offers-offer_waiters (w ∷ ws) response h = elim (Bool-cases (contains w.sub h.subs)) [
    | inl live ↦
        rw (live, offer_waiters)
          (offers-offer_waiters ws response
              (offer_correlated w.sub w.has_id w.request_id response h)
            ∙ append_assoc h.offers _ (replies h.subs response ws))
    | inr gone ↦ rw (gone, offer_waiters) (offers-offer_waiters ws response h)
  ]
