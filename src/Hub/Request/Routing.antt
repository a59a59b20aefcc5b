-- ===== src/Hub/Request/Routing.antt =====
-- Who gets the reply to an ordinary request, and how often.
use bosun_midi_captain.Base.{
  ℕ, ◌≡◌, refl, sym, ap, ◌∙◌, String, Bool, Option, none, some, List, [], ◌∷◌, ◌++◌, arith,
  Bool-cases, inl, inr, contains, same_nat, same_text, beq_refl, append-nil, append_assoc,
  if◌then◌else◌, map,
}
use bosun_midi_captain.Base.Dict.{get, get-pop}
use bosun_midi_captain.Json.{Json, Value, Fields}
use bosun_midi_captain.Hub.State.{Hub, Pending, Offer, correlated, offer_correlated, cancel}
use bosun_midi_captain.Hub.State.Frame.{cancel-Quiet}
use bosun_midi_captain.Hub.Request.{
  take_request, take_found, drop_pending, offer_each, deliver_to_owner, deliver_request_reply,
}

module _ ⦃json : Json⦄ where
  -- The line that a request's reply becomes for one subscriber.
  abbrev pub reply_line : Bool → Value → Fields → ℕ → Offer
  reply_line has_id request_id msg sub = record {
    sub = sub;
    line = correlated has_id request_id msg;
  }

  abbrev pub to_owner : Option ℕ → Bool → Value → List ℕ → Fields → List Offer
  to_owner none has_id request_id subs msg = []
  to_owner (some sub) has_id request_id subs msg =
      if contains sub subs then reply_line has_id request_id msg sub ∷ [] else []

  -- Everybody for a broadcast read; else the owner alone, if it is still there.
  abbrev pub deliveries : Pending → List ℕ → Fields → List Offer
  deliveries p subs msg =
      if p.broadcast
      then map (reply_line p.has_id p.request_id msg) subs
      else to_owner p.sub p.has_id p.request_id subs msg

  offers-offer_each :
      (subs : List ℕ) (p : Pending) (msg : Fields) (h : Hub)
      → (offer_each subs p.has_id p.request_id msg h).offers
        ≡ h.offers ++ map (reply_line p.has_id p.request_id msg) subs
  unfolding offer_each offer_correlated
  offers-offer_each [] p msg h = sym (append-nil h.offers)
  offers-offer_each (sub ∷ subs) p msg h =
      offers-offer_each subs p msg (offer_correlated sub p.has_id p.request_id msg h)
      ∙ append_assoc h.offers (reply_line p.has_id p.request_id msg sub ∷ [])
          (map (reply_line p.has_id p.request_id msg) subs)

  offers-deliver_to_owner :
      (owner : Option ℕ) (p : Pending) (msg : Fields) (h : Hub)
      → (deliver_to_owner owner p msg h).offers
        ≡ h.offers ++ to_owner owner p.has_id p.request_id h.subs msg
  unfolding deliver_to_owner offer_correlated
  offers-deliver_to_owner none p msg h = sym (append-nil h.offers)
  offers-deliver_to_owner (some sub) p msg h = elim (Bool-cases (contains sub h.subs)) [
    | inl live ↦ rw live
    | inr gone ↦ rw gone (sym (append-nil h.offers))
  ]

  pub offers-deliver :
      (p : Pending) (msg : Fields) (h : Hub)
      → (deliver_request_reply p msg h).offers ≡ h.offers ++ deliveries p h.subs msg
  unfolding deliver_request_reply
  offers-deliver p msg h = elim (Bool-cases p.broadcast) [
    | inl all ↦ simp all (offers-offer_each h.subs p msg h)
    | inr one ↦ simp one (offers-deliver_to_owner p.sub p msg h)
  ]

  -- A delivery offers lines and does nothing else.
  pub record SameBut (h g : Hub) : Type 0 where
    pub requests : g.requests ≡ h.requests
    pub reads : g.upstream_reads ≡ h.upstream_reads
    pub subs : g.subs ≡ h.subs

  offer_each-SameBut :
      (subs : List ℕ) (has_id : Bool) (request_id : Value) (msg : Fields) (h : Hub)
      → SameBut h (offer_each subs has_id request_id msg h)
  unfolding offer_each offer_correlated
  offer_each-SameBut [] has_id request_id msg h = ground arith
  offer_each-SameBut (sub ∷ subs) has_id request_id msg h =
      let r =
        offer_each-SameBut subs has_id request_id msg
          (offer_correlated sub has_id request_id msg h) in
      record { requests = r.requests; reads = r.reads; subs = r.subs }

  deliver_to_owner-SameBut :
      (owner : Option ℕ) (p : Pending) (msg : Fields) (h : Hub)
      → SameBut h (deliver_to_owner owner p msg h)
  unfolding deliver_to_owner offer_correlated
  deliver_to_owner-SameBut none p msg h = ground arith
  deliver_to_owner-SameBut (some sub) p msg h = ground arith

  pub deliver-SameBut :
      (p : Pending) (msg : Fields) (h : Hub) → SameBut h (deliver_request_reply p msg h)
  unfolding deliver_request_reply
  deliver-SameBut p msg h = ground (
    arith,
    offer_each-SameBut h.subs p.has_id p.request_id msg h,
    deliver_to_owner-SameBut p.sub p msg h,
  )

-- Taking a request: its entry goes, and nothing is offered.
pub record Taken (id : String) (h g : Hub) : Type 0 where
  pub gone : get id g.requests.pending ≡ none
  pub offers : g.offers ≡ h.offers
  pub subs : g.subs ≡ h.subs
  pub reads : g.upstream_reads ≡ h.upstream_reads
  pub id_prefix : g.requests.id_prefix ≡ h.requests.id_prefix

cancel-reads : (handle : Option ℕ) (h : Hub) → (cancel handle h).upstream_reads ≡ h.upstream_reads
unfolding cancel
cancel-reads none h = refl
cancel-reads (some n) h = refl

pub take_found-Taken :
    (id : String) (found : Option Pending) (h : Hub)
    → get id h.requests.pending ≡ found
    → Taken id h (take_found id found h).1
unfolding take_found drop_pending
take_found-Taken id none h e = record {
  gone = e;
  offers = refl;
  subs = refl;
  reads = refl;
  id_prefix = refl;
}
take_found-Taken id (some p) h e =
    let q = cancel-Quiet p.timeout_handle h in
    record {
      gone = get-pop id id (cancel p.timeout_handle h).requests.pending ∙ rw (beq_refl id);
      offers = q.offers;
      subs = q.subs;
      reads = cancel-reads p.timeout_handle h;
      id_prefix = ap (λ r. r.id_prefix) q.requests;
    }

pub take_request-Taken : (id : String) (h : Hub) → Taken id h (take_request id h).1
unfolding take_request
take_request-Taken id h = take_found-Taken id (get id h.requests.pending) h refl

pub take_request-some :
    (id : String) (p : Pending) (h : Hub)
    → get id h.requests.pending ≡ some p
    → (take_request id h).0 ≡ some (record p { timeout_handle = none })
unfolding take_request take_found
take_request-some id p h e = rw e

pub take_request-none :
    (id : String) (h : Hub) → get id h.requests.pending ≡ none → take_request id h ≡ (none, h)
unfolding take_request take_found
take_request-none id h e = rw (e, take_found)
