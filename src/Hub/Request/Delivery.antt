-- ===== src/Hub/Request/Delivery.antt =====
-- Replies and time-outs of ordinary requests: each request is answered once, to its owner.
use bosun_midi_captain.Base.{
  ◌≡◌, refl, ap, ◌∙◌, String, true, false, none, some, ◌++◌, contains, contains-discard, same_text,
  beq_refl,
}
use bosun_midi_captain.Base.Dict.{get}
use bosun_midi_captain.Json.{Json, Fields, get_or_null}
use bosun_midi_captain.Hub.State.{Hub, Pending, read_done, error_fields}
use bosun_midi_captain.Hub.State.Frame.{read_done-Quiet}
use bosun_midi_captain.Hub.Request.{
  take_request, deliver_request_reply, request_timed_out, time_out_found, reply_found, take_reply,
  own_id, consume_own, consume_request_reply,
}
use bosun_midi_captain.Hub.Request.Routing.{
  deliveries, offers-deliver, deliver-SameBut, take_request-Taken, take_request-some,
  take_request-none,
}

-- After the request is over: no entry and no tracked read under its id.
abbrev pub IsOver : String → Hub → Type 0
IsOver id g = (get id g.requests.pending ≡ none) × (contains id g.upstream_reads ≡ false)

read_done-over :
    (id : String) (h : Hub) → contains id (read_done (some id) h).upstream_reads ≡ false
unfolding read_done
read_done-over id h = contains-discard id id h.upstream_reads ∙ rw (beq_refl id)

module _ ⦃json : Json⦄ where
  take_reply-some :
      (id : String) (p : Pending) (msg : Fields) (h : Hub)
      → get id h.requests.pending ≡ some p
      → ((take_reply id msg h).offers ≡ h.offers ++ deliveries p h.subs msg)
        × IsOver id (take_reply id msg h)
        × ((take_reply id msg h).requests.id_prefix ≡ h.requests.id_prefix)
  unfolding take_reply reply_found
  take_reply-some id p msg h e =
      let h₁ = read_done (some id) h in
      let q = read_done-Quiet (some id) h in
      let h₂ = (take_request id h₁).1 in
      let t = take_request-Taken id h₁ in
      let p' : Pending = record p { timeout_handle = none } in
      let found = take_request-some id p h₁ (rw q.requests e) in
      let d = deliver-SameBut p' msg h₂ in
      rw found (
        offers-deliver p' msg h₂ ∙ rw (t.offers, t.subs, q.offers, q.subs) refl,
        (
          ap (λ r. get id r.pending) d.requests ∙ t.gone,
          ap (contains id) (d.reads ∙ t.reads) ∙ read_done-over id h,
        ),
        ap (λ r. r.id_prefix) d.requests ∙ t.id_prefix ∙ ap (λ r. r.id_prefix) q.requests,
      )

  take_reply-none :
      (id : String) (msg : Fields) (h : Hub)
      → get id h.requests.pending ≡ none
      → take_reply id msg h ≡ read_done (some id) h
  unfolding take_reply reply_found
  take_reply-none id msg h e = rw (
      take_request-none id (read_done (some id) h)
        (ap (λ r. get id r.pending) (read_done-Quiet (some id) h).requests ∙ e))

  -- The first reply to a pending request is consumed and delivered to its owner alone (to
  -- everybody, for a read that came with no id), under the id of the caller, and ends the request;
  -- a second reply with that private id is consumed too, and nobody gets it.
  pub consume_request_reply_once :
      (id : String) (p : Pending) (first second : Fields) (h : Hub)
      → own_id h.requests.id_prefix (get_or_null "id" first) ≡ some id
      → own_id h.requests.id_prefix (get_or_null "id" second) ≡ some id
      → get id h.requests.pending ≡ some p
      → let (taken, g) = consume_request_reply first h in
        let (again, k) = consume_request_reply second g in
        (taken ≡ true)
        × (g.offers ≡ h.offers ++ deliveries p h.subs first)
        × IsOver id g
        × (again ≡ true)
        × (k.offers ≡ g.offers)
  unfolding consume_request_reply consume_own
  consume_request_reply_once id p first second h own own' e =
      let g = take_reply id first h in
      let (offered, over, same_prefix) = take_reply-some id p first h e in
      let own_again : own_id g.requests.id_prefix (get_or_null "id" second) ≡ some id =
        rw same_prefix own' in
      rw (own, own_again, take_reply-none id second g over.0)
        (refl, offered, over, refl, (read_done-Quiet (some id) g).offers)

  -- A time-out gives the owner an error under the id of the caller and ends the request for the
  -- client, but the read stays tracked: only the Captain's reply or the end of the session ends
  -- that. A reply that comes late is consumed, reaches nobody, and ends the tracking.
  pub request_timed_out_late :
      (id : String) (p : Pending) (late : Fields) (h : Hub)
      → own_id h.requests.id_prefix (get_or_null "id" late) ≡ some id
      → get id h.requests.pending ≡ some p
      → let g = request_timed_out id h in
        let (taken, k) = consume_request_reply late g in
        (g.offers ≡ h.offers ++ deliveries p h.subs (error_fields "request_timeout" p.kind))
        × (get id g.requests.pending ≡ none)
        × (g.upstream_reads ≡ h.upstream_reads)
        × (taken ≡ true)
        × (k.offers ≡ g.offers)
        × (contains id k.upstream_reads ≡ false)
  unfolding request_timed_out time_out_found consume_request_reply consume_own
  request_timed_out_late id p late h own e =
      let p' : Pending = record p { timeout_handle = none } in
      let h₁ = (take_request id h).1 in
      let t = take_request-Taken id h in
      let response = error_fields "request_timeout" p.kind in
      let d = deliver-SameBut p' response h₁ in
      let g = deliver_request_reply p' response h₁ in
      let gone : get id g.requests.pending ≡ none =
        ap (λ r. get id r.pending) d.requests ∙ t.gone in
      let own_late : own_id g.requests.id_prefix (get_or_null "id" late) ≡ some id =
        rw (d.requests, t.id_prefix) own in
      rw (take_request-some id p h e, own_late, take_reply-none id late g gone)
        (
          offers-deliver p' response h₁ ∙ rw (t.offers, t.subs) refl,
          gone,
          d.reads ∙ t.reads,
          refl,
          (read_done-Quiet (some id) g).offers,
          read_done-over id g,
        )
