-- ===== src/Hub/ContextFlight/Delivery.antt =====
-- What the Captain's replies to a context flight bring about.
use bosun_midi_captain.Base.{
  ◌≡◌, refl, [], ◌∷◌, String, Bool, true, false, some, inl, inr, arith, Bool-cases, not, ◌&&◌, ◌||◌,
  if◌then◌else◌, same_text, beq_refl,
}
use bosun_midi_captain.Json.{
  Json, Value, Fields, str, get_or_null, is_text, is_hashable, is_text_in,
}
use bosun_midi_captain.Hub.State.{Hub, private_id, error_fields, read_done}
use bosun_midi_captain.Hub.State.Frame.{Quiet, read_done-Quiet, read_done-link}
use bosun_midi_captain.Hub.Request.{own_id}
use bosun_midi_captain.Hub.Request.OwnIds.{own_id-private_id}
use bosun_midi_captain.Hub.ContextFlight.Answers.{Finished, finish-Finished}
use bosun_midi_captain.Hub.ContextFlight.Invariant.{ContextInv}
use bosun_midi_captain.Hub.ContextFlight.{
  consumed, malformed_context, consume_context_reply, consume_context_id, settle_context_reply,
  finish_context_flight, fail_context_flight, fail_context_with, is_none,
}

-- A message that answers for the flight in the air.
abbrev pub AnswersFlight : Fields → Hub → Type 0
AnswersFlight msg h =
    (id : String) × (h.context.flight_id ≡ some id) × (get_or_null "id" msg ≡ str id)

-- The types that answer a flight: a whole CONTEXT, and an ERROR.
abbrev pub is_answer : Value → Bool → Bool
is_answer type malformed = (is_text "CONTEXT" type && not malformed) || is_text "ERROR" type

reply_branches {ℓ} :
    {A : Type ℓ} (type : Value) (malformed : Bool)
    → is_hashable type ≡ true
    → (failed finished other : A)
    → (if is_text "CONTEXT" type && malformed
        then failed
        else if not (is_hashable type)
        then other
        else if is_text_in ("CONTEXT" ∷ "ERROR" ∷ []) type
        then finished
        else failed)
      ≡ (if is_answer type malformed then finished else failed)
reply_branches (str t) malformed hashable failed finished other = ground (
  arith,
  same_text.same_iff "CONTEXT" t,
  same_text.same_iff "ERROR" t,
  same_text.same_iff "CONTEXT" "ERROR",
)
reply_branches _ malformed hashable failed finished other = ground arith

module _ ⦃json : Json⦄ where
  -- A reply to the flight in the air is settled by its type, after its read is no longer tracked.
  to_settle :
      (msg : Fields) (h : Hub) (id : String)
      → ContextInv h.context
      → h.context.flight_id ≡ some id
      → get_or_null "id" msg ≡ str id
      → consume_context_reply msg h ≡ settle_context_reply msg (read_done (some id) h)
  unfolding consume_context_reply consume_context_id
  to_settle msg h id v flying named =
      let e : id ≡ private_id h.context.id_prefix h.context.seq = v.named id flying in
      let own : own_id h.context.id_prefix (str id) ≡ some id =
        rw e (own_id-private_id h.context.id_prefix h.context.seq) in
      rw (named, own, (read_done-Quiet (some id) h).context, flying, beq_refl id)

  -- What the waiters of a flight get for a reply: the snapshot or the error as it came, and an
  -- error of the hub's own for a partial snapshot or any other type.
  abbrev pub context_answer : Fields → Fields
  context_answer msg =
      if is_answer (get_or_null "type" msg) (malformed_context msg)
      then msg
      else error_fields "context_protocol" "GET_CONTEXT"

  fail-Finished :
      (error : String) (stop : Bool) (h : Hub)
      → is_none h.context.flight_id ≡ false
      → Finished (error_fields error "GET_CONTEXT") h (fail_context_flight error stop h)
  unfolding fail_context_flight fail_context_with finish_context_flight
  fail-Finished error stop h flying =
      rw flying (finish-Finished (error_fields error "GET_CONTEXT") stop h)

  Finished-Quiet :
      (response : Fields) (h h' g : Hub)
      → Quiet h h'
      → h'.link ≡ h.link
      → Finished response h' g
      → Finished response h g
  Finished-Quiet response h h' g q l f = rw (← q.context, ← q.subs, ← q.offers, ← l) f

  settle_context_type :
      (msg : Fields) (h : Hub)
      → is_none h.context.flight_id ≡ false
      → is_hashable (get_or_null "type" msg) ≡ true
      → ((settle_context_reply msg h).0 ≡ consumed)
        × Finished (context_answer msg) h (settle_context_reply msg h).1
  unfolding settle_context_reply
  settle_context_type msg h flying hashable =
      let failed = fail-Finished "context_protocol" true h flying in
      let finished = finish-Finished msg true h in
      rw (reply_branches (get_or_null "type" msg) (malformed_context msg) hashable)
        (elim (Bool-cases (is_answer (get_or_null "type" msg) (malformed_context msg))) [
          | inl whole ↦ rw whole (refl, finished)
          | inr broken ↦ rw broken (refl, failed)
        ])

  -- While the context record satisfies its invariant and a flight is in the air: a message with the
  -- flight's id and a hashable type is consumed. It answers the flight's batch, one line for each
  -- waiter whose subscriber is live. With nobody behind the batch no flight is in the air after it.
  -- Otherwise either the next flight is in the air for those behind it, under the next private id
  -- and with its GET_CONTEXT taken by the link, or the link refused that GET_CONTEXT, no flight is
  -- in the air, nobody waits, and those behind get one error.
  pub consume_context_reply-Finished :
      (msg : Fields) (h : Hub) (id : String)
      → ContextInv h.context
      → h.context.flight_id ≡ some id
      → get_or_null "id" msg ≡ str id
      → is_hashable (get_or_null "type" msg) ≡ true
      → ((consume_context_reply msg h).0 ≡ consumed)
        × Finished (context_answer msg) h (consume_context_reply msg h).1
  consume_context_reply-Finished msg h id v flying named hashable =
      let q = read_done-Quiet (some id) h in
      let h' = read_done (some id) h in
      let settled = settle_context_type msg h' (rw (q.context, flying) refl) hashable in
      rw (to_settle msg h id v flying named) (
        settled.0,
        Finished-Quiet (context_answer msg) h h' (settle_context_reply msg h').1 q
            (read_done-link (some id) h) settled.1,
      )
