-- ===== src/Hub/ContextFlight.antt =====
-- tools/rpi-hub/bosun_hub/hub.py: GET_CONTEXT single flight (_queue_context_request to
-- _consume_context_reply). A flight whose command is refused fails at once, and its failure starts
-- the flight of the waiters that queued behind it; `depth` bounds that nesting.
pub mod Steps
pub mod Depth
pub mod Invariant
pub mod Keeps
pub mod Answers
pub mod Delivery
pub mod Queueing
use bosun_midi_captain.Base.{
  ℕ, zero, suc, ◌+◌, String, Bool, true, false, Option, none, some, List, [], ◌∷◌, ◌++◌, leb,
  length, ◌&&◌, ◌||◌, same_text, same_nat, ◌==◌, contains, not, count_if, if◌then◌else◌,
}
use bosun_midi_captain.Json.{
  Json, Fields, str, obj, no_entries, entry, get_or_null, has_field, has_other_key, is_dict,
  is_text, is_true, is_text_in, is_hashable,
}
use bosun_midi_captain.Hub.State.{
  Hub, Waiter, context_timeout, private_id, read_connected, send_line, refusal, error_fields,
  offer_correlated, offer_waiters, track_read, read_done, call_later, cancel,
}
use bosun_midi_captain.Hub.Request.{own_id}

-- CONTEXT_WAITERS_MAX
abbrev pub context_waiters_max : ℕ
context_waiters_max = 512

-- CONTEXT_WAITERS_PER_SUB_MAX
abbrev pub context_waiters_per_sub_max : ℕ
context_waiters_per_sub_max = 64

abbrev pub is_none {ℓ} : {A : Type ℓ} → Option A → Bool
is_none none = true
is_none (some a) = false

abbrev pub is_empty {ℓ} : {A : Type ℓ} → List A → Bool
is_empty [] = true
is_empty (x ∷ xs) = false

-- flight_id == self._context_flight_id
abbrev pub is_flight : String → Option String → Bool
is_flight id none = false
is_flight id (some f) = f == id

-- sum(waiter[0] is sub for waiter in waiters)
abbrev pub count_of : ℕ → List Waiter → ℕ
count_of sub = count_if (λ w. w.sub == sub)

-- Hub._seal_context_flight
unfoldable pub seal_context_flight : Hub → Hub
seal_context_flight h =
    if is_none h.context.flight_id
    then h
    else record h { context = record h.context { sealed = true } }

-- Hub._take_context_flight
unfoldable pub take_context_flight : Bool → Hub → List Waiter × Hub
take_context_flight stop_tracking h =
    let h₁ = cancel h.context.timeout_handle h in
    let h₂ = if stop_tracking then read_done h.context.flight_id h₁ else h₁ in
    (
      h.context.waiters,
      record h₂ {
        context = record h₂.context {
          timeout_handle = none;
          waiters = [];
          flight_id = none;
          sealed = false;
        };
      },
    )

-- Hub._clear_all_context_waiters
unfoldable pub clear_all_context_waiters : Hub → List Waiter × Hub
clear_all_context_waiters h =
    let (ws, h') = take_context_flight true h in
    (ws ++ h'.context.next_waiters, record h' { context = record h'.context { next_waiters = [] } })

module _ ⦃json : Json⦄ where
  -- The waiters of the next flight move up, and `start` sends their request.
  unfoldable pub promote_context : (Hub → Hub) → Hub → Hub
  promote_context start h =
      if is_empty h.context.next_waiters
      then h
      else start (record h {
        context = record h.context { waiters = h.context.next_waiters; next_waiters = [] };
      })

  -- Hub._finish_context_flight, with _start_context_flight as `start`.
  unfoldable pub finish_context_with : (Hub → Hub) → Fields → Bool → Hub → Hub
  finish_context_with start response stop_tracking h =
      let (ws, h') = take_context_flight stop_tracking h in
      promote_context start (offer_waiters ws response h')

  -- Hub._fail_context_flight
  unfoldable pub fail_context_with : (Hub → Hub) → String → Bool → Hub → Hub
  fail_context_with start error stop_tracking h =
      if is_none h.context.flight_id
      then h
      else finish_context_with start (error_fields error "GET_CONTEXT") stop_tracking h

  -- {"type": "GET_CONTEXT", "id": flight_id}
  unfoldable pub context_request : String → String
  context_request id =
      json.compact (obj (entry "type" (str "GET_CONTEXT") (entry "id" (str id) no_entries)))

  unfoldable pub settle_context : (Hub → Hub) → Bool → Hub → Hub
  settle_context start true h = h
  settle_context start false h =
      let (error, h') = refusal h in fail_context_with start error true h'

  -- The new flight's id and timer, and its request on the link.
  unfoldable pub launch_context : Hub → Bool × Hub
  launch_context h =
      let seq = h.context.seq + 1 in
      let id = private_id h.context.id_prefix seq in
      let h₁ : Hub = record h {
        context = record h.context { seq = seq; flight_id = some id; sealed = false };
      } in
      let (handle, h₂) = call_later (context_timeout id) (track_read id "GET_CONTEXT" h₁) in
      let h₃ : Hub = record h₂ {
        context = record h₂.context {
          timeout_handle = if h₂.has_loop then handle else h₂.context.timeout_handle;
        };
      } in
      send_line (context_request id) h₃

  unfoldable pub start_context_with : (Hub → Hub) → Hub → Hub
  start_context_with start h =
      if not (is_none h.context.flight_id) || is_empty h.context.waiters
      then h
      else let (accepted, h') = launch_context h in settle_context start accepted h'

  -- Hub._start_context_flight
  unfoldable pub start_context_flight : ℕ → Hub → Hub
  start_context_flight zero h = h
  start_context_flight (suc depth) h = start_context_with (start_context_flight depth) h

  -- A flight that starts from a request can fail and start one more, which has nobody behind it.
  unfoldable pub start_context : Hub → Hub
  start_context = start_context_flight 2

  unfoldable pub finish_context_flight : Fields → Bool → Hub → Hub
  finish_context_flight = finish_context_with start_context

  unfoldable pub fail_context_flight : String → Bool → Hub → Hub
  fail_context_flight = fail_context_with start_context

  -- Hub._context_timed_out
  unfoldable pub context_timed_out : String → Hub → Hub
  context_timed_out id h =
      if is_flight id h.context.flight_id then fail_context_flight "context_timeout" false h else h

  -- Hub._fail_all_context_waiters
  unfoldable pub fail_all_context_waiters : String → Hub → Hub
  fail_all_context_waiters error h =
      if is_none h.context.flight_id && is_empty h.context.next_waiters
      then h
      else let (ws, h') = clear_all_context_waiters h in
        offer_waiters ws (error_fields error "GET_CONTEXT") h'

  -- Whether the hub holds as many waiters as it may, in all or for this subscriber.
  unfoldable pub context_busy : ℕ → Hub → Bool
  context_busy sub h =
      leb context_waiters_max (length h.context.waiters + length h.context.next_waiters)
      || leb context_waiters_per_sub_max
          (count_of sub h.context.waiters + count_of sub h.context.next_waiters)

  -- Join the flight, queue behind a sealed one, or start one.
  unfoldable pub join_context : Waiter → Hub → Hub
  join_context w h =
      if is_none h.context.flight_id
      then start_context
          (record h { context = record h.context { waiters = h.context.waiters ++ w ∷ [] } })
      else if h.context.sealed
      then record h {
        context = record h.context { next_waiters = h.context.next_waiters ++ w ∷ [] };
      }
      else record h { context = record h.context { waiters = h.context.waiters ++ w ∷ [] } }

  unfoldable pub admit_context : Bool → ℕ → Fields → Hub → Hub
  admit_context false sub msg h =
      offer_correlated sub (has_field "id" msg) (get_or_null "id" msg)
        (error_fields "link_down" "GET_CONTEXT") h
  admit_context true sub msg h =
      if context_busy sub h
      then offer_correlated sub (has_field "id" msg) (get_or_null "id" msg)
          (error_fields "context_busy" "GET_CONTEXT") h
      else join_context
          (record { sub = sub; has_id = has_field "id" msg; request_id = get_or_null "id" msg }) h

  -- Hub._queue_context_request
  unfoldable pub queue_context_request : ℕ → Fields → Hub → Bool × Hub
  queue_context_request sub msg h =
      if has_other_key ("type" ∷ "id" ∷ []) msg
      then (false, h)
      else if not (contains sub h.subs)
      then (true, h)
      else let (up, h') = read_connected h in (true, admit_context up sub msg h')

  -- A CONTEXT whose snapshot is missing or marked partial.
  unfoldable pub malformed_context : Fields → Bool
  malformed_context msg =
      not (is_dict (get_or_null "context" msg)) || is_true (get_or_null "partial" msg)

-- What a reply handler does with a line: pass it on, consume it, or raise TypeError.
pub data Outcome : Type 0 where
  passed consumed raised : Outcome

module _ ⦃json : Json⦄ where
  -- The active flight's reply, by its type. Looking a list or a dict up in {"CONTEXT", "ERROR"}
  -- raises TypeError.
  unfoldable pub settle_context_reply : Fields → Hub → Outcome × Hub
  settle_context_reply msg h =
      if is_text "CONTEXT" (get_or_null "type" msg) && malformed_context msg
      then (consumed, fail_context_flight "context_protocol" true h)
      else if not (is_hashable (get_or_null "type" msg))
      then (raised, h)
      else if is_text_in ("CONTEXT" ∷ "ERROR" ∷ []) (get_or_null "type" msg)
      then (consumed, finish_context_flight msg true h)
      else (consumed, fail_context_flight "context_protocol" true h)

  unfoldable pub consume_context_id : Option String → Fields → Hub → Outcome × Hub
  consume_context_id none msg h = (passed, h)
  consume_context_id (some id) msg h =
      let h' = read_done (some id) h in
      if is_flight id h'.context.flight_id then settle_context_reply msg h' else (consumed, h')

  -- Hub._consume_context_reply
  unfoldable pub consume_context_reply : Fields → Hub → Outcome × Hub
  consume_context_reply msg h =
      consume_context_id (own_id h.context.id_prefix (get_or_null "id" msg)) msg h
