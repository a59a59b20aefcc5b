-- ===== src/Hub/Request.antt =====
-- tools/rpi-hub/bosun_hub/hub.py: ordinary requests under private ids, with their limits,
-- time-outs and replies (_queue_request to _consume_request_reply).
pub mod OwnIds
pub mod Routing
pub mod Delivery
pub mod Owned
pub mod Limits
use text.Mathlib.Text.{starts_with}
use bosun_midi_captain.Base.{
  ℕ, ◌+◌, String, Bool, true, false, Option, none, some, List, [], ◌∷◌, leb, length, ◌&&◌, ◌||◌,
  same_text, same_nat, contains, add, discard, not, if◌then◌else◌,
}
use bosun_midi_captain.Base.Dict.{Dict, get, put, pop, keys}
use bosun_midi_captain.Json.{Json, Value, Fields, str, obj, get_or_null, has_field, put_field}
use bosun_midi_captain.Hub.State.{
  Hub, Pending, request_timeout, private_id, read_connected, send_line, refusal, error_fields,
  offer_correlated, tracked_reads, track_read, read_done, call_later, cancel,
}

-- REQUESTS_MAX
abbrev pub requests_max : ℕ
requests_max = 64

-- REQUESTS_PER_SUB_MAX
abbrev pub requests_per_sub_max : ℕ
requests_per_sub_max = 32

abbrev ids_or_empty : Option (List String) → List String
ids_or_empty none = []
ids_or_empty (some ids) = ids

-- The private ids that a subscriber owns; an absent key and an empty set count alike.
unfoldable pub ids_of : ℕ → Dict ℕ (List String) → List String
ids_of sub d = ids_or_empty (get sub d)

-- An empty set of ids is not kept.
unfoldable pub put_ids : ℕ → List String → Dict ℕ (List String) → Dict ℕ (List String)
put_ids sub [] d = pop sub d
put_ids sub (id ∷ ids) d = put sub (id ∷ ids) d

-- subscriber_ids.discard(private_id), and the entry is popped when the set runs empty.
unfoldable pub release_id :
    ℕ → String → Option (List String) → Dict ℕ (List String) → Dict ℕ (List String)
release_id sub id none d = d
release_id sub id (some ids) d = put_ids sub (discard id ids) d

unfoldable pub release_owner : Option ℕ → String → Dict ℕ (List String) → Dict ℕ (List String)
release_owner none id d = d
release_owner (some sub) id d = release_id sub id (get sub d) d

unfoldable pub drop_pending : String → Pending → Hub → Hub
drop_pending id p h = record h {
  requests = record h.requests {
    pending = pop id h.requests.pending;
    ids_by_sub = release_owner p.sub id h.requests.ids_by_sub;
  };
}

unfoldable pub take_found : String → Option Pending → Hub → Option Pending × Hub
take_found id none h = (none, h)
take_found id (some p) h =
    (some (record p { timeout_handle = none }), drop_pending id p (cancel p.timeout_handle h))

-- Hub._take_request
unfoldable pub take_request : String → Hub → Option Pending × Hub
take_request id h = take_found id (get id h.requests.pending) h

module _ ⦃json : Json⦄ where
  -- for sub in self._subs: self._offer_correlated(...)
  unfoldable pub offer_each : List ℕ → Bool → Value → Fields → Hub → Hub
  offer_each [] has_id request_id msg h = h
  offer_each (sub ∷ subs) has_id request_id msg h =
      offer_each subs has_id request_id msg (offer_correlated sub has_id request_id msg h)

  unfoldable pub deliver_to_owner : Option ℕ → Pending → Fields → Hub → Hub
  deliver_to_owner none p msg h = h
  deliver_to_owner (some sub) p msg h =
      if contains sub h.subs then offer_correlated sub p.has_id p.request_id msg h else h

  -- Hub._deliver_request_reply
  unfoldable pub deliver_request_reply : Pending → Fields → Hub → Hub
  deliver_request_reply p msg h =
      if p.broadcast
      then offer_each h.subs p.has_id p.request_id msg h
      else deliver_to_owner p.sub p msg h

  -- What follows link.send in _queue_request.
  unfoldable pub settle_send : Bool → String → ℕ → Bool → Value → String → Hub → Hub
  settle_send true id sub has_id request_id kind h = h
  settle_send false id sub has_id request_id kind h =
      let (error, h') = refusal (read_done (some id) (take_request id h).1) in
      offer_correlated sub has_id request_id (error_fields error kind) h'

  -- _queue_request from the new private id on.
  unfoldable pub start_request : ℕ → String → Fields → Hub → Hub
  start_request sub kind msg h =
      let seq = h.requests.seq + 1 in
      let id = private_id h.requests.id_prefix seq in
      let has_id = has_field "id" msg in
      let request_id = get_or_null "id" msg in
      let (handle, h₁) = call_later (request_timeout id) (track_read id kind h) in
      let p : Pending = record {
        sub = some sub;
        has_id = has_id;
        request_id = request_id;
        kind = kind;
        broadcast = not has_id;
        timeout_handle = handle;
      } in
      let h₂ : Hub = record h₁ {
        requests = record h₁.requests {
          seq = seq;
          pending = put id p h₁.requests.pending;
          ids_by_sub = put sub (add id (ids_of sub h₁.requests.ids_by_sub)) h₁.requests.ids_by_sub;
        };
      } in
      let (accepted, h₃) = send_line (json.compact (obj (put_field "id" (str id) msg))) h₂ in
      settle_send accepted id sub has_id request_id kind h₃

  -- Whether the hub has no room for one more request of this subscriber.
  unfoldable pub request_busy : ℕ → Hub → Bool
  request_busy sub h =
      leb requests_max (length h.requests.pending)
      || leb requests_per_sub_max (length (ids_of sub h.requests.ids_by_sub))

  unfoldable pub admit_request : Bool → ℕ → String → Fields → Hub → Hub
  admit_request false sub kind msg h =
      offer_correlated sub (has_field "id" msg) (get_or_null "id" msg)
        (error_fields "link_down" kind) h
  admit_request true sub kind msg h =
      if request_busy sub h
      then offer_correlated sub (has_field "id" msg) (get_or_null "id" msg)
          (error_fields "request_busy" kind) h
      else start_request sub kind msg h

  -- Hub._queue_request; `kind` is msg["type"].
  unfoldable pub queue_request : ℕ → String → Fields → Hub → Bool × Hub
  queue_request sub kind msg h =
      if not (has_field "id" msg) && not (contains kind tracked_reads)
      then (false, h)
      else if not (contains sub h.subs)
      then (true, h)
      else let (up, h') = read_connected h in (true, admit_request up sub kind msg h')

  unfoldable pub time_out_found : Option Pending → Hub → Hub
  time_out_found none h = h
  time_out_found (some p) h = deliver_request_reply p (error_fields "request_timeout" p.kind) h

  -- Hub._request_timed_out
  unfoldable pub request_timed_out : String → Hub → Hub
  request_timed_out id h = let (p, h') = take_request id h in time_out_found p h'

  unfoldable pub deliver_failures : String → List Pending → Hub → Hub
  deliver_failures error [] h = h
  deliver_failures error (p ∷ ps) h =
      deliver_failures error ps (deliver_request_reply p (error_fields error p.kind) h)

-- self._request_pending.get(private_id): pending.sub = None when it is a broadcast, else take it.
unfoldable pub clear_one : String → Option Pending → Hub → Hub
clear_one id none h = (take_request id h).1
clear_one id (some p) h =
    if p.broadcast
    then record h {
      requests = record h.requests {
        pending = put id (record p { sub = none }) h.requests.pending;
      };
    }
    else (take_request id h).1

unfoldable pub clear_ids : List String → Hub → Hub
clear_ids [] h = h
clear_ids (id ∷ ids) h = clear_ids ids (clear_one id (get id h.requests.pending) h)

-- Hub._clear_subscriber_requests
unfoldable pub clear_subscriber_requests : ℕ → Hub → Hub
clear_subscriber_requests sub h =
    clear_ids (ids_of sub h.requests.ids_by_sub)
      (record h { requests = record h.requests { ids_by_sub = pop sub h.requests.ids_by_sub } })

abbrev cons_taken : Option Pending → List Pending → List Pending
cons_taken none ps = ps
cons_taken (some p) ps = p ∷ ps

unfoldable pub take_all : List String → Hub → List Pending × Hub
take_all [] h = ([], h)
take_all (id ∷ ids) h =
    let (p, h₁) = take_request id h in let (ps, h₂) = take_all ids h₁ in (cons_taken p ps, h₂)

-- Hub._clear_all_requests
unfoldable pub clear_all_requests : Hub → List Pending × Hub
clear_all_requests h = take_all (keys h.requests.pending) h

module _ ⦃json : Json⦄ where
  -- Hub._fail_all_requests
  unfoldable pub fail_all_requests : String → Hub → Hub
  fail_all_requests error h = let (ps, h') = clear_all_requests h in deliver_failures error ps h'

  unfoldable pub reply_found : Option Pending → Fields → Hub → Hub
  reply_found none msg h = h
  reply_found (some p) msg h = deliver_request_reply p msg h

  -- _consume_request_reply for an id in the hub's namespace.
  unfoldable pub take_reply : String → Fields → Hub → Hub
  take_reply id msg h =
      let (p, h') = take_request id (read_done (some id) h) in reply_found p msg h'

-- isinstance(id, str) and id.startswith(prefix), with the id.
unfoldable pub own_id : String → Value → Option String
own_id id_prefix (str id) = if starts_with id id_prefix then some id else none
own_id id_prefix _ = none

module _ ⦃json : Json⦄ where
  unfoldable pub consume_own : Option String → Fields → Hub → Bool × Hub
  consume_own none msg h = (false, h)
  consume_own (some id) msg h = (true, take_reply id msg h)

  -- Hub._consume_request_reply
  unfoldable pub consume_request_reply : Fields → Hub → Bool × Hub
  consume_request_reply msg h =
      consume_own (own_id h.requests.id_prefix (get_or_null "id" msg)) msg h
