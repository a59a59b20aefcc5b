-- ===== src/Hub/Request/Limits.antt =====
-- The limits on ordinary requests: in all, and for each subscriber.
use bosun_midi_captain.Base.{
  sym, ◌⊎◌, ℕ, ◌+◌, ◌≤◌, ◌<◌, ◌≡◌, refl, ◌∙◌, String, Bool, true, false, Option, none, some, List,
  [], ◌∷◌, arith, Bool-cases, inl, inr, contains, add, discard, length, length-append, same_nat,
  same_text, leb, ◌||◌, ◌&&◌, not, if◌then◌else◌,
}
use bosun_midi_captain.Base.Dict.{get, put, pop, get-put, get-pop, length-put-le, length-pop-le}
use bosun_midi_captain.Json.{Json, Value, Fields, has_field}
use bosun_midi_captain.Hub.State.{
  Hub, Pending, Requests, private_id, request_timeout, read_connected, read_done, tracked_reads,
  track_read, send_line, offer_correlated,
}
use bosun_midi_captain.Hub.State.Frame.{
  refusal-Quiet, read_done-Quiet, cancel-Quiet, read_connected-Quiet, track_read-Quiet,
  call_later-Quiet,
}
use bosun_midi_captain.Hub.Request.{
  requests_max, requests_per_sub_max, ids_of, release_owner, drop_pending, take_found, take_request,
  settle_send, start_request, request_busy, admit_request, queue_request,
}
use bosun_midi_captain.Hub.Request.OwnIds.{private_id-injective}
use bosun_midi_captain.Hub.Request.Owned.{
  is_owner, owned, Unique, owned-none, owned-other, owned-put, owned-pop, discard_absent,
  add_absent, put-Unique, pop-Unique, ids_of-put, ids_of-release_owner,
}

-- The limits, and what keeps the index in step with the table.
pub record WithinLimits (r : Requests) : Type 0 where
  pub total : length r.pending ≤ requests_max
  pub per_sub : (sub : ℕ) → length (owned sub r.pending) ≤ requests_per_sub_max
  pub indexed : (sub : ℕ) → ids_of sub r.ids_by_sub ≡ owned sub r.pending
  pub unique : Unique r.pending
  -- No pending request has an id that is still to come.
  pub fresh : (n : ℕ) → r.seq < n → get (private_id r.id_prefix n) r.pending ≡ none

length-discard-le : (id : String) (ids : List String) → length (discard id ids) ≤ length ids
length-discard-le id [] = omega arith
length-discard-le id (x ∷ ids) = ground (arith, length-discard-le id ids)

-- The table and its index once a request is taken out.
taken : String → Pending → Requests → Requests
taken id p r = record r {
  pending = pop id r.pending;
  ids_by_sub = release_owner p.sub id r.ids_by_sub;
}

taken-WithinLimits :
    (id : String) (p : Pending) (r : Requests)
    → get id r.pending ≡ some p
    → WithinLimits r
    → WithinLimits (taken id p r)
unfolding taken
taken-WithinLimits id p r found v = record {
  total = omega (arith, length-pop-le id r.pending, v.total);
  per_sub = λ sub.
      rw (owned-pop sub id r.pending)
        (omega (arith, length-discard-le id (owned sub r.pending), v.per_sub sub));
  indexed = λ sub.
      ids_of-release_owner sub p.sub id r.ids_by_sub
      ∙ released sub (Bool-cases (is_owner sub p.sub))
      ∙ sym (owned-pop sub id r.pending);
  unique = pop-Unique id r.pending v.unique;
  fresh =
      λ n later. ground (arith, get-pop (private_id r.id_prefix n) id r.pending, v.fresh n later);
}
  where
    released :
        (sub : ℕ)
        → (is_owner sub p.sub ≡ true) ⊎ (is_owner sub p.sub ≡ false)
        → (if is_owner sub p.sub
            then discard id (ids_of sub r.ids_by_sub)
            else ids_of sub r.ids_by_sub)
          ≡ discard id (owned sub r.pending)
    released sub (inl mine) = rw (mine, v.indexed sub) refl
    released sub (inr other) =
        rw (other, v.indexed sub)
          (sym (
            discard_absent id (owned sub r.pending)
              (owned-other sub id p r.pending v.unique found other)))

take_found-WithinLimits :
    (id : String) (found : Option Pending) (h : Hub)
    → get id h.requests.pending ≡ found
    → WithinLimits h.requests
    → WithinLimits (take_found id found h).1.requests
unfolding take_found drop_pending taken
take_found-WithinLimits id none h e v = v
take_found-WithinLimits id (some p) h e v =
    rw (cancel-Quiet p.timeout_handle h).requests (taken-WithinLimits id p h.requests e v)

pub take_request-WithinLimits :
    (id : String) (h : Hub) → WithinLimits h.requests → WithinLimits (take_request id h).1.requests
unfolding take_request
take_request-WithinLimits id h v = take_found-WithinLimits id (get id h.requests.pending) h refl v

-- The table and its index with a request under the next private id.
put_next : ℕ → Pending → Requests → Requests
put_next sub p r =
    let id = private_id r.id_prefix (r.seq + 1) in
    record r {
      seq = r.seq + 1;
      pending = put id p r.pending;
      ids_by_sub = put sub (add id (ids_of sub r.ids_by_sub)) r.ids_by_sub;
    }

put_next-WithinLimits :
    (sub : ℕ) (p : Pending) (r : Requests)
    → p.sub ≡ some sub
    → length r.pending < requests_max
    → length (ids_of sub r.ids_by_sub) < requests_per_sub_max
    → WithinLimits r
    → WithinLimits (put_next sub p r)
unfolding put_next
put_next-WithinLimits sub p r owner room sub_room v =
    let id = private_id r.id_prefix (r.seq + 1) in
    let new : get id r.pending ≡ none = v.fresh (r.seq + 1) (omega arith) in
    let absent = owned-none sub id r.pending new in
    record {
      total = omega (arith, length-put-le id p r.pending, room);
      per_sub = λ j. ground (
        arith,
        owned-put j id p r.pending new,
        owner,
        v.per_sub j,
        v.indexed sub,
        same_nat.same_iff sub j,
        length-append (owned sub r.pending) (id ∷ []),
        sub_room,
      );
      indexed = λ j. ground (
        arith,
        ids_of-put j sub (add id (ids_of sub r.ids_by_sub)) r.ids_by_sub,
        owned-put j id p r.pending new,
        owner,
        v.indexed j,
        v.indexed sub,
        same_nat.same_iff sub j,
        add_absent id (owned sub r.pending) absent,
      );
      unique = put-Unique id p r.pending new v.unique;
      fresh = λ n later. ground (
        arith,
        get-put (private_id r.id_prefix n) id p r.pending,
        v.fresh n (omega (arith, later)),
        same_text.same_iff id (private_id r.id_prefix n),
        private_id-injective r.id_prefix (r.seq + 1) n,
      );
    }

module _ ⦃json : Json⦄ where
  settle_send-WithinLimits :
      (accepted : Bool) (id : String) (sub : ℕ) (has_id : Bool) (request_id : Value) (kind : String)
      (h : Hub)
      → WithinLimits h.requests
      → WithinLimits (settle_send accepted id sub has_id request_id kind h).requests
  unfolding settle_send offer_correlated
  settle_send-WithinLimits true id sub has_id request_id kind h v = v
  settle_send-WithinLimits false id sub has_id request_id kind h v =
      let taken = (take_request id h).1 in
      rw
        (
          (refusal-Quiet (read_done (some id) taken)).requests,
          (read_done-Quiet (some id) taken).requests,
        )
        (take_request-WithinLimits id h v)

  start_request-WithinLimits :
      (sub : ℕ) (kind : String) (msg : Fields) (h : Hub)
      → WithinLimits h.requests
      → request_busy sub h ≡ false
      → WithinLimits (start_request sub kind msg h).requests
  unfolding start_request send_line request_busy put_next
  start_request-WithinLimits sub kind msg h v room =
      let id = private_id h.requests.id_prefix (h.requests.seq + 1) in
      let tracked = track_read-Quiet id kind h in
      let armed = call_later-Quiet (request_timeout id) (track_read id kind h) in
      let same = armed.requests ∙ tracked.requests in
      settle_send-WithinLimits _ _ _ _ _ _ _ (
        rw same (
          put_next-WithinLimits sub _ h.requests refl
            (total_room (length h.requests.pending) _ room)
            (sub_room (length h.requests.pending) (length (ids_of sub h.requests.ids_by_sub)) room)
            v))
    where
      total_room :
          (n m : ℕ) → (leb requests_max n || leb requests_per_sub_max m) ≡ false → n < requests_max
      total_room n m e = ground arith

      sub_room :
          (n m : ℕ)
          → (leb requests_max n || leb requests_per_sub_max m) ≡ false
          → m < requests_per_sub_max
      sub_room n m e = ground arith

  admit_request-WithinLimits :
      (up : Bool) (sub : ℕ) (kind : String) (msg : Fields) (h : Hub)
      → WithinLimits h.requests
      → WithinLimits (admit_request up sub kind msg h).requests
  unfolding admit_request offer_correlated
  admit_request-WithinLimits false sub kind msg h v = v
  admit_request-WithinLimits true sub kind msg h v = elim (Bool-cases (request_busy sub h)) [
    | inl busy ↦ rw busy v
    | inr room ↦ rw room (start_request-WithinLimits sub kind msg h v room)
  ]

  -- If at most 64 requests are pending and at most 32 of them belong to any one subscriber, the index
  -- holds for each subscriber exactly the ids of the pending requests that belong to it, in order,
  -- no id is pending twice and none that is still to come is pending, then all of this holds after
  -- any further command of a client, whether it is admitted, refused or ignored.
  pub queue_request-WithinLimits :
      (sub : ℕ) (kind : String) (msg : Fields) (h : Hub)
      → WithinLimits h.requests
      → WithinLimits (queue_request sub kind msg h).1.requests
  unfolding queue_request
  queue_request-WithinLimits sub kind msg h v =
      elim (Bool-cases (not (has_field "id" msg) && not (contains kind tracked_reads))) [
        | inl ignored ↦ rw ignored v
        | inr mine ↦ elim (Bool-cases (contains sub h.subs)) [
          | inl live ↦
              rw (mine, live)
                (admit_request-WithinLimits (read_connected h).0 sub kind msg (read_connected h).1
                  (rw (read_connected-Quiet h).requests v))
          | inr gone ↦ rw (mine, gone) v
        ]
      ]
