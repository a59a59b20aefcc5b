-- ===== src/Tests/RequestTests.antt =====
-- Ordinary requests at concrete inputs.
use bosun_midi_captain.Base.{
  String, ◌≡◌, refl, true, false, some, none, [], ◌∷◌, ◌++◌, arith, contains, same_text,
}
use bosun_midi_captain.Base.Dict.{get}
use bosun_midi_captain.Base.Decimal.{decimal}
use bosun_midi_captain.Base.Int.{pos}
use bosun_midi_captain.Json.{Fields, str, int, no_entries, entry, get_or_null}
use bosun_midi_captain.Hub.State.{Hub, Pending, private_id, error_fields}
use bosun_midi_captain.Hub.Request.{queue_request, consume_request_reply, request_timed_out, ids_of}
use bosun_midi_captain.Hub.Request.OwnIds.{own_id-private_id, private_id-injective}
use bosun_midi_captain.Hub.Request.Owned.{owned, Unique}
use bosun_midi_captain.Hub.Request.Routing.{deliveries}
use bosun_midi_captain.Hub.Request.Delivery.{
  IsOver, consume_request_reply_once, request_timed_out_late,
}
use bosun_midi_captain.Hub.Request.Limits.{WithinLimits, queue_request-WithinLimits}
use bosun_midi_captain.Tests.Demo.{demo_json, flying_hub, request}

abbrev demo_id : String
demo_id = private_id "__bosun_req_" 1

abbrev demo_pending : Pending
demo_pending = record {
  sub = some 2;
  has_id = true;
  request_id = int (pos 3);
  kind = "LIST_PROFILES";
  broadcast = false;
  timeout_handle = none;
}

-- One request of subscriber 2 waits for its reply.
abbrev busy_hub : Hub
busy_hub = record flying_hub {
  requests = record {
    pending = (demo_id, demo_pending) ∷ [];
    ids_by_sub = (2, demo_id ∷ []) ∷ [];
    seq = 1;
    id_prefix = "__bosun_req_";
  };
  upstream_reads = demo_id ∷ [];
}

abbrev reply : Fields
reply = entry "type" (str "PROFILES") (entry "id" (str demo_id) no_entries)

busy-WithinLimits : WithinLimits busy_hub.requests
unfolding ids_of get owned Unique
busy-WithinLimits = record {
  total = omega arith;
  per_sub = λ sub. ground arith;
  indexed = λ sub. ground arith;
  unique = (refl, tt);
  fresh = λ n later. ground (
    arith,
    same_text.same_iff demo_id (private_id "__bosun_req_" n),
    private_id-injective "__bosun_req_" 1 n,
  );
}

consume_request_reply_once_example :
    let (taken, g) = consume_request_reply reply busy_hub in
    let (again, k) = consume_request_reply reply g in
    (taken ≡ true)
    × (g.offers ≡ busy_hub.offers ++ deliveries demo_pending busy_hub.subs reply)
    × IsOver demo_id g
    × (again ≡ true)
    × (k.offers ≡ g.offers)
unfolding get_or_null get private_id decimal
consume_request_reply_once_example =
    consume_request_reply_once demo_id demo_pending reply reply busy_hub (own_id-private_id _ 1)
      (own_id-private_id _ 1) refl

request_timed_out_late_example :
    let g = request_timed_out demo_id busy_hub in
    let (taken, k) = consume_request_reply reply g in
    (g.offers
      ≡ busy_hub.offers
        ++ deliveries demo_pending busy_hub.subs (error_fields "request_timeout" "LIST_PROFILES"))
    × (get demo_id g.requests.pending ≡ none)
    × (g.upstream_reads ≡ busy_hub.upstream_reads)
    × (taken ≡ true)
    × (k.offers ≡ g.offers)
    × (contains demo_id k.upstream_reads ≡ false)
unfolding get_or_null get private_id decimal
request_timed_out_late_example =
    request_timed_out_late demo_id demo_pending reply busy_hub (own_id-private_id _ 1) refl

queue_request-WithinLimits_example :
    WithinLimits (queue_request 1 "PING" (request "PING") busy_hub).1.requests
queue_request-WithinLimits_example =
    queue_request-WithinLimits 1 "PING" (request "PING") busy_hub busy-WithinLimits
