-- ===== src/Tests/ContextTests.antt =====
-- The context single flight at concrete inputs.
use bosun_midi_captain.Base.{◌≡◌, refl, true, [], ◌∷◌, arith}
use bosun_midi_captain.Json.{Fields, str, obj, no_entries, entry, get_or_null, has_other_key}
use bosun_midi_captain.Hub.State.{private_id}
use bosun_midi_captain.Hub.ContextFlight.{
  consumed, start_context_flight, start_context, consume_context_reply, queue_context_request,
}
use bosun_midi_captain.Hub.ContextFlight.Depth.{start_context-depth}
use bosun_midi_captain.Hub.ContextFlight.Invariant.{ContextInv}
use bosun_midi_captain.Hub.ContextFlight.Answers.{Finished}
use bosun_midi_captain.Hub.ContextFlight.Delivery.{context_answer, consume_context_reply-Finished}
use bosun_midi_captain.Hub.ContextFlight.Queueing.{Queued, waiter_of, queue_context_request-Queued}
use bosun_midi_captain.Hub.Send.{route}
use bosun_midi_captain.Hub.Send.Ordering.{read_after_barrier}
use bosun_midi_captain.Tests.Demo.{demo_json, flying_hub, flying_context, reader_waiter, request}

flying-ContextInv : ContextInv flying_context
flying-ContextInv = record {
  idle = λ p. cc;
  named = λ id p. cc;
  unsealed = λ _. refl;
  fits = record { total = omega arith; per_sub = λ sub. ground arith };
}

start_context-depth_example : start_context_flight 5 flying_hub ≡ start_context flying_hub
start_context-depth_example = start_context-depth 3 flying_hub

-- The snapshot that answers the flight.
abbrev snapshot : Fields
snapshot =
    entry "type" (str "CONTEXT")
      (entry "id" (str (private_id "__bosun_ctx_" 1)) (entry "context" (obj no_entries) no_entries))

consume_context_reply-Finished_example :
    ((consume_context_reply snapshot flying_hub).0 ≡ consumed)
    × Finished (context_answer snapshot) flying_hub (consume_context_reply snapshot flying_hub).1
unfolding get_or_null
consume_context_reply-Finished_example =
    consume_context_reply-Finished snapshot flying_hub (private_id "__bosun_ctx_" 1)
      flying-ContextInv refl refl refl

queue_context_request-Queued_example :
    ((queue_context_request 2 (request "GET_CONTEXT") flying_hub).0 ≡ true)
    × Queued
        (waiter_of 2 (request "GET_CONTEXT"))
        flying_hub
        (queue_context_request 2 (request "GET_CONTEXT") flying_hub).1
unfolding has_other_key
queue_context_request-Queued_example =
    queue_context_request-Queued 2 (request "GET_CONTEXT") flying_hub flying-ContextInv refl refl

read_after_barrier_example :
    (queue_context_request 2
      (request "GET_CONTEXT")
      (route 1 "line" "PUT_PATCH" (request "PUT_PATCH") flying_hub)).1.context.waiters
    ≡ reader_waiter ∷ []
unfolding has_other_key
read_after_barrier_example =
    (read_after_barrier 1 2 "line" "PUT_PATCH" (request "PUT_PATCH") (request "GET_CONTEXT")
      flying_hub refl refl flying-ContextInv refl refl).0
