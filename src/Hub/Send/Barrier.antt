-- ===== src/Hub/Send/Barrier.antt =====
-- A command that can make a snapshot stale seals the flight in the air before it goes out.
use bosun_midi_captain.Base.{
  ℕ, ◌+◌, ◌≡◌, refl, ap, ◌∙◌, String, Bool, true, false, Option, none, some, arith, Bool-cases, inl,
  inr, contains, same_text, same_nat, ◌==◌,
}
use bosun_midi_captain.Json.{Json, Value, Fields}
use bosun_midi_captain.Hub.State.{
  Hub, Pending, private_id, offer_correlated, read_connected, send_line, read_done, track_read,
  call_later, request_timeout,
}
use bosun_midi_captain.Hub.State.Frame.{
  read_connected-Quiet, refusal-Quiet, read_done-Quiet, cancel-Quiet, track_read-Quiet,
  call_later-Quiet,
}
use bosun_midi_captain.Hub.Request.{
  take_request, take_found, drop_pending, settle_send, start_request, admit_request, queue_request,
}
use bosun_midi_captain.Base.Dict.{get}
use bosun_midi_captain.Hub.ContextFlight.{is_none, seal_context_flight}
use bosun_midi_captain.Hub.PatchKey.{
  Location, prepare_patch_mutation, mutate_location, switch_location, clear_cache,
  seal_all_patch_flights, invalidate_patch_location, seal_patch_location, patch_location,
  patch_location_mutations, patch_reset_mutations,
}
use bosun_midi_captain.Hub.Send.{
  route, try_context, try_patch, try_request, forward, settle_forward, reply_to, seal_for,
  context_barrier_types,
}

-- The context flight and the subscribers stay as they are.
pub record Untouched (h g : Hub) : Type 0 where
  pub context : g.context ≡ h.context
  pub subs : g.subs ≡ h.subs

take_found-Untouched :
    (id : String) (p : Option Pending) (h : Hub) → Untouched h (take_found id p h).1
unfolding take_found drop_pending
take_found-Untouched id none h = record { context = refl; subs = refl }
take_found-Untouched id (some p) h = ground (arith, cancel-Quiet p.timeout_handle h)

take_request-Untouched : (id : String) (h : Hub) → Untouched h (take_request id h).1
unfolding take_request
take_request-Untouched id h = take_found-Untouched id (get id h.requests.pending) h

mutate-Untouched : (l : Option Location) (h : Hub) → Untouched h (mutate_location l h)
unfolding mutate_location clear_cache seal_all_patch_flights invalidate_patch_location
    seal_patch_location
mutate-Untouched none h = record { context = refl; subs = refl }
mutate-Untouched (some l) h = record { context = refl; subs = refl }

switch-Untouched : (l : Option Location) (h : Hub) → Untouched h (switch_location l h)
unfolding switch_location seal_all_patch_flights seal_patch_location
switch-Untouched none h = record { context = refl; subs = refl }
switch-Untouched (some l) h = record { context = refl; subs = refl }

prepare-Untouched :
    (kind : String) (msg : Fields) (h : Hub) → Untouched h (prepare_patch_mutation kind msg h)
unfolding prepare_patch_mutation clear_cache seal_all_patch_flights
prepare-Untouched kind msg h = elim (Bool-cases (contains kind patch_location_mutations)) [
  | inl location ↦ rw location (mutate-Untouched (patch_location msg) h)
  | inr not_location ↦ elim (Bool-cases (kind == "SWITCH_PATCH")) [
    | inl switch ↦ rw (not_location, switch) (switch-Untouched (patch_location msg) h)
    | inr not_switch ↦ elim (Bool-cases (contains kind patch_reset_mutations)) [
      | inl reset ↦ rw (not_location, not_switch, reset) (record { context = refl; subs = refl })
      | inr neither ↦
          rw (not_location, not_switch, neither) (record { context = refl; subs = refl })
    ]
  ]
]

module _ ⦃json : Json⦄ where
  settle_send-Untouched :
      (accepted : Bool) (id : String) (sub : ℕ) (has_id : Bool) (request_id : Value) (kind : String)
      (h : Hub)
      → Untouched h (settle_send accepted id sub has_id request_id kind h)
  unfolding settle_send offer_correlated
  settle_send-Untouched true id sub has_id request_id kind h = record {
    context = refl;
    subs = refl;
  }
  settle_send-Untouched false id sub has_id request_id kind h =
      let taken = (take_request id h).1 in
      ground (
        arith,
        refusal-Quiet (read_done (some id) taken),
        read_done-Quiet (some id) taken,
        take_request-Untouched id h,
      )

  start_request-Untouched :
      (sub : ℕ) (kind : String) (msg : Fields) (h : Hub)
      → Untouched h (start_request sub kind msg h)
  unfolding start_request track_read call_later send_line
  start_request-Untouched sub kind msg h =
      let id = private_id h.requests.id_prefix (h.requests.seq + 1) in
      let tracked = track_read-Quiet id kind h in
      let armed = call_later-Quiet (request_timeout id) (track_read id kind h) in
      record {
        context = (settle_send-Untouched _ _ _ _ _ _ _).context ∙ armed.context ∙ tracked.context;
        subs = (settle_send-Untouched _ _ _ _ _ _ _).subs ∙ armed.subs ∙ tracked.subs;
      }

  admit_request-Untouched :
      (up : Bool) (sub : ℕ) (kind : String) (msg : Fields) (h : Hub)
      → Untouched h (admit_request up sub kind msg h)
  unfolding admit_request offer_correlated
  admit_request-Untouched false sub kind msg h = record { context = refl; subs = refl }
  admit_request-Untouched true sub kind msg h =
      ground (arith, start_request-Untouched sub kind msg h)

  queue_request-Untouched :
      (sub : ℕ) (kind : String) (msg : Fields) (h : Hub)
      → Untouched h (queue_request sub kind msg h).1
  unfolding queue_request
  queue_request-Untouched sub kind msg h =
      let (up, h') = read_connected h in
      ground (arith, admit_request-Untouched up sub kind msg h', read_connected-Quiet h)

  forward-Untouched :
      (sub : ℕ) (line kind : String) (msg : Fields) (h : Hub)
      → Untouched h (forward sub line kind msg h)
  unfolding forward send_line
  forward-Untouched sub line kind msg h =
      let settled = settle-Untouched (send_line line h).0 (send_line line h).1 in
      record { context = settled.context; subs = settled.subs }
    where
      settle-Untouched :
          (accepted : Bool) (g : Hub) → Untouched g (settle_forward accepted sub kind msg g)
      settle-Untouched true g = unfold settle_forward in record { context = refl; subs = refl }
      settle-Untouched false g =
          unfold settle_forward reply_to offer_correlated in ground (arith, refusal-Quiet g)

  after_request-Untouched :
      (sub : ℕ) (line kind : String) (msg : Fields) (taken : Bool) (h : Hub)
      → Untouched h (try_request sub line kind msg (taken, h))
  unfolding try_request
  after_request-Untouched sub line kind msg true h = record { context = refl; subs = refl }
  after_request-Untouched sub line kind msg false h = forward-Untouched sub line kind msg h

  -- Past the seal, a command other than the two reads leaves the context flight alone.
  try_patch-Untouched :
      (sub : ℕ) (line kind : String) (msg : Fields) (h : Hub)
      → Untouched h (try_patch sub line kind msg (false, h))
  unfolding try_patch
  try_patch-Untouched sub line kind msg h =
      let h' = prepare_patch_mutation kind msg h in
      let (taken, g) = queue_request sub kind msg h' in
      ground (
        arith,
        after_request-Untouched sub line kind msg taken g,
        queue_request-Untouched sub kind msg h',
        prepare-Untouched kind msg h,
      )

barrier-ne :
    (kind other : String)
    → contains kind context_barrier_types ≡ true
    → contains other context_barrier_types ≡ false
    → (kind == other) ≡ false
barrier-ne kind other is_in is_out = elim (Bool-cases (kind == other)) [
  | inr different ↦ different
  | inl same ↦
      let e : kind ≡ other = (same_text.same_iff kind other).0 same in
      cc (ap (λ k. contains k context_barrier_types) e)
]

pub route-sealed :
    ⦃json : Json⦄ (sub : ℕ) (line kind : String) (msg : Fields) (h : Hub)
    → contains kind context_barrier_types ≡ true
    → is_none h.context.flight_id ≡ false
    → Untouched
        (record h { context = record h.context { sealed = true } })
        (route sub line kind msg h)
unfolding route try_context seal_for seal_context_flight
route-sealed sub line kind msg h barrier flying =
    let no_context = barrier-ne kind "GET_CONTEXT" barrier refl in
    let no_patch = barrier-ne kind "GET_PATCH" barrier refl in
    let sealed : Hub = record h { context = record h.context { sealed = true } } in
    rw (no_context, barrier, flying, no_patch) (try_patch-Untouched sub line kind msg sealed)
