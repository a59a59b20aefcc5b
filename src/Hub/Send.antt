-- ===== src/Hub/Send.antt =====
-- tools/rpi-hub/bosun_hub/hub.py: what the hub does with a line from a subscriber (_send), and how
-- a subscriber leaves (_remove). The update service (update_service.py) is an interface here: it
-- takes a message or leaves it, answers the sender, and says whether it holds the link.
pub mod Barrier
pub mod Ordering
pub mod Maintenance
use bosun_midi_captain.Base.{
  ℕ, String, Bool, true, false, Option, some, List, [], ◌∷◌, ◌||◌, same_text, same_nat, ◌==◌,
  contains, discard, keep, not, if◌then◌else◌,
}
use bosun_midi_captain.Base.Dict.{Dict}
use bosun_midi_captain.Json.{
  Json, Value, Fields, str, obj, no_entries, entry, get_or_null, has_field, is_text,
}
use bosun_midi_captain.Hub.State.{
  Hub, Key, Flight, Waiter, send_line, refusal, error_fields, offer_correlated,
}
use bosun_midi_captain.Hub.Request.{queue_request, clear_subscriber_requests}
use bosun_midi_captain.Hub.ContextFlight.{seal_context_flight, queue_context_request}
use bosun_midi_captain.Hub.PatchKey.{
  prepare_patch_mutation, patch_location_mutations, patch_reset_mutations, update,
}
use bosun_midi_captain.Hub.PatchFlight.{queue_patch_request}

-- What the hub asks of UpdateService: whether it takes a message, with the bodies of its answers
-- to the sender; its `maintenance` flag; and allows_local_ping().
pub record Updates (U : Type 0) : Type 0 where
  pub handle : Fields → Hub → U → Bool × List Fields × U
  pub maintenance : U → Bool
  pub allows_local_ping : U → Bool × U

-- _CONTEXT_BARRIER_TYPES
abbrev pub context_barrier_types : List String
context_barrier_types =
    "PUT_GLOBAL" ∷ "PUT_PATCH" ∷ "PUT_BINDING" ∷ "DELETE_PATCH" ∷ "DISCARD" ∷ "SWITCH_PATCH"
    ∷ "ACTIVATE_SWITCH" ∷ "MORPH_CONTROL" ∷ "CREATE_PROFILE" ∷ "SWITCH_PROFILE" ∷ "DELETE_PROFILE"
    ∷ "RENAME_PROFILE" ∷ "REBOOT" ∷ "SET_HARDWARE" ∷ []

-- kind in _PATCH_ORDERED_MUTATIONS
unfoldable pub is_ordered_mutation : String → Bool
is_ordered_mutation kind =
    contains kind patch_location_mutations
    || contains kind patch_reset_mutations
    || (kind == "SWITCH_PATCH")

module _ ⦃json : Json⦄ where
  -- {"type": "ERROR", "error": "maintenance_busy", "of": kind}; `kind` is any value here.
  unfoldable pub maintenance_fields : Value → Fields
  maintenance_fields kind =
      entry "type" (str "ERROR")
        (entry "error" (str "maintenance_busy") (entry "of" kind no_entries))

  -- The sender gets a body under its own id.
  unfoldable pub reply_to : ℕ → Fields → Fields → Hub → Hub
  reply_to sub msg body h = offer_correlated sub (has_field "id" msg) (get_or_null "id" msg) body h

  unfoldable pub reply_all : ℕ → Fields → List Fields → Hub → Hub
  reply_all sub msg [] h = h
  reply_all sub msg (body ∷ bodies) h = reply_all sub msg bodies (reply_to sub msg body h)

  unfoldable pub settle_forward : Bool → ℕ → String → Fields → Hub → Hub
  settle_forward true sub kind msg h = h
  settle_forward false sub kind msg h =
      if is_ordered_mutation kind
      then (let (error, h') = refusal h in reply_to sub msg (error_fields error kind) h')
      else h

  -- The line goes up as it stands; a refused mutation is answered.
  unfoldable pub forward : ℕ → String → String → Fields → Hub → Hub
  forward sub line kind msg h =
      let (accepted, h') = send_line line h in settle_forward accepted sub kind msg h'

  unfoldable pub try_request : ℕ → String → String → Fields → Bool × Hub → Hub
  try_request sub line kind msg (true, h) = h
  try_request sub line kind msg (false, h) = forward sub line kind msg h

  unfoldable pub try_patch : ℕ → String → String → Fields → Bool × Hub → Hub
  try_patch sub line kind msg (true, h) = h
  try_patch sub line kind msg (false, h) =
      try_request sub line kind msg (queue_request sub kind msg (prepare_patch_mutation kind msg h))

  unfoldable pub seal_for : String → Hub → Hub
  seal_for kind h = if contains kind context_barrier_types then seal_context_flight h else h

  unfoldable pub try_context : ℕ → String → String → Fields → Bool × Hub → Hub
  try_context sub line kind msg (true, h) = h
  try_context sub line kind msg (false, h) =
      let h' = seal_for kind h in
      try_patch sub line kind msg
        (if kind == "GET_PATCH" then queue_patch_request sub msg h' else (false, h'))

  -- _send for a message whose type is a string, outside maintenance.
  unfoldable pub route : ℕ → String → String → Fields → Hub → Hub
  route sub line kind msg h =
      try_context sub line kind msg
        (if kind == "GET_CONTEXT" then queue_context_request sub msg h else (false, h))

  unfoldable pub route_kind : Value → ℕ → String → Fields → Hub → Hub
  route_kind (str kind) sub line msg h = route sub line kind msg h
  route_kind _ sub line msg h = (send_line line h).1

  module _ {U : Type 0} (api : Updates U) where
    -- self.link.send(line), which maintenance drops.
    unfoldable pub send_raw : String → Hub → U → Hub × U
    send_raw line h u = (if api.maintenance u then h else (send_line line h).1, u)

    unfoldable pub send_open : ℕ → String → Fields → Hub → U → Hub × U
    send_open sub line msg h u =
        if api.maintenance u
        then (reply_to sub msg (maintenance_fields (get_or_null "type" msg)) h, u)
        else (route_kind (get_or_null "type" msg) sub line msg h, u)

    -- A PING is answered here while the update service wants it.
    unfoldable pub send_ping : Bool × U → ℕ → String → Fields → Hub → Hub × U
    send_ping (true, u) sub line msg h =
        (reply_to sub msg (entry "type" (str "ACK") no_entries) h, u)
    send_ping (false, u) sub line msg h = send_open sub line msg h u

    unfoldable pub send_rest : Bool × List Fields × U → ℕ → String → Fields → Hub → Hub × U
    send_rest (true, bodies, u) sub line msg h = (reply_all sub msg bodies h, u)
    send_rest (false, bodies, u) sub line msg h =
        if is_text "PING" (get_or_null "type" msg)
        then send_ping (api.allows_local_ping u) sub line msg h
        else send_open sub line msg h u

    unfoldable pub send_parsed : Option Value → ℕ → String → Hub → U → Hub × U
    send_parsed (some (obj msg)) sub line h u = send_rest (api.handle msg h u) sub line msg h
    send_parsed _ sub line h u = send_raw line h u

    -- Hub._send
    unfoldable pub send_from : ℕ → String → Hub → U → Hub × U
    send_from sub line h u = send_parsed (json.loads line) sub line h u

-- [waiter for waiter in waiters if waiter[0] is not sub]
abbrev pub others : ℕ → List Waiter → List Waiter
others sub = keep (λ w. not (w.sub == sub))

unfoldable pub forget_waiters : ℕ → Dict Key ℕ → (ℕ → Flight) → ℕ → Flight
forget_waiters sub [] flights = flights
forget_waiters sub ((k, r) ∷ d) flights = forget_waiters sub d (
    update flights r (record (flights r) {
      waiters = others sub (flights r).waiters;
      next_waiters = others sub (flights r).next_waiters;
    }))

-- Hub._remove
unfoldable pub remove : ℕ → Hub → Hub
remove sub h = clear_subscriber_requests sub (record h {
  subs = discard sub h.subs;
  context = record h.context {
    waiters = others sub h.context.waiters;
    next_waiters = others sub h.context.next_waiters;
  };
  patch = record h.patch { flights = forget_waiters sub h.patch.by_key h.patch.flights };
})
