-- ===== src/Hub/Dispatch.antt =====
-- tools/rpi-hub/bosun_hub/hub.py: what the hub does with a line from the Captain (_dispatch) and
-- with a change of the link (_dispatch_status).
use bosun_midi_captain.Base.{
  ℕ, String, Bool, true, false, Option, none, some, List, [], ◌∷◌, ◌++◌, ◌&&◌, ◌||◌, same_text, not,
  if◌then◌else◌,
}
use bosun_midi_captain.Json.{
  Json, Value, Fields, obj, get_or_null, is_text, is_text_in, is_hashable,
}
use bosun_midi_captain.Hub.State.{Hub}
use bosun_midi_captain.Hub.Request.{consume_request_reply, fail_all_requests}
use bosun_midi_captain.Hub.ContextFlight.{
  Outcome, passed, consumed, raised, seal_context_flight, consume_context_reply,
  fail_all_context_waiters,
}
use bosun_midi_captain.Hub.PatchKey.{Location, patch_location, seal_patch_location, clear_cache}
use bosun_midi_captain.Hub.PatchReply.{consume_patch_reply, fail_all_patch_waiters}

-- for sub in self._subs: sub._offer(line)
unfoldable pub broadcast : List ℕ → String → Hub → Hub
broadcast [] line h = h
broadcast (sub ∷ subs) line h =
    broadcast subs line (record h { offers = h.offers ++ record { sub = sub; line = line } ∷ [] })

-- The same for the subscribers that asked for status.
unfoldable pub broadcast_status : List ℕ → String → Hub → Hub
broadcast_status [] line h = h
broadcast_status (sub ∷ subs) line h = broadcast_status subs line (
    if h.want_status sub
    then record h { offers = h.offers ++ record { sub = sub; line = line } ∷ [] }
    else h)

-- dict(msg), where the message is a DEVICE_INFO.
unfoldable pub note_device_info : Fields → Hub → Hub
note_device_info msg h =
    if is_text "DEVICE_INFO" (get_or_null "type" msg)
    then record h { device_info = some msg }
    else h

-- _CONTEXT_BARRIER_EVENTS
abbrev pub context_barrier_events : List String
context_barrier_events = "patch_switched" ∷ "binding_fired" ∷ []

abbrev is_event : Fields → Bool
is_event msg = is_text "EVENT" (get_or_null "type" msg)

-- The barrier test: a list or a dict as the event's name raises TypeError.
unfoldable pub barrier_raises : Fields → Bool
barrier_raises msg = is_event msg && not (is_hashable (get_or_null "event" msg))

unfoldable pub is_barrier : Fields → Bool
is_barrier msg =
    is_text "CONTEXT" (get_or_null "type" msg)
    || (is_event msg && is_text_in context_barrier_events (get_or_null "event" msg))

unfoldable pub seal_switched : Option Location → Hub → Hub
seal_switched none h = h
seal_switched (some l) h = seal_patch_location l h

-- The barriers that an unsolicited message raises before it is broadcast.
unfoldable pub raise_barriers : Fields → Hub → Hub
raise_barriers msg h =
    let h' = if is_barrier msg then seal_context_flight h else h in
    if is_event msg && is_text "patch_switched" (get_or_null "event" msg)
    then seal_switched (patch_location msg) h'
    else h'

module _ ⦃json : Json⦄ where
  -- A message that no reply handler took.
  unfoldable pub pass_on : String → Fields → Hub → Outcome × Hub
  pass_on line msg h =
      if barrier_raises msg
      then (raised, h)
      else (passed, broadcast (raise_barriers msg h).subs line (raise_barriers msg h))

  unfoldable pub after_request_reply : String → Fields → Bool × Hub → Outcome × Hub
  after_request_reply line msg (true, h) = (consumed, h)
  after_request_reply line msg (false, h) = pass_on line msg h

  unfoldable pub after_patch_reply : String → Fields → Bool × Hub → Outcome × Hub
  after_patch_reply line msg (true, h) = (consumed, h)
  after_patch_reply line msg (false, h) = after_request_reply line msg (consume_request_reply msg h)

  unfoldable pub after_context_reply : String → Fields → Outcome × Hub → Outcome × Hub
  after_context_reply line msg (raised, h) = (raised, h)
  after_context_reply line msg (consumed, h) = (consumed, h)
  after_context_reply line msg (passed, h) = after_patch_reply line msg (consume_patch_reply msg h)

  -- _dispatch for a line that holds a JSON object.
  unfoldable pub dispatch_object : String → Fields → Hub → Outcome × Hub
  dispatch_object line msg h =
      after_context_reply line msg (consume_context_reply msg (note_device_info msg h))

  unfoldable pub dispatch_parsed : Option Value → String → Hub → Outcome × Hub
  dispatch_parsed (some (obj msg)) line h = dispatch_object line msg h
  dispatch_parsed _ line h = (passed, broadcast h.subs line h)

  -- Hub._dispatch
  unfoldable pub dispatch : String → Hub → Outcome × Hub
  dispatch line h = dispatch_parsed (json.loads line) line h

  -- What a lost link ends.
  unfoldable pub session_lost : Hub → Hub
  session_lost h =
      let h₁ = clear_cache (record h { device_info = none }) in
      let h₂ = fail_all_context_waiters "link_down" h₁ in
      let h₃ = fail_all_patch_waiters "link_down" h₂ in
      let h₄ = fail_all_requests "link_down" h₃ in record h₄ { upstream_reads = [] }

  -- json.loads(line).get("link") == "down", where what cannot be read so is ignored.
  unfoldable pub says_down : Option Value → Bool
  says_down (some (obj msg)) = is_text "down" (get_or_null "link" msg)
  says_down _ = false

  -- Hub._dispatch_status
  unfoldable pub dispatch_status : String → Hub → Hub
  dispatch_status line h =
      let h' = if says_down (json.loads line) then session_lost h else h in
      broadcast_status h'.subs line h'
