-- ===== src/Hub/PatchReply.antt =====
-- tools/rpi-hub/bosun_hub/hub.py: how patch flights end all at once (_clear_all_patch_waiters,
-- _fail_all_patch_waiters) and one by one (_consume_patch_reply).
pub mod Cache
pub mod Stale
use bosun_midi_captain.Base.{
  ℕ, String, Bool, true, false, Option, none, some, List, [], ◌∷◌, ◌++◌, ◌||◌, same_text, ◌==◌, not,
  if◌then◌else◌,
}
use bosun_midi_captain.Base.Dict.{Dict, get, put}
use bosun_midi_captain.Json.{Json, Fields, get_or_null, pop_field, is_dict, is_text, is_true}
use bosun_midi_captain.Hub.State.{
  Hub, Key, same_key, Flight, Waiter, error_fields, offer_waiters, read_done, cancel,
}
use bosun_midi_captain.Hub.Request.{own_id}
use bosun_midi_captain.Hub.ContextFlight.{is_empty}
use bosun_midi_captain.Hub.PatchKey.{patch_key}
use bosun_midi_captain.Hub.PatchFlight.{finish_patch_flight, fail_patch_flight}

unfoldable pub collect_waiters : Dict Key ℕ → Hub → List Waiter × Hub
collect_waiters [] h = ([], h)
collect_waiters ((k, r) ∷ d) h =
    let f = h.patch.flights r in
    let (ws, h') = collect_waiters d (cancel f.timeout_handle h) in
    (f.waiters ++ (f.next_waiters ++ ws), h')

-- Hub._clear_all_patch_waiters
unfoldable pub clear_all_patch_waiters : Hub → List Waiter × Hub
clear_all_patch_waiters h =
    let (ws, h') = collect_waiters h.patch.by_key h in
    (ws, record h' { patch = record h'.patch { by_key = []; by_id = [] } })

module _ ⦃json : Json⦄ where
  -- Hub._fail_all_patch_waiters
  unfoldable pub fail_all_patch_waiters : String → Hub → Hub
  fail_all_patch_waiters error h =
      if is_empty h.patch.by_key
      then h
      else let (ws, h') = clear_all_patch_waiters h in
        offer_waiters ws (error_fields error "GET_PATCH") h'

  unfoldable pub is_key : Key → Option Key → Bool
  is_key k none = false
  is_key k (some j) = j == k

  -- A PATCH that is partial, holds no patch, or answers for another key than the flight's.
  unfoldable pub malformed_patch : Key → Fields → Bool
  malformed_patch key msg =
      not (is_dict (get_or_null "patch" msg))
      || is_true (get_or_null "partial" msg)
      || not (is_key key (patch_key msg))

  -- The reply goes into the cache without its id, unless a mutation has sealed the flight.
  unfoldable pub store_patch : Flight → Fields → Hub → Hub
  store_patch f msg h = if f.sealed then h else record h {
    patch = record h.patch { cache = put f.key (pop_field "id" msg) h.patch.cache };
  }

  -- The active generation's reply, by its type.
  unfoldable pub settle_patch_reply : ℕ → Fields → Hub → Hub
  settle_patch_reply r msg h =
      let f = h.patch.flights r in
      if is_text "PATCH" (get_or_null "type" msg)
      then if malformed_patch f.key msg
        then fail_patch_flight r "patch_protocol" true h
        else finish_patch_flight r msg true (store_patch f msg h)
      else if is_text "ERROR" (get_or_null "type" msg)
      then finish_patch_flight r msg true h
      else fail_patch_flight r "patch_protocol" true h

  unfoldable pub settle_ref : Option ℕ → Fields → Hub → Hub
  settle_ref none msg h = h
  settle_ref (some r) msg h = settle_patch_reply r msg h

  -- _consume_patch_reply for an id in the hub's namespace.
  unfoldable pub take_patch_reply : String → Fields → Hub → Hub
  take_patch_reply id msg h =
      let h' = read_done (some id) h in settle_ref (get id h'.patch.by_id) msg h'

  unfoldable pub consume_patch_id : Option String → Fields → Hub → Bool × Hub
  consume_patch_id none msg h = (false, h)
  consume_patch_id (some id) msg h = (true, take_patch_reply id msg h)

  -- Hub._consume_patch_reply
  unfoldable pub consume_patch_reply : Fields → Hub → Bool × Hub
  consume_patch_reply msg h =
      consume_patch_id (own_id h.patch.id_prefix (get_or_null "id" msg)) msg h
