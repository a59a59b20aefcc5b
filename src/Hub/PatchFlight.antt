-- ===== src/Hub/PatchFlight.antt =====
-- tools/rpi-hub/bosun_hub/hub.py: GET_PATCH keyed single flight and cache (_patch_waiter_counts to
-- _consume_patch_reply).
use bosun_midi_captain.Base.{
  ℕ, zero, suc, ◌+◌, String, Bool, true, false, Option, none, some, List, [], ◌∷◌, ◌++◌, leb,
  length, ◌||◌, same_text, same_nat, ◌==◌, contains, not, if◌then◌else◌,
}
use bosun_midi_captain.Base.Dict.{Dict, get, put, pop}
use bosun_midi_captain.Json.{Json, Fields, str, int, obj, no_entries, entry, get_or_null, has_field}
use bosun_midi_captain.Hub.State.{
  Hub, Key, same_key, Flight, Waiter, patch_timeout, private_id, read_connected, send_line, refusal,
  error_fields, offer_correlated, offer_waiters, track_read, read_done, call_later, cancel,
}
use bosun_midi_captain.Hub.ContextFlight.{is_none, is_empty, is_flight, count_of}
use bosun_midi_captain.Hub.PatchKey.{canonical_patch_key, set_flight}

-- PATCH_WAITERS_MAX
abbrev pub patch_waiters_max : ℕ
patch_waiters_max = 512

-- PATCH_WAITERS_PER_SUB_MAX
abbrev pub patch_waiters_per_sub_max : ℕ
patch_waiters_per_sub_max = 64

unfoldable pub waiters_total : Dict Key ℕ → (ℕ → Flight) → ℕ
waiters_total [] flights = 0
waiters_total ((k, r) ∷ d) flights =
    length (flights r).waiters + length (flights r).next_waiters + waiters_total d flights

unfoldable pub waiters_of : ℕ → Dict Key ℕ → (ℕ → Flight) → ℕ
waiters_of sub [] flights = 0
waiters_of sub ((k, r) ∷ d) flights =
    count_of sub (flights r).waiters
    + count_of sub (flights r).next_waiters
    + waiters_of sub d flights

-- Hub._patch_waiter_counts
unfoldable pub patch_waiter_counts : ℕ → Hub → ℕ × ℕ
patch_waiter_counts sub h =
    (waiters_total h.patch.by_key h.patch.flights, waiters_of sub h.patch.by_key h.patch.flights)

unfoldable pub drop_id : Option String → Dict String ℕ → Dict String ℕ
drop_id none d = d
drop_id (some id) d = pop id d

-- Hub._take_patch_generation
unfoldable pub take_patch_generation : ℕ → Bool → Hub → List Waiter × Hub
take_patch_generation r stop_tracking h =
    let f = h.patch.flights r in
    let h₁ = cancel f.timeout_handle h in
    let h₂ : Hub = record h₁ {
      patch = record h₁.patch { by_id = drop_id f.flight_id h₁.patch.by_id };
    } in
    let h₃ = if stop_tracking then read_done f.flight_id h₂ else h₂ in
    (
      f.waiters,
      set_flight r
          (record f { timeout_handle = none; waiters = []; flight_id = none; sealed = false }) h₃,
    )

-- self._patch_flights.get(flight.key) is flight
unfoldable pub is_same : ℕ → Option ℕ → Bool
is_same r none = false
is_same r (some i) = i == r

unfoldable pub drop_flight : ℕ → Hub → Hub
drop_flight r h =
    let key = (h.patch.flights r).key in
    if is_same r (get key h.patch.by_key)
    then record h { patch = record h.patch { by_key = pop key h.patch.by_key } }
    else h

module _ ⦃json : Json⦄ where
  -- The next batch moves up and starts, or the flight's entry goes.
  unfoldable pub promote_patch : (ℕ → Hub → Hub) → ℕ → Hub → Hub
  promote_patch start r h =
      let f = h.patch.flights r in
      if is_empty f.next_waiters
      then drop_flight r h
      else start r (set_flight r (record f { waiters = f.next_waiters; next_waiters = [] }) h)

  -- Hub._finish_patch_flight, with _start_patch_flight as `start`.
  unfoldable pub finish_patch_with : (ℕ → Hub → Hub) → ℕ → Fields → Bool → Hub → Hub
  finish_patch_with start r response stop_tracking h =
      let (ws, h') = take_patch_generation r stop_tracking h in
      promote_patch start r (offer_waiters ws response h')

  -- Hub._fail_patch_flight
  unfoldable pub fail_patch_with : (ℕ → Hub → Hub) → ℕ → String → Bool → Hub → Hub
  fail_patch_with start r error stop_tracking h =
      finish_patch_with start r (error_fields error "GET_PATCH") stop_tracking h

  -- if profile: request["profile"] = profile
  unfoldable pub profile_field : String → Fields
  profile_field profile =
      if profile == "" then no_entries else entry "profile" (str profile) no_entries

  unfoldable pub patch_request : Key → String → String
  patch_request key id = json.compact (
      obj (
        entry "type" (str "GET_PATCH") (
          entry "id" (str id) (
            entry "bank" (int key.bank)
              (entry "slot" (int key.slot) (profile_field key.profile))))))

  unfoldable pub settle_patch : (ℕ → Hub → Hub) → ℕ → Bool → Hub → Hub
  settle_patch start r true h = h
  settle_patch start r false h =
      let (error, h') = refusal h in fail_patch_with start r error true h'

  unfoldable pub arm_patch : ℕ → Option ℕ → Hub → Hub
  arm_patch r handle h =
      if h.has_loop
      then set_flight r (record (h.patch.flights r) { timeout_handle = handle }) h
      else h

  unfoldable pub launch_patch : ℕ → Hub → Bool × Hub
  launch_patch r h =
      let f = h.patch.flights r in
      let seq = h.patch.seq + 1 in
      let id = private_id h.patch.id_prefix seq in
      let h₁ =
        set_flight r (record f { flight_id = some id; sealed = false })
          (record h { patch = record h.patch { seq = seq } }) in
      let h₂ = track_read id "GET_PATCH" h₁ in
      let h₃ : Hub = record h₂ { patch = record h₂.patch { by_id = put id r h₂.patch.by_id } } in
      let (handle, h₄) = call_later (patch_timeout f.key id) h₃ in
      send_line (patch_request f.key id) (arm_patch r handle h₄)

  unfoldable pub start_patch_with : (ℕ → Hub → Hub) → ℕ → Hub → Hub
  start_patch_with start r h =
      if not (is_none (h.patch.flights r).flight_id) || is_empty (h.patch.flights r).waiters
      then h
      else let (accepted, h') = launch_patch r h in settle_patch start r accepted h'

  -- Hub._start_patch_flight, with the nesting of failures bounded by `depth`.
  unfoldable pub start_patch_flight : ℕ → ℕ → Hub → Hub
  start_patch_flight zero r h = h
  start_patch_flight (suc depth) r h = start_patch_with (start_patch_flight depth) r h

  unfoldable pub start_patch : ℕ → Hub → Hub
  start_patch = start_patch_flight 2

  unfoldable pub finish_patch_flight : ℕ → Fields → Bool → Hub → Hub
  finish_patch_flight = finish_patch_with start_patch

  unfoldable pub fail_patch_flight : ℕ → String → Bool → Hub → Hub
  fail_patch_flight = fail_patch_with start_patch

  unfoldable pub time_out_ref : Option ℕ → String → Hub → Hub
  time_out_ref none id h = h
  time_out_ref (some r) id h =
      if is_flight id (h.patch.flights r).flight_id
      then fail_patch_flight r "patch_timeout" false h
      else h

  -- Hub._patch_timed_out
  unfoldable pub patch_timed_out : Key → String → Hub → Hub
  patch_timed_out key id h = time_out_ref (get key h.patch.by_key) id h

  -- A new flight object under its key, with its first waiter.
  unfoldable pub open_flight : Key → Waiter → Hub → Hub
  open_flight key w h =
      let r = h.patch.next_ref in
      let f : Flight = record {
        key = key;
        waiters = w ∷ [];
        next_waiters = [];
        flight_id = none;
        sealed = false;
        timeout_handle = none;
      } in
      let h₁ = set_flight r f h in
      start_patch r (record h₁ {
        patch = record h₁.patch { next_ref = r + 1; by_key = put key r h₁.patch.by_key };
      })

  -- Join the key's flight, queue behind it when it is sealed, or open one.
  unfoldable pub join_patch : Key → Option ℕ → Waiter → Hub → Hub
  join_patch key none w h = open_flight key w h
  join_patch key (some r) w h =
      let f = h.patch.flights r in
      if f.sealed
      then set_flight r (record f { next_waiters = f.next_waiters ++ w ∷ [] }) h
      else set_flight r (record f { waiters = f.waiters ++ w ∷ [] }) h

  unfoldable pub patch_busy : ℕ → Hub → Bool
  patch_busy sub h =
      leb patch_waiters_max (patch_waiter_counts sub h).0
      || leb patch_waiters_per_sub_max (patch_waiter_counts sub h).1

  -- Serve the cached reply, refuse for want of room, or wait for a flight.
  unfoldable pub serve_patch : Option Fields → Key → Waiter → Hub → Hub
  serve_patch (some cached) key w h = offer_correlated w.sub w.has_id w.request_id cached h
  serve_patch none key w h =
      if patch_busy w.sub h
      then offer_correlated w.sub w.has_id w.request_id (error_fields "patch_busy" "GET_PATCH") h
      else join_patch key (get key h.patch.by_key) w h

  unfoldable pub admit_patch : Bool → Key → Waiter → Hub → Hub
  admit_patch false key w h =
      offer_correlated w.sub w.has_id w.request_id (error_fields "link_down" "GET_PATCH") h
  admit_patch true key w h = serve_patch (get key h.patch.cache) key w h

  unfoldable pub queue_key : Option Key → ℕ → Fields → Hub → Bool × Hub
  queue_key none sub msg h = (false, h)
  queue_key (some key) sub msg h =
      if not (contains sub h.subs)
      then (true, h)
      else let (up, h') = read_connected h in
        (
          true,
          admit_patch up key
              (record { sub = sub; has_id = has_field "id" msg; request_id = get_or_null "id" msg })
              h',
        )

  -- Hub._queue_patch_request
  unfoldable pub queue_patch_request : ℕ → Fields → Hub → Bool × Hub
  queue_patch_request sub msg h = queue_key (canonical_patch_key msg) sub msg h
