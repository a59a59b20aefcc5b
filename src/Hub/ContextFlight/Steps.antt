-- ===== src/Hub/ContextFlight/Steps.antt =====
-- What each step of a context flight does to the context record.
use bosun_midi_captain.Base.{
  ℕ, ◌+◌, ◌≡◌, refl, ap, ◌∙◌, Bool, true, false, Option, none, some, [], arith, if◌then◌else◌,
}
use bosun_midi_captain.Json.{Json, Fields}
use bosun_midi_captain.Hub.State.{
  Hub, Context, private_id, send_line, track_read, cancel, call_later, offer_waiters,
}
use bosun_midi_captain.Hub.State.Frame.{read_done-Quiet, cancel-Quiet, offer_waiters-SameTables}
use bosun_midi_captain.Hub.ContextFlight.{
  take_context_flight, launch_context, is_empty, promote_context, finish_context_with,
}

-- The context after its flight has been taken down.
abbrev pub landed : Context → Context
landed c = record c { timeout_handle = none; waiters = []; flight_id = none; sealed = false }

-- The context with its next flight in the air.
abbrev pub launched_context : Context → Option ℕ → Context
launched_context c handle = record c {
  seq = c.seq + 1;
  flight_id = some (private_id c.id_prefix (c.seq + 1));
  sealed = false;
  timeout_handle = handle;
}

pub take-waiters : (stop : Bool) (h : Hub) → (take_context_flight stop h).0 ≡ h.context.waiters
unfolding take_context_flight
take-waiters stop h = refl

pub take-context :
    (stop : Bool) (h : Hub) → (take_context_flight stop h).1.context ≡ landed h.context
unfolding take_context_flight
take-context true h = ground (
  arith,
  cancel-Quiet h.context.timeout_handle h,
  read_done-Quiet h.context.flight_id (cancel h.context.timeout_handle h),
)
take-context false h = ground (arith, cancel-Quiet h.context.timeout_handle h)

pub take-subs : (stop : Bool) (h : Hub) → (take_context_flight stop h).1.subs ≡ h.subs
unfolding take_context_flight
take-subs true h = ground (
  arith,
  cancel-Quiet h.context.timeout_handle h,
  read_done-Quiet h.context.flight_id (cancel h.context.timeout_handle h),
)
take-subs false h = ground (arith, cancel-Quiet h.context.timeout_handle h)

module _ ⦃json : Json⦄ where
  -- The state in which a flight's waiters have been answered.
  abbrev pub answered : Fields → Bool → Hub → Hub
  answered response stop h = offer_waiters h.context.waiters response (take_context_flight stop h).1

  pub answered-context :
      (response : Fields) (stop : Bool) (h : Hub)
      → (answered response stop h).context ≡ landed h.context
  answered-context response stop h =
      (offer_waiters-SameTables h.context.waiters response (take_context_flight stop h).1).context
      ∙ take-context stop h

  pub promote-none :
      (start : Hub → Hub) (h : Hub) → h.context.next_waiters ≡ [] → promote_context start h ≡ h
  unfolding promote_context
  promote-none start h e = rw e

  -- With nobody behind the flight, ending it starts nothing.
  pub finish-none :
      (start : Hub → Hub) (response : Fields) (stop : Bool) (h : Hub)
      → h.context.next_waiters ≡ []
      → finish_context_with start response stop h ≡ answered response stop h
  unfolding finish_context_with take_context_flight
  finish-none start response stop h e =
      promote-none start (answered response stop h)
        (ap (λ c. c.next_waiters) (answered-context response stop h) ∙ e)

  -- The state in which the next batch has moved up.
  abbrev pub promoted : Fields → Bool → Hub → Hub
  promoted response stop h = record (answered response stop h) {
    context = record (landed h.context) { waiters = h.context.next_waiters; next_waiters = [] };
  }

  -- Somebody waits behind the flight: the batch moves up and starts.
  pub finish-some :
      (start : Hub → Hub) (response : Fields) (stop : Bool) (h : Hub)
      → is_empty h.context.next_waiters ≡ false
      → finish_context_with start response stop h ≡ start (promoted response stop h)
  unfolding finish_context_with promote_context offer_waiters take_context_flight
  finish-some start response stop h e = rw (answered-context response stop h, e)

  pub launch-context :
      (h : Hub)
      → (handle : Option ℕ) × ((launch_context h).1.context ≡ launched_context h.context handle)
  unfolding launch_context send_line track_read call_later
  launch-context h =
      (if h.has_loop then some h.next_handle else h.context.timeout_handle, ground arith)
