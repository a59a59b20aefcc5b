-- ===== src/Update/Jobs/Work.antt =====
-- tools/rpi-hub/bosun_hub/update_service.py: what the tasks _run and _run_recovery do to the service.
-- A task is cut where it waits: the steps between are events, which the requests of subscribers and
-- a restart of the hub interleave in any order. The save of the package's release in _run, which
-- keeps the phase, and the waits for the hub's requests and for the link are left out.
use bosun_midi_captain.Base.{
  ℕ, String, Bool, true, false, Option, none, some, List, [], ◌∷◌, ◌&&◌, ◌||◌, ◌==◌, same_text,
  if◌then◌else◌,
}
use bosun_midi_captain.Json.{Value, Fields, str, get_or_null}
use bosun_midi_captain.Update.Upload.{
  Phase, validating, verifying, other, failed, rolled_back, recovery_required,
}
use bosun_midi_captain.Install.Action as Action
use bosun_midi_captain.Update.Jobs.{
  JobStatus, Task, flashing, recovering, Jobs, gives, raises, save, remember_recovery,
}
use bosun_midi_captain.Update.Jobs.Requests.{Host}
use bosun_midi_captain.Update.Jobs.Handle.{handle, command_of, is_recover, name_of}

-- installation/journal.json, as the handler of exceptions reads it: its flash_may_be_modified.
pub data Evidence : Type 0 where
  no_journal bad_journal : Evidence
  journal : Bool → Evidence

-- How _run's body ends: with what the installer returned, or with an exception.
pub data RunEnd : Type 0 where
  returned : Action.Status → RunEnd
  raised : Evidence → RunEnd

unfoldable pub end_phase : RunEnd → Phase
end_phase (returned Action.complete) = Phase.done
end_phase (returned Action.failed) = failed
end_phase (returned Action.rolled_back) = rolled_back
end_phase (returned Action.manual_recovery) = recovery_required
end_phase (returned Action.running) = failed
end_phase (raised no_journal) = failed
end_phase (raised bad_journal) = recovery_required
end_phase (raised (journal flagged)) = if flagged then recovery_required else failed

-- self._save(state); where it fails, `state` is kept in memory.
unfoldable pub save_or_keep : JobStatus → JobStatus → Jobs → Jobs
save_or_keep state instead s =
    let (r, s') = save state s in
    elim r [
      | gives u ↦ record s' { volatile = none }
      | raises e ↦ remember_recovery instead (record s' { volatile = some instead })
    ]

-- The last block of both tasks; `instead` is what is kept when the status cannot be saved.
unfoldable pub settle : JobStatus → JobStatus → Jobs → Jobs
settle state instead s =
    let s' = save_or_keep state instead s in
    record s' { maintenance = false; active = none; task = none }

-- The phase that is shown for one of the installer's.
unfoldable pub shown_phase : Action.Phase → Phase
shown_phase Action.preflight = validating
shown_phase Action.reading_configuration = other "backing-up"
shown_phase Action.entering_bootloader = other "backing-up"
shown_phase Action.backing_up_flash = other "backing-up"
shown_phase Action.backup_verified = other "backing-up"
shown_phase Action.flashing_firmware = other "flashing"
shown_phase Action.rebooting = other "rebooting"
shown_phase Action.verifying_configuration = verifying
shown_phase Action.rolling_back = verifying
shown_phase (Action.ended status) = verifying

-- progress: the phase that the installer reports is shown.
unfoldable pub show_progress : Phase → Option Task → Jobs → Jobs
show_progress phase (some (flashing state)) s =
    let (r, s') = save (record state { phase = phase }) s in
    elim r [
      | gives u ↦ record s' { task = some (flashing (record state { phase = phase })) }
      | raises e ↦ record s' {
        task = some (flashing (record state { phase = phase }));
        volatile = some (record state { phase = phase });
      }
    ]
show_progress phase _ s = s

-- The end of _run.
unfoldable pub end_run : RunEnd → Option Task → Jobs → Jobs
end_run e (some (flashing state)) s =
    settle (record state { phase = end_phase e }) (record state { phase = recovery_required }) s
end_run e _ s = s

-- The end of _run_recovery: the check, and the link after it.
unfoldable pub end_recovery : Bool → Bool → Option Task → Jobs → Jobs
end_recovery verified relinked (some (recovering state)) s =
    settle
      (if verified && relinked
        then record state { phase = failed; recovery_verified = true }
        else record state { phase = recovery_required; recovery_verified = false })
      (record state { phase = recovery_required; recovery_verified = false }) s
end_recovery verified relinked _ s = s

-- The hub starts again: the disk is what is left.
unfoldable pub restart : Jobs → Jobs
restart s = record s {
  active = none;
  task = none;
  maintenance = false;
  stopping = false;
  volatile = none;
  recovery_jobs = [];
  scanned = false;
}

-- What happens to the service.
pub data Event : Type 0 where
  request : Host → Fields → Event
  enter_maintenance : Event
  progress : Action.Phase → Event
  run_ends : RunEnd → Event
  recovery_ends : Bool → Bool → Event
  stop : Event
  restarts : Event

-- A request to recover a job.
unfoldable pub asks_recovery : String → Value → Fields → Bool
asks_recovery job (str kind) msg =
    is_recover (command_of kind) && (name_of (get_or_null "job" msg) == job)
asks_recovery job _ msg = false

unfoldable pub is_recovery_of : String → Event → Bool
is_recovery_of job (request host msg) = asks_recovery job (get_or_null "type" msg) msg
is_recovery_of job _ = false

unfoldable pub recovers_in : String → List Event → Bool
recovers_in job [] = false
recovers_in job (e ∷ es) = is_recovery_of job e || recovers_in job es

module _ (b64decode : String → Option (List ℕ)) where
  unfoldable pub event_step : Event → Jobs → Jobs
  event_step (request host msg) s = (handle b64decode host msg s).1
  event_step enter_maintenance s = record s { maintenance = true }
  event_step (progress phase) s = show_progress (shown_phase phase) s.task s
  event_step (run_ends e) s = end_run e s.task s
  event_step (recovery_ends verified relinked) s = end_recovery verified relinked s.task s
  event_step stop s = record s { stopping = true }
  event_step restarts s = restart s

  unfoldable pub events : List Event → Jobs → Jobs
  events [] s = s
  events (e ∷ es) s = events es (event_step e s)
