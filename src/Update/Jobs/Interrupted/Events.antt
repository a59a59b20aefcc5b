-- ===== src/Update/Jobs/Interrupted/Events.antt =====
-- A job that was cut off stays so through any events, until somebody asks for its recovery.
use bosun_midi_captain.Base.{
  ◌≡◌, refl, String, Bool, true, false, Option, none, some, List, [], ◌∷◌, ◌&&◌, same_text,
  same_nat, ℕ, if◌then◌else◌, arith,
}
use bosun_midi_captain.Update.Upload.{Phase, recovery_required}
use bosun_midi_captain.Update.Jobs.{
  JobStatus, Task, flashing, recovering, Jobs, Returned, gives, raises, is_hex_text,
  remember_recovery, save, load,
}
use bosun_midi_captain.Update.Jobs.Interrupted.{Flagged, Elsewhere, Interrupted, Post}
use bosun_midi_captain.Update.Jobs.Interrupted.Rules.{save_lem, remember_recovery-Interrupted}
use bosun_midi_captain.Update.Jobs.Interrupted.Loading.{Loaded, load_lem}
use bosun_midi_captain.Update.Jobs.Work.{
  RunEnd, Event, request, enter_maintenance, progress, run_ends, recovery_ends, stop, restarts,
  save_or_keep, settle, show_progress, end_run, end_recovery, restart, is_recovery_of, recovers_in,
  event_step, events, shown_phase,
}
use bosun_midi_captain.Update.Jobs.Interrupted.Handling.{handle_lem}

-- What _load says of a job that was cut off: it raises, or recovery is required.
abbrev pub Unrecovered : Returned JobStatus × Jobs → Type 0
Unrecovered (gives state, s) = state.phase ≡ recovery_required
Unrecovered (raises e, s) = Unit

module _ {j : String} {log : List String} where
  kept_memory :
      (instead : JobStatus) (s : Jobs)
      → Flagged j instead
      → Interrupted j log s
      → Interrupted j log (record s { volatile = some instead })
  kept_memory instead s n i = record {
    on_disk = i.on_disk;
    idle = i.idle;
    in_memory = n;
    elsewhere = i.elsewhere;
    unstarted = i.unstarted;
  }

  save_or_keep_lem :
      (state instead : JobStatus) (s : Jobs)
      → Flagged j state
      → Flagged j instead
      → Interrupted j log s
      → Interrupted j log (save_or_keep state instead s)
  unfolding save_or_keep
  save_or_keep_lem state instead s n m i =
      go (save state s) ((save_lem {P = λ _. Unit} state n).from s i tt)
    where
      go :
          (o : Returned (Unit {0}) × Jobs)
          → Post j log (λ _ _. Unit {0}) o
          → Interrupted j log (elim o.0 [
            | gives u ↦ record o.1 { volatile = none }
            | raises e ↦ remember_recovery instead (record o.1 { volatile = some instead })
          ])
      go (gives u, s') h = record {
        on_disk = h.0.on_disk;
        idle = h.0.idle;
        in_memory = tt;
        elsewhere = h.0.elsewhere;
        unstarted = h.0.unstarted;
      }
      go (raises e, s') h = remember_recovery-Interrupted instead _ (kept_memory instead s' m h)

  settle_lem :
      (state instead : JobStatus) (s : Jobs)
      → Flagged j state
      → Flagged j instead
      → Interrupted j log s
      → Interrupted j log (settle state instead s)
  unfolding settle
  settle_lem state instead s n m i =
      let h = save_or_keep_lem state instead s n m i in
      record {
        on_disk = h.on_disk;
        idle = refl;
        in_memory = h.in_memory;
        elsewhere = tt;
        unstarted = h.unstarted;
      }

  show_progress_lem :
      (phase : Phase) (task : Option Task) (s : Jobs)
      → Elsewhere j task
      → Interrupted j log s
      → Interrupted j log (show_progress phase task s)
  unfolding show_progress
  show_progress_lem phase (some (flashing state)) s n i =
      go (save shown s) ((save_lem {P = λ _. Unit} shown (λ e. absurd (n e))).from s i tt)
    where
      shown : JobStatus
      shown = record state { phase = phase }

      at_work :
          (s' : Jobs)
          → Interrupted j log s'
          → Interrupted j log (record s' { task = some (flashing shown) })
      at_work s' h = record {
        on_disk = h.on_disk;
        idle = h.idle;
        in_memory = h.in_memory;
        elsewhere = n;
        unstarted = h.unstarted;
      }

      go :
          (o : Returned (Unit {0}) × Jobs)
          → Post j log (λ _ _. Unit {0}) o
          → Interrupted j log (elim o.0 [
            | gives u ↦ record o.1 { task = some (flashing shown) }
            | raises e ↦ record o.1 { task = some (flashing shown); volatile = some shown }
          ])
      go (gives u, s') h = at_work s' h.0
      go (raises e, s') h =
          kept_memory shown (record s' { task = some (flashing shown) }) (λ e. absurd (n e))
            (at_work s' h)
  show_progress_lem phase (some (recovering state)) s n i = i
  show_progress_lem phase none s n i = i

  end_run_lem :
      (e : RunEnd) (task : Option Task) (s : Jobs)
      → Elsewhere j task
      → Interrupted j log s
      → Interrupted j log (end_run e task s)
  unfolding end_run
  end_run_lem e (some (flashing state)) s n i =
      settle_lem _ _ s (λ f. absurd (n f)) (λ f. absurd (n f)) i
  end_run_lem e (some (recovering state)) s n i = i
  end_run_lem e none s n i = i

  end_recovery_lem :
      (verified relinked : Bool) (task : Option Task) (s : Jobs)
      → Elsewhere j task
      → Interrupted j log s
      → Interrupted j log (end_recovery verified relinked task s)
  unfolding end_recovery
  end_recovery_lem verified relinked (some (recovering state)) s n i = go (verified && relinked)
    where
      go :
          (b : Bool)
          → Interrupted j log (
              settle
                (if b
                  then record state { phase = Phase.failed; recovery_verified = true }
                  else record state { phase = recovery_required; recovery_verified = false })
                (record state { phase = recovery_required; recovery_verified = false })
                s)
      go true = settle_lem _ _ s (λ f. absurd (n f)) (λ f. absurd (n f)) i
      go false = settle_lem _ _ s (λ f. absurd (n f)) (λ f. absurd (n f)) i
  end_recovery_lem verified relinked (some (flashing state)) s n i = i
  end_recovery_lem verified relinked none s n i = i

  module _ (b64decode : String → Option (List ℕ)) (hex : is_hex_text 32 j ≡ true) where
    pub event_step_lem :
        (e : Event) (s : Jobs)
        → is_recovery_of j e ≡ false
        → Interrupted j log s
        → Interrupted j log (event_step b64decode e s)
    unfolding event_step restart is_recovery_of
    event_step_lem (request host msg) s n i = handle_lem b64decode hex host msg s n i
    event_step_lem (progress phase) s n i =
        show_progress_lem (shown_phase phase) s.task s i.elsewhere i
    event_step_lem (run_ends e) s n i = end_run_lem e s.task s i.elsewhere i
    event_step_lem (recovery_ends verified relinked) s n i =
        end_recovery_lem verified relinked s.task s i.elsewhere i
    event_step_lem restarts s n i = record {
      on_disk = i.on_disk;
      idle = refl;
      in_memory = tt;
      elsewhere = tt;
      unstarted = i.unstarted;
    }
    event_step_lem enter_maintenance s n i = record {
      on_disk = i.on_disk;
      idle = i.idle;
      in_memory = i.in_memory;
      elsewhere = i.elsewhere;
      unstarted = i.unstarted;
    }
    event_step_lem stop s n i = record {
      on_disk = i.on_disk;
      idle = i.idle;
      in_memory = i.in_memory;
      elsewhere = i.elsewhere;
      unstarted = i.unstarted;
    }

    pub events_lem :
        (es : List Event) (s : Jobs)
        → recovers_in j es ≡ false
        → Interrupted j log s
        → Interrupted j log (events b64decode es s)
    unfolding events recovers_in
    events_lem [] s n i = i
    events_lem (e ∷ es) s n i =
        events_lem es (event_step b64decode e s) (ground (arith, n))
          (event_step_lem e s (ground (arith, n)) i)

-- For a job with a valid name that was cut off, with any other requests, steps of tasks, disk faults and restarts of the
-- hub after that, but no request to recover it: no installation is started, the job is still cut
-- off, and _load raises or says that its recovery is required.
pub events-Interrupted :
    (b64decode : String → Option (List ℕ)) (j : String) (es : List Event) (s : Jobs)
    → is_hex_text 32 j ≡ true
    → Interrupted j s.started s
    → recovers_in j es ≡ false
    → ((events b64decode es s).started ≡ s.started)
      × Interrupted j s.started (events b64decode es s)
      × Unrecovered (load j (events b64decode es s))
events-Interrupted b64decode j es s hex i n =
    let h = events_lem b64decode hex es s n i in
    (
      h.unstarted,
      h,
      unrecovered (load j (events b64decode es s)) ((load_lem {P = λ _. Unit} j).from _ h tt),
    )
  where
    unrecovered : (o : Returned JobStatus × Jobs) → Post j s.started (Loaded j j) o → Unrecovered o
    unrecovered (gives state, t) q = q.1.1 q.1.0
    unrecovered (raises e, t) q = tt
