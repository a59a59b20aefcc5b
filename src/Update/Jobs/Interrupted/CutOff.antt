-- ===== src/Update/Jobs/Interrupted/CutOff.antt =====
-- An installation that _commit started and that a restart of the hub cuts off.
use bosun_midi_captain.Base.Dict.{get, get-put}
use bosun_midi_captain.Base.{
  ap, subst, sym, ◌∙◌, beq_refl, map, ◌||◌, ◌≡◌, refl, String, Bool, true, false, Option, none,
  some, List, [], ◌∷◌, same_text, same_nat, ℕ, if◌then◌else◌, arith,
}
use bosun_midi_captain.Update.Upload.{Phase, recovery_required}
use bosun_midi_captain.Update.Jobs.{
  give, need, invalid_job, unknown_job, with_status, Folder, works, fails_before, fails_after,
  directory, next_fault, write_status, is_terminal, is_upload, saved, SaveFault, ◌>>=◌, Step,
  flashing, Task, JobStatus, Task, flashing, recovering, Jobs, Returned, gives, raises, is_hex_text,
  remember_recovery, save, load,
}
use bosun_midi_captain.Update.Jobs.Interrupted.{blocks, Blocked, Interrupted}
use bosun_midi_captain.Update.Upload as Upload
use bosun_midi_captain.Install.Action as Action
use bosun_midi_captain.Update.Jobs.Work.{
  Event, progress, show_progress, restart, recovers_in, event_step, events, shown_phase,
}
use bosun_midi_captain.Update.Jobs.Interrupted.Loading.{clash}
use bosun_midi_captain.Update.Jobs.Interrupted.Events.{Unrecovered, events-Interrupted}
use bosun_midi_captain.Update.Jobs.Requests.{Host, Reply, status, admit_run, start_run, commit}

-- What holds after a step that gives a value, and after one that raises.
abbrev On : {A : Type 0} → (Jobs → Type 0) → (Jobs → Type 0) → Returned A × Jobs → Type 0
On Q R (gives a, s) = Q s
On Q R (raises e, s) = R s

record Gives {A : Type 0} (P : Jobs → Type 0) (m : Step A) (Q R : Jobs → Type 0) : Type 0 where
  from : (s : Jobs) → P s → On Q R (m s)

chain :
    {A B : Type 0} {P Q Q' R : Jobs → Type 0} {m : Step A} {f : A → Step B}
    → Gives P m Q R
    → ((a : A) → Gives Q (f a) Q' R)
    → Gives P (m >>= f) Q' R
unfolding ◌>>=◌
chain {A} {B} {P} {Q} {Q'} {R} {m} {f} first next = record {
  from = λ s p. go (m s) (first.from s p);
}
  where
    go :
        (o : Returned A × Jobs)
        → On Q R o
        → On {A = B} Q' R (elim o.0 [ gives a ↦ f a o.1 | raises e ↦ (raises e, o.1) ])
    go (gives a, s) q = (next a).from s q
    go (raises e, s) q = q

abbrev Always : Jobs → Type 0
Always s = Unit

any_step : {A : Type 0} (m : Step A) → Gives Always m Always Always
any_step {A} m = record { from = λ s p. go (m s) }
  where
    go : (o : Returned A × Jobs) → On Always Always o
    go (gives a, s) = tt
    go (raises e, s) = tt

-- The status on the disk blocks j.
abbrev OnDisk : String → Jobs → Type 0
OnDisk j s = Blocked j (get j s.root)

-- j is being installed, and the disk says so.
abbrev AtWork : String → Option Task → Type 0
AtWork j (some (flashing state)) = state.job ≡ j
AtWork j _ = ⊥

abbrev Installing : String → Jobs → Type 0
Installing j s = OnDisk j s × AtWork j s.task

abbrev is_resting : Phase → Bool
is_resting p = is_terminal p || is_upload p

working-OnDisk :
    (state : JobStatus) (d : Folder) (s : Jobs)
    → is_resting state.phase ≡ false
    → OnDisk state.job (with_status state d s)
unfolding blocks
working-OnDisk state d s h =
    subst (Blocked state.job)
      (sym (
        get-put state.job state.job (record d { status = saved state }) s.root
        ∙ ap (λ b. if b then some (record d { status = saved state }) else get state.job s.root)
            (beq_refl state.job)))
      (ground (arith, h))

module _ (P R : Jobs → Type 0) (fails : (s : Jobs) → P s → R s) where
  directory_lem : (k : String) → Gives P (directory k) P R
  unfolding directory need
  directory_lem k = record { from = λ s p. go s p (is_hex_text 32 k) (get k s.root) }
    where
      go :
          (s : Jobs)
          → P s
          → (b : Bool) (o : Option Folder)
          → On P R (if b then need o unknown_job s else (raises invalid_job, s))
      go s p true (some d) = p
      go s p true none = fails s p
      go s p false o = fails s p

  -- Saving a status of a job at work.
  save-OnDisk :
      ((s : Jobs) (fs : List SaveFault) → P s → P (record s { faults = fs }))
      → (state : JobStatus) → is_resting state.phase ≡ false
      → ((s : Jobs) → OnDisk state.job s → R s)
      → Gives P (save state) (OnDisk state.job) R
  unfolding save write_status next_fault remember_recovery
  save-OnDisk blind state h g = chain (directory_lem state.job) λ d.
      chain {Q = P} (record { from = λ s p. blind s _ p })
        λ fault. record { from = λ s p. go fault d s p }
    where
      go :
          (f : SaveFault) (d : Folder) (s : Jobs)
          → P s
          → On (OnDisk state.job) R (write_status f state d s)
      go works d s p = working-OnDisk state d s h
      go fails_before d s p = fails s p
      go fails_after d s p = g _ (working-OnDisk state d s h)

admit_run-Installing :
    (host : Host) (state : JobStatus)
    → Gives Always (admit_run host state) (Installing state.job) Always
unfolding admit_run start_run is_terminal
admit_run-Installing host state = chain (any_step _) λ _. chain (any_step _) λ _.
    chain (any_step _) λ _. chain (any_step _) λ _. chain (any_step _) λ _. chain (any_step _) λ _.
      chain
        (save-OnDisk Always Always (λ s p. tt) (λ s fs p. tt)
          (record state { phase = Upload.validating }) refl (λ s h. tt))
        λ _.
          chain {Q = Installing state.job} (record { from = λ s p. (p, refl) })
            λ _. record { from = λ s p. p }

shown_lem : (p : Action.Phase) → is_resting (shown_phase p) ≡ false
unfolding shown_phase is_terminal
shown_lem Action.preflight = refl
shown_lem Action.reading_configuration = refl
shown_lem Action.entering_bootloader = refl
shown_lem Action.backing_up_flash = refl
shown_lem Action.backup_verified = refl
shown_lem Action.flashing_firmware = refl
shown_lem Action.rebooting = refl
shown_lem Action.verifying_configuration = refl
shown_lem Action.rolling_back = refl
shown_lem (Action.ended end) = refl

show_progress-Installing :
    (j : String) (p : Action.Phase) (task : Option Task) (s : Jobs)
    → OnDisk j s
    → AtWork j task
    → Installing j (show_progress (shown_phase p) task s)
unfolding show_progress
show_progress-Installing j p (some (flashing state)) s h e =
    go (save shown s) (
      (save-OnDisk (OnDisk j) (OnDisk j) (λ s h. h) (λ s fs h. h) shown (shown_lem p) same).from s
        h)
  where
    shown : JobStatus
    shown = record state { phase = shown_phase p }

    same : (t : Jobs) → OnDisk state.job t → OnDisk j t
    same t = subst (λ k. OnDisk k t) e

    go :
        (o : Returned (Unit {0}) × Jobs)
        → On (OnDisk state.job) (OnDisk j) o
        → Installing j (elim o.0 [
          | gives u ↦ record o.1 { task = some (flashing shown) }
          | raises e ↦ record o.1 { task = some (flashing shown); volatile = some shown }
        ])
    go (gives u, s') h = (same s' h, e)
    go (raises _, s') h = (h, e)
show_progress-Installing j p (some (recovering state)) s h e = absurd e
show_progress-Installing j p none s h e = absurd e

module _ (b64decode : String → Option (List ℕ)) where
  progress-Installing :
      (j : String) (ps : List Action.Phase) (s : Jobs)
      → Installing j s
      → Installing j (events b64decode (map progress ps) s)
  unfolding events event_step
  progress-Installing j [] s h = h
  progress-Installing j (p ∷ ps) s h =
      progress-Installing j ps _ (show_progress-Installing j p s.task s h.0 h.1)

  -- The hub after a commit: the installer reports some phases, then the hub restarts.
  abbrev pub cut_off : List Action.Phase → Jobs → Jobs
  cut_off ps s = restart (events b64decode (map progress ps) s)

  restart-Interrupted :
      (j : String) (s : Jobs) → Installing j s → Interrupted j (restart s).started (restart s)
  unfolding restart
  restart-Interrupted j s h = record {
    on_disk = h.0;
    idle = refl;
    in_memory = tt;
    elsewhere = tt;
    unstarted = refl;
  }

  -- Of a commit that raises nothing is said.
  abbrev pub Blocks : String → List Action.Phase → List Event → Returned Reply × Jobs → Type 0
  Blocks j ps es (raises e, s) = Unit
  Blocks j ps es (gives r, s) =
      ((events b64decode es (cut_off ps s)).started ≡ (cut_off ps s).started)
      × Unrecovered (load j (events b64decode es (cut_off ps s)))

  -- For an upload under a valid job name: when its commit is answered, let the installer report any
  -- phases and then the hub restart, with any disk faults. After that no requests, steps of tasks,
  -- faults and further restarts start an installation of any job, and _load of the job that was cut
  -- off raises or says that its recovery is required, as long as nobody asks to recover that job.
  pub commit-Blocks :
      (host : Host) (state : JobStatus) (ps : List Action.Phase) (es : List Event) (s : Jobs)
      → is_hex_text 32 state.job ≡ true
      → is_upload state.phase ≡ true
      → recovers_in state.job es ≡ false
      → Blocks state.job ps es (commit host state s)
  unfolding commit
  commit-Blocks host state ps es s hex up n =
      go (is_upload state.phase) up (admit_run host state)
        ((admit_run-Installing host state).from s tt)
    where
      blocked :
          (o : Returned Reply × Jobs)
          → On (Installing state.job) Always o
          → Blocks state.job ps es o
      blocked (gives r, t) h =
          let b =
            events-Interrupted b64decode state.job es (cut_off ps t) hex
              (restart-Interrupted state.job _ (progress-Installing state.job ps t h)) n in
          (b.0, b.2)
      blocked (raises e, t) h = tt

      go :
          (b : Bool)
          → b ≡ true
          → (m : Step Reply) → On (Installing state.job) Always (m s)
          → Blocks state.job ps es ((if b then m else give (status state)) s)
      go true e m h = blocked (m s) h
      go false e m h = absurd (clash (sym e))
