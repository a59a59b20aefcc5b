-- ===== src/Update/Jobs/Interrupted/Commands.antt =====
-- Every request but the recovery of the job itself keeps a job that was cut off as it is.
use bosun_midi_captain.Base.Int.{pos}
use bosun_midi_captain.Json.{Value, Fields, int, get_or_null}
use bosun_midi_captain.Base.{
  beq_of_ne, ◌≡◌, ◌≢◌, refl, sym, ◌∙◌, ap, String, Bool, true, false, Option, none, some, List,
  ◌&&◌, ◌||◌, not, same_text, same_nat, ltb, if◌then◌else◌, contains,
}
use bosun_midi_captain.Base.Dict.{keys}
use bosun_midi_captain.Update.Upload.{is_other, aborted}
use bosun_midi_captain.Update.Jobs.{
  not_supported, in_progress, size_limit, invalid_digest, another_owner, cannot_cancel, not_needed,
  not_connected, no_identity, other_captain, bad_evidence, JobStatus, Jobs, gives, raises, Step,
  give, is_hex_text, is_terminal, is_upload, is_recovery_required, is_owner, volatile_of,
}
use bosun_midi_captain.Update.Jobs.Interrupted.{Flagged, FlaggedIn, Interrupted, Post, Keeps}
use bosun_midi_captain.Update.Jobs.Interrupted.Rules.{
  bind, post, given, reads, never, check-true, check_lem, give_lem, save_lem, need_lem,
}
use bosun_midi_captain.Update.Jobs.Interrupted.Loading.{load_lem, clash}
use bosun_midi_captain.Update.Jobs.Interrupted.Scans.{
  Blocked-keys, check_previous_lem, check_others_lem,
}
use bosun_midi_captain.Update.Jobs.Requests.{
  Host, status, check_active, size_of, begin, take_device, admit_run, commit, checking,
  forget_volatile, is_none, start_recovery, admit_recovery, recover, abort,
}

abbrev pub Any : {A : Type 0} → A → Jobs → Type 0
Any a s = Unit

-- A phase that is uploading belongs to another job.
pub uploading_job :
    (j : String) (state : JobStatus)
    → Flagged j state
    → is_upload state.phase ≡ true
    → state.job ≢ j
uploading_job j state h f e = clash (sym f ∙ ap is_upload (h e))

module _ {j : String} {log : List String} where
  -- Another job becomes the active one.
  pub take_device_lem : {P : Jobs → Type 0} (k : String) → k ≢ j → Keeps j log P (take_device k) Any
  take_device_lem k n = record {
    from = λ s i p. (
      record {
        on_disk = i.on_disk;
        idle = beq_of_ne k j n;
        in_memory = i.in_memory;
        elsewhere = i.elsewhere;
        unstarted = i.unstarted;
      },
      tt,
    );
  }

  check_active_lem : {P : Jobs → Type 0} (o : Option String) → Keeps j log P (check_active o) Any
  unfolding check_active
  check_active_lem none = give_lem (λ s p. tt)
  check_active_lem {P} (some owner) =
      bind (load_lem {P = P} owner)
        λ state. post (λ _ _ _. tt) (check-true (is_terminal state.phase) in_progress)

  size_of_lem : {P : Jobs → Type 0} (v : Value) → Keeps j log P (size_of v) Any
  unfolding size_of
  size_of_lem (int (pos n)) = record { from = λ s i p. go s i (ltb 0 n && not (ltb 4194304 n)) }
    where
      go :
          (s : Jobs)
          → Interrupted j log s
          → (b : Bool) → Post j log Any (if b then (gives n, s) else (raises size_limit, s))
      go s i true = (i, tt)
      go s i false = i
  size_of_lem v = record { from = λ s i p. i }

  pub abort_lem :
      {P : Jobs → Type 0} (state : JobStatus) → Flagged j state → Keeps j log P (abort state) Any
  unfolding abort
  abort_lem {P} state h = bind (check-true {P = P} (is_upload state.phase) cannot_cancel) λ _.
      given (λ s p. p.1)
        λ f.
          bind
            (save_lem (record state { phase = aborted })
              (λ e. absurd (uploading_job j state h f e)))
            λ _.
              bind {Q = Any}
                (record {
                  from = λ s i p. (
                    record {
                      on_disk = i.on_disk;
                      idle = idle s i (is_owner state.job s.active);
                      in_memory = i.in_memory;
                      elsewhere = i.elsewhere;
                      unstarted = i.unstarted;
                    },
                    tt,
                  );
                })
                λ _. give_lem (λ s p. tt)
    where
      idle :
          (s : Jobs)
          → Interrupted j log s
          → (b : Bool) → is_owner j (if b then none else s.active) ≡ false
      idle s i true = refl
      idle s i false = i.idle

  module _ (hex : is_hex_text 32 j ≡ true) where
    -- The scan of all saved jobs meets j.
    scan_lem :
        (t : Jobs)
        → Interrupted j log t
        → (m : Step (Unit {0}))
        → Keeps j log (λ s. s ≡ t) m (λ _ _. contains j (keys t.root) ≡ false)
        → Keeps j log (λ s. s ≡ t) m (λ _ _. ⊥)
    scan_lem t i m k = post (λ _ _ e. clash (sym (Blocked-keys j t.root i.on_disk) ∙ e)) k

    pub begin_lem :
        {P : Jobs → Type 0} (host : Host) (request : Fields)
        → Keeps j log P (begin host request) Any
    unfolding begin
    begin_lem {P} host request = bind (check-true {P = P} host.supported not_supported) λ _.
        bind (reads λ t i p. check_active_lem t.active) λ _.
          bind (size_of_lem (get_or_null "size" request)) λ size.
            bind (check-true _ invalid_digest) λ _.
              bind (reads λ t i p. scan_lem t i _ (check_previous_lem hex host.now (keys t.root)))
                λ _. never (λ s p. p)

    pub commit_lem :
        {P : Jobs → Type 0} (host : Host) (state : JobStatus)
        → Flagged j state
        → Keeps j log P (commit host state) Any
    unfolding commit admit_run
    commit_lem {P} host state h = go (is_upload state.phase) refl
      where
        go :
            (b : Bool)
            → is_upload state.phase ≡ b
            → Keeps j log P (if b then admit_run host state else give (status state)) Any
        go true f =
            bind
              (reads {P = P} λ t i p. check_lem (not (is_other t.active state.job)) another_owner)
              λ _.
                bind
                  (reads λ t i p.
                    scan_lem t i _
                      (check_others_lem hex state.job (keys t.root) (uploading_job j state h f)))
                  λ _. never (λ s p. p)
        go false f = give_lem (λ s p. tt)

  forget_volatile_lem : {P : Jobs → Type 0} (k : String) → Keeps j log P (forget_volatile k) Any
  unfolding forget_volatile
  forget_volatile_lem k = record {
    from = λ s i p. (
      record {
        on_disk = i.on_disk;
        idle = i.idle;
        in_memory = go s i (volatile_of k s.volatile);
        elsewhere = i.elsewhere;
        unstarted = i.unstarted;
      },
      tt,
    );
  }
    where
      go :
          (s : Jobs)
          → Interrupted j log s
          → (o : Option JobStatus) → FlaggedIn j (elim o [ none ↦ s.volatile | some v ↦ none ])
      go s i none = i.in_memory
      go s i (some v) = tt

  start_recovery_lem :
      {P : Jobs → Type 0} (state : JobStatus)
      → state.job ≢ j
      → Keeps j log P (start_recovery state) Any
  unfolding start_recovery
  start_recovery_lem state n = record {
    from = λ s i p. (
      record {
        on_disk = i.on_disk;
        idle = beq_of_ne state.job j n;
        in_memory = i.in_memory;
        elsewhere = n;
        unstarted = i.unstarted;
      },
      tt,
    );
  }

  -- The recovery of another job.
  pub recover_lem :
      {P : Jobs → Type 0} (host : Host) (state : JobStatus)
      → state.job ≢ j
      → Keeps j log P (recover host state) Any
  unfolding recover admit_recovery
  recover_lem {P} host state n = record {
    from = λ s i p.
        (go s ((is_owner state.job s.active && state.is_recovery) || state.recovery_verified)).from
          s i p;
  }
    where
      go :
          (s : Jobs) (b : Bool)
          → Keeps j log P
              (λ t. if b then give (status state) t else admit_recovery host state t)
              Any
      go s true = give_lem (λ s p. tt)
      go s false = bind (check-true {P = P} (is_recovery_required state.phase) not_needed) λ _.
          bind (reads λ t i p. check_lem (is_none t.active && is_none t.task) another_owner) λ _.
            bind (check-true host.connected not_connected) λ _.
              bind (check-true (host.on_usb && host.has_identity) no_identity) λ _.
                bind (need_lem host.evidence bad_evidence) λ same.
                  bind (check-true same other_captain) λ _.
                    bind (save_lem (checking state) (λ e. absurd (n e))) λ _.
                      bind (forget_volatile_lem state.job)
                        λ _. bind (start_recovery_lem (checking state) n) λ _. give_lem (λ s p. tt)
