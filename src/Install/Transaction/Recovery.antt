-- ===== src/Install/Transaction/Recovery.antt =====
-- What the handler of exceptions leaves: the rollback, and the way back to the firmware.
use bosun_midi_captain.Base.{
  ◌≡◌, refl, ap, ◌∙◌, Bool, true, false, Option, none, some, List, [], ◌∷◌, ◌++◌, ◌⊎◌, inl, inr,
  ◌==◌, same_text, Bool-cases,
}
use bosun_midi_captain.Json.{Fields, get_or_null}
use bosun_midi_captain.Install.Snapshot.{Builtins, InstallError, outside, compare_snapshot, info_of}
use bosun_midi_captain.Install.Action.{
  CallResult, done, raised, Package, PinnedDevice, BootDevice, backup, Journal, failed, rolled_back,
  manual_recovery, Calls, Flash, written, checked, Load, Run, ended,
}
use bosun_midi_captain.Install.Transaction.{
  is_flagged, verified_flash, report, restore, roll_back, leave_bootloader, resume, status_of,
  give_up, handle_with, handle_error,
}
use bosun_midi_captain.Install.Transaction.Triple.{
  Post, Triple, bind, call_lem, demand_lem, pass-none, need_lem, assign_lem, report-optional,
  verify_lem, load_lem, snapshot_lem,
}
use bosun_midi_captain.Install.Transaction.States.{firmware_load, Untouched, Known, LastSeen, Held}
use bosun_midi_captain.Install.Transaction.Flashing.{still-Known}

abbrev pub backup_load : Load
backup_load = record { image = backup; flagged = true; backed_up = true; started = true }

-- The loads of a transaction: the firmware at most once and only behind a journal on the disk that
-- flags the flash and a verified backup; then the backup at most once, and nothing after it. Each of
-- them after the writes have been started.
abbrev pub IsOrdered : List Load → Type 0
IsOrdered [] = Unit
IsOrdered (l ∷ []) =
    (l ≡ firmware_load) ⊎ ((l.image ≡ backup) × (l.backed_up ≡ true) × (l.started ≡ true))
IsOrdered (l ∷ (m ∷ [])) = (l ≡ firmware_load) × (m ≡ backup_load)
IsOrdered (l ∷ (m ∷ (n ∷ ls))) = ⊥

Held-IsOrdered : (loads : List Load) → (loads ≡ []) ⊎ (loads ≡ firmware_load ∷ []) → IsOrdered loads
Held-IsOrdered loads (inl e) = rw e tt
Held-IsOrdered loads (inr e) = rw e (inl refl)

module _ {W : Type 0} where
  abbrev pub Ordered : Run W → Type 0
  Ordered s = IsOrdered s.loads

  -- The backup was loaded last and verified after that, and the last snapshot, taken then, is the
  -- configuration from before.
  abbrev pub Restored : ⦃py : Builtins⦄ → Package → PinnedDevice → Fields → Run W → Type 0
  Restored release device before s =
      Ordered s
      × (s.flash ≡ checked backup)
      × (s.state.status ≡ rolled_back)
      × Known release device before s
      × ((after : Fields) × LastSeen device after (checked backup) s
          × (compare_snapshot before after (get_or_null "fw" (info_of before)) ≡ none))

  -- The rollback ends in one of two ways.
  abbrev pub RolledBack : ⦃py : Builtins⦄ → Package → PinnedDevice → Fields → Run W → Type 0
  RolledBack release device before s =
      Restored release device before s ⊎ (Ordered s × (s.state.status ≡ manual_recovery))

  module _ (release : Package) (device : PinnedDevice) (before : Fields) where
    ordered : (s : Run W) → Held release device before s → Ordered s
    ordered s h = Held-IsOrdered s.loads (elim h.1 [ inl e ↦ inl e | inr e ↦ inr e.1 ])

    -- A report that does not take the flag back.
    Held-report :
        (calls : Calls W) (values : Journal → Journal) {R : Run W → Type 0}
        → ((j : Journal) → (values j).flash_may_be_modified ≡ j.flash_may_be_modified)
        → Triple
            (Held release device before)
            (report calls false values)
            (λ _. Held release device before)
            R
    Held-report calls values {R} keeps =
        report-optional calls (Held release device before) (Held release device before) R values
          (λ s w h. (
            h.0,
            elim h.1 [
              | inl e ↦ inl e
              | inr (f, e) ↦ inr ((keeps s.state ∙ f.0, keeps s.state ∙ f.0), e)
            ],
          ))
          (λ s w x h.
            (h.0, elim h.1 [ inl e ↦ inl e | inr (f, e) ↦ inr ((keeps s.state ∙ f.0, f.1), e) ]))

    -- The backup goes in first, or after the flagged load of the firmware.
    IsOrdered-backup :
        (s : Run W)
        → Held release device before s
        → IsOrdered (
            s.loads
            ++ record {
              image = backup;
              flagged = is_flagged s.durable;
              backed_up = s.verified_backup;
              started = s.writes_started;
            }
              ∷ [])
    IsOrdered-backup s h = elim h.1 [
      | inl e ↦ rw e (inr (refl, h.0.1, h.0.2))
      | inr (f, e) ↦ rw (e, f.1, h.0.1, h.0.2) (refl, refl)
    ]

    abbrev Backup : Flash → Run W → Type 0
    Backup flash s = Ordered s × (s.flash ≡ flash) × Known release device before s

    module _ ⦃py : Builtins⦄ (calls : Calls W) where
      -- The snapshot after the load, and that it was compared.
      abbrev Snapped : Fields → Run W → Type 0
      Snapped after s = Backup (checked backup) s × LastSeen device after (checked backup) s

      abbrev Matched : Fields → Run W → Type 0
      Matched after s =
          Snapped after s
          × (compare_snapshot before after (get_or_null "fw" (info_of before)) ≡ none)

      restore-Restored :
          (target : Option BootDevice) (error : InstallError)
          → Triple
              (Held release device before)
              (restore calls device before target error)
              (λ _. Restored release device before)
              Ordered
      unfolding restore verified_flash
      restore-Restored target error =
          let P = Held release device before in
          let B = Backup (checked backup) in
          bind (Held-report calls _ (λ j. refl)) λ _.
            bind (call_lem P Ordered ordered _ (λ s w h. h)) λ size.
              bind (demand_lem P Ordered ordered _ _) λ _.
                bind (call_lem P Ordered ordered _ (λ s w h. h)) λ digest.
                  bind {Q = λ _. P}
                    (record {
                      from = λ s h. (need_lem P Ordered ordered s.state.backup_sha256 _).from s h;
                    })
                    λ expected. bind (demand_lem P Ordered ordered _ _) λ _.
                      bind (call_lem P Ordered ordered _ (λ s w h. h)) λ recovery.
                        bind (need_lem P Ordered ordered target _) λ original.
                          bind (demand_lem P Ordered ordered _ _) λ _.
                            bind
                              (load_lem calls P (Backup (written backup)) Ordered recovery backup _
                                (λ s w h.
                                  ((IsOrdered-backup s h, refl, h.0.0), IsOrdered-backup s h)))
                              λ _.
                                bind
                                  (verify_lem calls (Backup (written backup)) B Ordered recovery
                                    backup _ (λ s w h. (h.0, ap (verified_flash backup) h.1, h.2))
                                    (λ s w h. h.0))
                                  λ _.
                                    bind
                                      (report-optional calls B B Ordered _ (λ s w h. h)
                                        (λ s w e h. h))
                                      λ _.
                                        bind (call_lem B Ordered (λ s h. h.0) _ (λ s w h. h)) λ _.
                                          bind
                                            (snapshot_lem calls B Snapped Ordered device false none
                                              snapped (λ s w h. h.0))
                                            λ restored.
                                              bind
                                                (pass-none (Snapped restored) Ordered (λ s h. h.0.0)
                                                  _)
                                                λ _.
                                                  report-optional calls (Matched restored)
                                                    (Restored release device before) Ordered _
                                                    (λ s w h. (
                                                      h.0.0.0,
                                                      h.0.0.1,
                                                      refl,
                                                      h.0.0.2,
                                                      (restored, h.0.1, h.1),
                                                    ))
                                                    (λ s w e h. (
                                                      h.0.0.0,
                                                      h.0.0.1,
                                                      refl,
                                                      h.0.0.2,
                                                      (restored, h.0.1, h.1),
                                                    ))
        where
          snapped :
              (s : Run W) (w : W) (value : Fields)
              → Backup (checked backup) s
              → Snapped value (record s {
                world = w;
                seen = s.seen ++ record { device = device; value = value; flash = s.flash } ∷ [];
              })
          snapped s w value h = (
            (h.0, h.1, still-Known release device before value s.flash s w h.2),
            (
              s.seen,
              ap (λ f. s.seen ++ record { device = device; value = value; flash = f } ∷ []) h.1,
            ),
          )

      -- It never raises.
      roll_back-RolledBack :
          (error : InstallError)
          → Triple
              (Held release device before)
              (roll_back calls device before error)
              (λ _. RolledBack release device before)
              (λ _. ⊥)
      unfolding roll_back
      roll_back-RolledBack error = record {
        from = λ s h.
            go (restore calls device before s.target error s)
              ((restore-Restored s.target error).from s h);
      }
        where
          manual : InstallError → Journal → Journal
          manual e j = record j {
            phase = ended manual_recovery;
            status = manual_recovery;
            error = some error;
            recovery_error = some e;
            rollback_verified = false;
          }

          go :
              (o : CallResult (Unit {0}) × Run W)
              → Post (λ _. Restored release device before) Ordered o
              → Post {A = Unit {0}}
                  (λ _. RolledBack release device before)
                  (λ _. ⊥)
                  (elim o.0 [
                    | done u ↦ (done tt, o.1)
                    | raised e ↦ report calls false (manual e) o.1
                  ])
          go (done u, s) h = inl h
          go (raised e, s) h =
              (report-optional calls Ordered (RolledBack release device before) (λ _. ⊥) (manual e)
                  (λ s w h. inr (h, refl)) (λ s w x h. inr (h, refl))).from
                s h

  -- Nothing was loaded, whatever becomes of the way back.
  abbrev pub Unloaded : Run W → Type 0
  Unloaded s = s.loads ≡ []

  abbrev pub GivenUp : Run W → Type 0
  GivenUp s = Unloaded s × ((s.state.status ≡ failed) ⊎ (s.state.status ≡ manual_recovery))

  module _ ⦃py : Builtins⦄ (calls : Calls W) where
    leave_bootloader-Unloaded :
        (device : PinnedDevice)
        → Triple Unloaded (leave_bootloader calls device) (λ _. Unloaded) Unloaded
    unfolding leave_bootloader
    leave_bootloader-Unloaded device =
        bind (call_lem Unloaded Unloaded (λ s h. h) _ (λ s w h. h)) λ target.
          bind (assign_lem Unloaded (λ s h. h))
            λ _. call_lem Unloaded Unloaded (λ s h. h) _ (λ s w h. h)

    resume-Unloaded :
        (entered has_io : Bool) (device : Option PinnedDevice)
        → Triple Unloaded (resume calls entered has_io device) (λ _. Unloaded) (λ _. ⊥)
    unfolding resume
    resume-Unloaded true true (some device) = record {
      from =
          λ s h. go (leave_bootloader calls device s) ((leave_bootloader-Unloaded device).from s h);
    }
      where
        go :
            (o : CallResult (Unit {0}) × Run W)
            → Post (λ _. Unloaded) Unloaded o
            → Post {A = Option InstallError}
                (λ _. Unloaded)
                (λ _. ⊥)
                (elim o.0 [ done u ↦ (done none, o.1) | raised e ↦ (done (some e), o.1) ])
        go (done u, s) h = h
        go (raised e, s) h = h
    resume-Unloaded true true none = record { from = λ s h. h }
    resume-Unloaded true false device = record { from = λ s h. h }
    resume-Unloaded false has_io device = record { from = λ s h. h }

    status_of-cases :
        (problem : Option InstallError)
        → (status_of calls problem ≡ failed) ⊎ (status_of calls problem ≡ manual_recovery)
    unfolding status_of
    status_of-cases none = inl refl
    status_of-cases (some (outside text)) = elim (Bool-cases (text == "")) [
      | inl e ↦ inl (rw e refl)
      | inr e ↦ inr (rw e refl)
    ]
    status_of-cases (some e) = inr refl

    give_up-GivenUp :
        (error : InstallError) → Triple Unloaded (give_up calls error) (λ _. GivenUp) (λ _. ⊥)
    unfolding give_up
    give_up-GivenUp error =
        bind {Q = λ _. Unloaded}
          (record {
            from = λ s h. (resume-Unloaded s.entered_bootloader s.has_io s.device).from s h;
          })
          λ problem.
            report-optional calls Unloaded GivenUp (λ _. ⊥) _
              (λ s w h. (h, status_of-cases problem)) (λ s w e h. (h, status_of-cases problem))

    -- Before any write the handler gives up; after one it rolls back.
    pub handle_error-Untouched :
        (error : InstallError) → Triple Untouched (handle_error calls error) (λ _. GivenUp) (λ _. ⊥)
    unfolding handle_error handle_with
    handle_error-Untouched error = record {
      from = λ s h. simp (h.2, handle_with) ((give_up-GivenUp error).from s h.0);
    }

    pub handle_error-Held :
        (release : Package) (device : PinnedDevice) (before : Fields) (error : InstallError)
        → Triple
            (Held release device before)
            (handle_error calls error)
            (λ _. RolledBack release device before)
            (λ _. ⊥)
    unfolding handle_error handle_with
    handle_error-Held release device before error = record {
      from = λ s h.
          simp (h.0.2, h.0.1, h.0.0.0, h.0.0.1, h.0.0.2)
            ((roll_back-RolledBack release device before calls error).from s h);
    }
