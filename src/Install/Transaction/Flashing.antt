-- ===== src/Install/Transaction/Flashing.antt =====
-- What holds after the last stage of the try block: the load of the firmware and its checks.
use bosun_midi_captain.Base.{List, ◌≡◌, refl, ap, ◌∙◌, true, false, none, [], ◌∷◌, ◌++◌, inl, inr}
use bosun_midi_captain.Json.{Fields, str}
use bosun_midi_captain.Install.Snapshot.{Builtins, compare_snapshot}
use bosun_midi_captain.Install.Action.{
  PinnedDevice, BootDevice, firmware, storage, Package, Journal, Calls, Flash, untouched, written,
  checked, updated, Sighting, Run, rebooting, verifying_configuration,
}
use bosun_midi_captain.Install.Transaction.{
  enter, is_flagged, verified_flash, report, flash_firmware,
}
use bosun_midi_captain.Install.Transaction.Triple.{
  Triple, bind, call_lem, demand_lem, pass-none, assign_lem, report_lem, verify_lem, snapshot_lem,
  load_lem,
}
use bosun_midi_captain.Install.Transaction.States.{
  firmware_load, FirstSeen, LastSeen, Known, BackedUp, Flagged, Started, Loaded, Held, Done,
}

module _ {W : Type 0} where
  -- A further snapshot leaves the first one in its place.
  still_first :
      (device other : PinnedDevice) (before value : Fields) (flash : Flash) (s : Run W)
      → FirstSeen device before untouched s
      → (rest : List Sighting) × (s.seen
            ++ record { device = other; value = value; flash = flash } ∷ []
          ≡ record { device = device; value = before; flash = untouched } ∷ rest)
  still_first device other before value flash s (rest, e) = (
    rest ++ record { device = other; value = value; flash = flash } ∷ [],
    ap (λ l. l ++ record { device = other; value = value; flash = flash } ∷ []) e,
  )

  -- And all that is known.
  pub still-Known :
      (release : Package) (device : PinnedDevice) (before value : Fields) (flash : Flash)
      (s : Run W) (w : W)
      → Known release device before s
      → Known release device before (record s {
        world = w;
        seen = s.seen ++ record { device = device; value = value; flash = flash } ∷ [];
      })
  still-Known release device before value flash s w h =
      (h.0, h.1, h.2, h.3, still_first device device before value flash s h.4)

  module _ ⦃py : Builtins⦄ (calls : Calls W) (release : Package) (device : PinnedDevice)
      (before : Fields) where
    abbrev Flashing : Flash → Run W → Type 0
    Flashing = Loaded release device before

    held : (flash : Flash) (s : Run W) → Flashing flash s → Held release device before s
    held flash s h = (h.0, inr (h.1, h.2))

    -- The snapshot after the load, and that it was compared.
    abbrev Snapped : Fields → Run W → Type 0
    Snapped after s = Flashing updated s × LastSeen device after updated s

    abbrev Compared : Fields → Run W → Type 0
    Compared after s =
        Snapped after s × (compare_snapshot before after (str release.firmware_version) ≡ none)

    -- A report that does not take the flag back.
    flashed-report :
        (values : Journal → Journal)
        → ((j : Journal) → (values j).flash_may_be_modified ≡ j.flash_may_be_modified)
        → Triple
            (Flashing updated)
            (report calls true values)
            (λ _. Flashing updated)
            (Held release device before)
    flashed-report values keeps =
        report_lem calls (Flashing updated) (Flashing updated) (Held release device before) values
          (λ s w h. (h.0, (keeps s.state ∙ h.1.0, keeps s.state ∙ h.1.0), h.2, h.3))
          (λ s w h. (h.0, inr ((keeps s.state ∙ h.1.0, h.1.1), h.2)))

    -- The load itself, right after the journal was flagged.
    loaded :
        (s : Run W) (w : W)
        → Started release device before s × Flagged s
        → let s' : Run W = record s {
          world = w;
          flash = written firmware;
          loads =
              s.loads
              ++ record {
                image = firmware;
                flagged = is_flagged s.durable;
                backed_up = s.verified_backup;
                started = s.writes_started;
              }
                ∷ [];
        } in
          Flashing (written firmware) s' × Held release device before s'
    loaded s w h =
        let one : s.loads
              ++ record {
                image = firmware;
                flagged = is_flagged s.durable;
                backed_up = s.verified_backup;
                started = s.writes_started;
              }
                ∷ []
            ≡ firmware_load ∷ [] =
          simp (h.0.1, h.1.1, h.0.0.1, h.0.0.2) in
        ((h.0.0, h.1, one, refl), (h.0.0, inr (h.1, one)))

    pub flash_firmware-Done :
        (target : BootDevice)
        → Triple
            (BackedUp release device before)
            (flash_firmware calls release device before target)
            (λ _. Done release device before)
            (Held release device before)
    unfolding flash_firmware verified_flash
    flash_firmware-Done target =
        let S = Started release device before in
        let R = Held release device before in
        let U = Flashing updated in
        bind (assign_lem S (λ s h. ((h.0.1, h.1, refl), h.0.0.0, h.0.0.1))) λ _.
          bind
            (report_lem calls S (λ s. S s × Flagged s) R _ (λ s w h. (h, (refl, refl)))
              (λ s w h. (h.0, inl h.1)))
            λ _.
              bind
                (load_lem calls (λ s. S s × Flagged s) (Flashing (written firmware)) R target
                  firmware none (λ s w h. loaded s w h))
                λ _.
                  bind
                    (verify_lem calls (Flashing (written firmware)) (Flashing (checked firmware)) R
                      target firmware none
                      (λ s w h. (h.0, h.1, h.2, ap (verified_flash firmware) h.3))
                      (λ s w h. held (written firmware) s h))
                    λ _.
                      bind
                        (verify_lem calls (Flashing (checked firmware)) U R target storage _
                          (λ s w h. (h.0, h.1, h.2, ap (verified_flash storage) h.3))
                          (λ s w h. held (checked firmware) s h))
                        λ _. bind (flashed-report (enter calls rebooting) (λ j. refl)) λ _.
                          bind (call_lem U R (held updated) _ (λ s w h. h)) λ _.
                            bind (flashed-report (enter calls verifying_configuration) (λ j. refl))
                              λ _.
                                bind
                                  (snapshot_lem calls U Snapped R device false none snapped
                                    (λ s w h. held updated s h))
                                  λ after.
                                    bind (pass-none (Snapped after) R (λ s h. held updated s h.0) _)
                                      λ _.
                                        bind
                                          (demand_lem (Compared after) R
                                            (λ s h. held updated s h.0.0) _ _)
                                          λ _.
                                            bind
                                              (call_lem (Compared after) R
                                                (λ s h. held updated s h.0.0) _ (λ s w h. h))
                                              λ _.
                                                report_lem calls (Compared after)
                                                  (Done release device before) R _
                                                  (λ s w h. (
                                                    h.0.0.2,
                                                    h.0.0.3,
                                                    refl,
                                                    refl,
                                                    h.0.0.0.0,
                                                    (after, h.0.1, h.1),
                                                  ))
                                                  (λ s w h. held updated s h.0.0)
      where
        snapped :
            (s : Run W) (w : W) (value : Fields)
            → Flashing updated s
            → Snapped value (record s {
              world = w;
              seen = s.seen ++ record { device = device; value = value; flash = s.flash } ∷ [];
            })
        snapped s w value h = (
          (
            (still-Known release device before value s.flash s w h.0.0, h.0.1, h.0.2),
            h.1,
            h.2,
            h.3,
          ),
          (
            s.seen,
            ap (λ f. s.seen ++ record { device = device; value = value; flash = f } ∷ []) h.3,
          ),
        )
