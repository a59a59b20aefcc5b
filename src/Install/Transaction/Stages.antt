-- ===== src/Install/Transaction/Stages.antt =====
-- What holds after the first two stages of the try block: the preparation and the backup.
use bosun_midi_captain.Base.{◌≡◌, refl, ap, true, Option, some, [], ◌∷◌, ◌++◌}
use bosun_midi_captain.Json.{Fields}
use bosun_midi_captain.Install.Snapshot.{Builtins}
use bosun_midi_captain.Install.Action.{PinnedDevice, backup, Package, Calls, untouched, Run}
use bosun_midi_captain.Install.Transaction.{verified_flash, prepare, back_up}
use bosun_midi_captain.Install.Transaction.Triple.{
  Triple, bind, call_lem, demand_lem, pass_lem, assign_lem, report_lem, verify_lem, snapshot_lem,
}
use bosun_midi_captain.Install.Transaction.States.{
  Untouched, Fresh, HasPackage, HasIo, HasDevice, HasSeen, Prepared, BackedUp,
}

module _ {W : Type 0} where
  module _ ⦃py : Builtins⦄ (calls : Calls W) (info : Fields) (expected : Option PinnedDevice) where
    sighted :
        (s : Run W) (device : PinnedDevice) (value : Fields)
        → s.seen ≡ []
        → s.flash ≡ untouched
        → s.seen ++ record { device = device; value = value; flash = s.flash } ∷ []
          ≡ record { device = device; value = value; flash = untouched } ∷ []
    sighted s device value none_seen clean = rw (none_seen, clean) refl

    pub prepare-Prepared :
        Triple Fresh (prepare calls info expected) (λ r. Prepared r.0 r.1 r.2) Untouched
    unfolding prepare
    prepare-Prepared = bind (call_lem Fresh Untouched (λ s h. h.0) _ (λ s w h. h)) λ release.
        let H = HasPackage release in
        let I = HasIo release in
        bind (assign_lem H (λ s h. (h, refl))) λ _.
          bind (demand_lem H Untouched (λ s h. h.0.0) _ _) λ _.
            bind (call_lem H Untouched (λ s h. h.0.0) _ (λ s w h. h)) λ is_linux.
              bind (assign_lem I (λ s h. (h, refl))) λ _.
                bind (demand_lem I Untouched (λ s h. h.0.0.0) _ _) λ _.
                  bind (call_lem I Untouched (λ s h. h.0.0.0) _ (λ s w h. h)) λ device.
                    let D = HasDevice release device in
                    bind (assign_lem D (λ s h. (h, refl))) λ _.
                      bind (demand_lem D Untouched (λ s h. h.0.0.0.0) _ _) λ _.
                        bind (report_lem calls D D Untouched _ (λ s w h. h) (λ s w h. h.0.0.0.0))
                          λ _.
                            bind
                              (snapshot_lem calls D (HasSeen release device) Untouched device true
                                (some info)
                                (λ s w value h. (
                                  h.0.0.0.0,
                                  h.0.1,
                                  h.1,
                                  h.0.0.1,
                                  ([], sighted s device value h.0.0.0.1 h.0.0.0.0.1),
                                ))
                                (λ s w h. h.0.0.0.0))
                              λ before.
                                let P = Prepared release device before in
                                bind (assign_lem P (λ s h. (h.0, (h.1, h.2, refl, h.3, h.4)))) λ _.
                                  bind (pass_lem P Untouched (λ s h. h.0) _) λ _.
                                    bind (demand_lem P Untouched (λ s h. h.0) _ _) λ _.
                                      bind (call_lem P Untouched (λ s h. h.0) _ (λ s w h. h)) λ _.
                                        bind (call_lem P Untouched (λ s h. h.0) _ (λ s w h. h)) λ _.
                                          bind
                                            (report_lem calls P P Untouched _ (λ s w h. h)
                                              (λ s w h. h.0))
                                            λ _. record { from = λ s h. h }

    pub back_up-BackedUp :
        (release : Package) (device : PinnedDevice) (before : Fields)
        → Triple
            (Prepared release device before)
            (back_up calls device)
            (λ _. BackedUp release device before)
            Untouched
    unfolding back_up verified_flash
    back_up-BackedUp release device before =
        let P = Prepared release device before in
        bind (assign_lem P (λ s h. h)) λ _.
          bind (call_lem P Untouched (λ s h. h.0) _ (λ s w h. h)) λ target.
            bind (assign_lem P (λ s h. h)) λ _. bind (demand_lem P Untouched (λ s h. h.0) _ _) λ _.
              bind (report_lem calls P P Untouched _ (λ s w h. h) (λ s w h. h.0)) λ _.
                bind (call_lem P Untouched (λ s h. h.0) _ (λ s w h. h)) λ _.
                  bind (call_lem P Untouched (λ s h. h.0) _ (λ s w h. h)) λ size.
                    bind (demand_lem P Untouched (λ s h. h.0) _ _) λ _.
                      bind (call_lem P Untouched (λ s h. h.0) _ (λ s w h. h)) λ digest.
                        bind
                          (verify_lem calls P P Untouched target backup _
                            (λ s w h. ((h.0.0, ap (verified_flash backup) h.0.1, h.0.2), h.1))
                            (λ s w h. h.0))
                          λ _.
                            bind (assign_lem (BackedUp release device before) (λ s h. (h, refl)))
                              λ _.
                                bind
                                  (report_lem calls (BackedUp release device before)
                                    (BackedUp release device before) Untouched _ (λ s w h. h)
                                    (λ s w h. h.0.0))
                                  λ _.
                                    bind
                                      (call_lem (BackedUp release device before) Untouched
                                        (λ s h. h.0.0) _ (λ s w h. h))
                                      λ _. record { from = λ s h. h }
