-- ===== src/Install/Evidence/Verified.antt =====
-- What a recovery that was verified has established.
use bosun_midi_captain.Base.{
  append_assoc, ap, ◌∙◌, String, ℕ, List, [], ◌∷◌, ◌++◌, ◌≡◌, refl, arith, Bool, true, false, none,
  some, ◌&&◌,
}
use bosun_midi_captain.Json.{Value, Fields, obj, get_or_null}
use bosun_midi_captain.Install.Snapshot.{
  Builtins, not_evidence, may_be_written, inconsistent_source, no_usb_identity, bad_usb_identity,
  device_changed, evidence_changed, compare_snapshot, require_snapshot, is_native, info_of,
  same_value,
}
use bosun_midi_captain.Install.Action.{PinnedDevice}
use bosun_midi_captain.Install.Transaction.{same_device, same_bool}
use bosun_midi_captain.Install.Evidence.{
  Place, Recovery, Sight, file, pinned, snapshot_of, recorded, as_object, is_false, device_fields,
  read_object, read_evidence, verify_recovery,
}
use bosun_midi_captain.Install.Evidence.Rules.{
  Holds, Sure, follow, weaken, ask_lem, watch_lem, assert_lem, no_error_lem, present_lem,
}

as_object-obj : (v : Value) (m : Fields) → as_object v ≡ some m → v ≡ obj m
as_object-obj (obj n) m e = ground (arith, e)
as_object-obj v m e = ground (arith, e)

and_true : (a b : Bool) → (a && b) ≡ true → (a ≡ true) × (b ≡ true)
and_true a b e = ground (arith, e)

joined :
    {b c : List Sight} (log : List Sight) (x y : Sight)
    → c ≡ b ++ y ∷ []
    → b ≡ log ++ x ∷ []
    → c ≡ log ++ x ∷ y ∷ []
joined {b} {c} log x y e f = e ∙ ap (λ l. l ++ y ∷ []) f ∙ append_assoc log (x ∷ []) (y ∷ [])

module _ {W : Type 0} where
  module _ ⦃py : Builtins⦄ (place : Place W) where
    -- Evidence of a job that never flagged the flash, with a usable snapshot and device.
    abbrev pub Sound : Fields → Fields → PinnedDevice → Type 0
    Sound journal before device =
        (is_false (get_or_null "flash_may_be_modified" journal) ≡ true)
        × (require_snapshot before ≡ none)
        × (same_value (get_or_null "source_version" journal) (get_or_null "fw" (info_of before))
            ≡ true)
        × (device_fields (get_or_null "device" journal) ≡ some device)

    read_object_lem :
        {log : List Sight} (name : String) (limit : ℕ)
        → Sure log (read_object place name limit) (λ m l. l ≡ log ++ file name (obj m) ∷ [])
    unfolding read_object
    read_object_lem {log} name limit =
        follow (watch_lem (file name) (place.read_file name limit)) λ value l e.
          weaken (λ m l' p. p.0 ∙ e ∙ ap (λ v. log ++ file name v ∷ []) (as_object-obj value m p.1))
            (present_lem (as_object value) not_evidence)

    -- The two files of the evidence, read one after the other.
    abbrev pub read_files : Fields → Fields → List Sight
    read_files journal before =
        file "journal.json" (obj journal) ∷ file "configuration-before.json" (obj before) ∷ []

    read_evidence_lem :
        {log : List Sight}
        → Sure log
            (read_evidence place)
            (λ e l. (l ≡ log ++ read_files e.0 e.1) × Sound e.0 e.1 e.2)
    unfolding read_evidence
    read_evidence_lem {log} = follow (ask_lem place.check_directory) λ _ l₀ e₀.
        follow (read_object_lem "journal.json" 65536) λ journal l₁ e₁.
          follow (read_object_lem "configuration-before.json" 16777216) λ before l₂ e₂.
            follow (assert_lem _ may_be_written) λ _ l₃ p₃.
              follow (no_error_lem (require_snapshot before)) λ _ l₄ p₄.
                follow (assert_lem _ inconsistent_source) λ _ l₅ p₅.
                  follow (assert_lem _ no_usb_identity) λ _ l₆ p₆.
                    follow
                      (present_lem (device_fields (get_or_null "device" journal)) bad_usb_identity)
                      λ device l₇ p₇. record {
                        at = λ w. (
                          joined _ _ _ (p₇.0 ∙ p₆.0 ∙ p₅.0 ∙ p₄.0 ∙ p₃.0 ∙ e₂)
                              (e₁ ∙ ap (λ l. l ++ file "journal.json" (obj journal) ∷ []) e₀),
                          (p₃.1, p₄.1, p₅.1, p₇.1),
                        );
                      }

    -- The recovery that is returned, and what verify_prewrite_recovery saw for it.
    abbrev pub Verified : PinnedDevice → Recovery → List Sight → Type 0
    Verified expected r log =
        (device : PinnedDevice) × (found : PinnedDevice) × (still : PinnedDevice)
        × (journal : Fields) × (before : Fields) × (log
            ≡ read_files r.journal r.before
              ++ pinned found
                ∷ snapshot_of device r.after
                ∷ pinned still
                ∷ read_files journal before
              ++ recorded r.journal r.after ∷ [])
        × Sound r.journal r.before device
        × (same_device device expected ≡ true)
        × (same_device found device ≡ true)
        × (same_device still device ≡ true)
        × (same_value (obj journal) (obj r.journal) ≡ true)
        × (same_value (obj before) (obj r.before) ≡ true)
        × (compare_snapshot r.before r.after (get_or_null "source_version" r.journal) ≡ none)
        × (same_bool (is_native (info_of r.before)) (is_native (info_of r.after)) ≡ true)

    verify_recovery_lem :
        (expected : PinnedDevice) → Sure [] (verify_recovery place expected) (Verified expected)
    unfolding verify_recovery
    verify_recovery_lem expected =
        follow read_evidence_lem λ (journal, before, device) l₀ (e₀, sound).
          follow (assert_lem (same_device device expected) device_changed) λ _ l₁ p₁.
            follow (watch_lem pinned place.pin) λ found l₂ e₂.
              follow (assert_lem (same_device found device) device_changed) λ _ l₃ p₃.
                follow
                  (watch_lem (snapshot_of device)
                    (place.snapshot device false (some (info_of before))))
                  λ after l₄ e₄.
                    follow
                      (no_error_lem
                        (compare_snapshot before after (get_or_null "source_version" journal)))
                      λ _ l₅ p₅.
                        follow
                          (assert_lem
                            (same_bool (is_native (info_of before)) (is_native (info_of after)))
                            device_changed)
                          λ _ l₆ p₆. follow (watch_lem pinned place.pin) λ still l₇ e₇.
                            follow (assert_lem (same_device still device) device_changed) λ _ l₈ p₈.
                              follow read_evidence_lem λ (journal', before', device') l₉ (e₉, _).
                                follow
                                  (assert_lem
                                    (same_value (obj journal') (obj journal)
                                      && same_value (obj before') (obj before))
                                    evidence_changed)
                                  λ _ l₁₀ p₁₀.
                                    follow
                                      (watch_lem (λ _. recorded journal after)
                                        (place.write_record journal after))
                                      λ _ l₁₁ e₁₁.
                                        let same =
                                          and_true (same_value (obj journal') (obj journal))
                                            (same_value (obj before') (obj before)) p₁₀.1 in
                                        record {
                                          at = λ w. (
                                            device,
                                            found,
                                            still,
                                            journal',
                                            before',
                                            rw
                                                (
                                                  e₁₁, p₁₀.0, e₉, p₈.0, e₇, p₆.0, p₅.0, e₄, p₃.0,
                                                  e₂, p₁.0, e₀,
                                                )
                                                refl,
                                            sound,
                                            p₁.1,
                                            p₃.1,
                                            p₈.1,
                                            same.0,
                                            same.1,
                                            p₅.1,
                                            p₆.1,
                                          );
                                        }

    -- If verify_prewrite_recovery returns, then it has, in this order: read the evidence, which is
    -- sound and names the expected device; pinned a connected device equal to it; taken the snapshot
    -- `after` of that device, which agrees with the snapshot of the evidence at the journal's
    -- version and kind of firmware; pinned the same device again; read the evidence again with the
    -- same values; and last written the record of that journal and that snapshot.
    pub verify_recovery-Verified :
        (expected : PinnedDevice) (w : W)
        → Holds (Verified expected) (verify_recovery place expected (w, []))
    verify_recovery-Verified expected w = (verify_recovery_lem expected).at w
