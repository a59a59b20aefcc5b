-- ===== src/Install/Transaction/Outcomes.antt =====
-- What FirmwareInstaller.run returns.
use bosun_midi_captain.Base.{◌≡◌, Option, none, some, [], ◌∷◌, ◌⊎◌}
use bosun_midi_captain.Json.{Fields, Value, str, get_or_null}
use bosun_midi_captain.Install.Snapshot.{Builtins, compare_snapshot, info_of}
use bosun_midi_captain.Install.Action.{
  PinnedDevice, Status, running, complete, failed, rolled_back, Flash, untouched, Package,
  manual_recovery, Calls, checked, updated, Run, Action, backup,
}
use bosun_midi_captain.Install.Transaction.Triple.{Triple}
use bosun_midi_captain.Install.Transaction.States.{
  firmware_load, Untouched, FirstSeen, LastSeen, Held, Done,
}
use bosun_midi_captain.Install.Transaction.Recovery.{Ordered}

module _ {W : Type 0} ⦃py : Builtins⦄ (calls : Calls W) (info : Fields)
    (expected : Option PinnedDevice) where
  -- The try block ends, or raises before any write, or raises where the handler can roll back.
  Raised : Run W → Type 0
  Raised s =
      Untouched s
      ⊎ ((release : Package) × (device : PinnedDevice) × (before : Fields) × Held release device
            before s)

  Finished : Run W → Type 0
  Finished s =
      (release : Package) × (device : PinnedDevice) × (before : Fields) × Done release device before
        s

  -- The first snapshot was taken before any load. The last one was taken of the same device after
  -- this history of the flash, and it is the configuration of the first one, under a version that
  -- depends on the package and on the first one.
  abbrev pub Same : (Package → Fields → Value) → Flash → Run W → Type 0
  Same version flash s =
      (release : Package) × (device : PinnedDevice) × (before : Fields) × (after : Fields)
      × (s.release ≡ some release)
      × (s.device ≡ some device)
      × (s.before ≡ some before)
      × FirstSeen device before untouched s
      × LastSeen device after flash s
      × (compare_snapshot before after (version release before) ≡ none)

  -- What a status promises.
  abbrev pub Means : Status → Run W → Type 0
  Means running s = ⊥
  Means complete s =
      (s.loads ≡ firmware_load ∷ [])
      × (s.flash ≡ updated)
      × (s.durable ≡ some s.state)
      × Same (λ release before. str release.firmware_version) updated s
  Means failed s = s.loads ≡ []
  Means rolled_back s =
      (s.flash ≡ checked backup)
      × Same (λ release before. get_or_null "fw" (info_of before)) (checked backup) s
  Means manual_recovery s = Unit

  abbrev pub Ended : Run W → Type 0
  Ended s = Ordered s × Means s.state.status s
