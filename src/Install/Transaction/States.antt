-- ===== src/Install/Transaction/States.antt =====
-- The conditions on the local variables of FirmwareInstaller.run between its stages.
use bosun_midi_captain.Base.{List, ◌≡◌, true, false, none, some, [], ◌∷◌, ◌++◌, ◌⊎◌}
use bosun_midi_captain.Json.{Fields, str}
use bosun_midi_captain.Install.Snapshot.{Builtins, compare_snapshot}
use bosun_midi_captain.Install.Action.{
  PinnedDevice, firmware, Package, Flash, untouched, updated, Load, Sighting, Run, complete,
}
use bosun_midi_captain.Install.Transaction.{is_flagged}

-- The one load of the firmware, behind the write-ahead journal and the verified backup.
abbrev pub firmware_load : Load
firmware_load = record { image = firmware; flagged = true; backed_up = true; started = true }

module _ {W : Type 0} where
  -- Nothing was loaded, and the handler will not roll back.
  abbrev pub Untouched : Run W → Type 0
  Untouched s = (s.loads ≡ []) × (s.flash ≡ untouched) × (s.writes_started ≡ false)

  -- The first and the last snapshot that were returned: of the device, with this value, after this
  -- history of the flash.
  abbrev pub FirstSeen : PinnedDevice → Fields → Flash → Run W → Type 0
  FirstSeen device value flash s =
      (rest : List Sighting) × (s.seen
        ≡ record { device = device; value = value; flash = flash } ∷ rest)

  abbrev pub LastSeen : PinnedDevice → Fields → Flash → Run W → Type 0
  LastSeen device value flash s =
      (rest : List Sighting) × (s.seen
        ≡ rest ++ record { device = device; value = value; flash = flash } ∷ [])

  -- The handler knows the device and its configuration, which is the first snapshot that was taken
  -- of it, and the package is the one that was validated.
  abbrev pub Known : Package → PinnedDevice → Fields → Run W → Type 0
  Known release device before s =
      (s.has_io ≡ true)
      × (s.device ≡ some device)
      × (s.before ≡ some before)
      × (s.release ≡ some release)
      × FirstSeen device before untouched s

  -- Nothing was read of the Captain either.
  abbrev pub Fresh : Run W → Type 0
  Fresh s = Untouched s × (s.seen ≡ [])

  abbrev pub HasPackage : Package → Run W → Type 0
  HasPackage release s = Fresh s × (s.release ≡ some release)

  abbrev pub HasIo : Package → Run W → Type 0
  HasIo release s = HasPackage release s × (s.has_io ≡ true)

  abbrev pub HasDevice : Package → PinnedDevice → Run W → Type 0
  HasDevice release device s = HasIo release s × (s.device ≡ some device)

  abbrev pub HasSeen : Package → PinnedDevice → Fields → Run W → Type 0
  HasSeen release device before s =
      Untouched s
      × (s.has_io ≡ true)
      × (s.device ≡ some device)
      × (s.release ≡ some release)
      × FirstSeen device before untouched s

  abbrev pub Prepared : Package → PinnedDevice → Fields → Run W → Type 0
  Prepared release device before s = Untouched s × Known release device before s

  abbrev pub BackedUp : Package → PinnedDevice → Fields → Run W → Type 0
  BackedUp release device before s = Prepared release device before s × (s.verified_backup ≡ true)

  -- The state says that the flash may be modified, and so does the journal on the disk.
  abbrev pub Flagged : Run W → Type 0
  Flagged s = (s.state.flash_may_be_modified ≡ true) × (is_flagged s.durable ≡ true)

  -- What the handler needs to roll back.
  abbrev pub Ready : Package → PinnedDevice → Fields → Run W → Type 0
  Ready release device before s =
      Known release device before s × (s.verified_backup ≡ true) × (s.writes_started ≡ true)

  abbrev pub Started : Package → PinnedDevice → Fields → Run W → Type 0
  Started release device before s =
      Ready release device before s × (s.loads ≡ []) × (s.flash ≡ untouched)

  abbrev pub Loaded : Package → PinnedDevice → Fields → Flash → Run W → Type 0
  Loaded release device before flash s =
      Ready release device before s × Flagged s × (s.loads ≡ firmware_load ∷ []) × (s.flash ≡ flash)

  -- After a raise: nothing was loaded, or the firmware was, with everything in place for it.
  abbrev pub Held : Package → PinnedDevice → Fields → Run W → Type 0
  Held release device before s =
      Ready release device before s
      × ((s.loads ≡ []) ⊎ (Flagged s × (s.loads ≡ firmware_load ∷ [])))

  -- The firmware and the settings' region were verified after the one load, the Captain's
  -- configuration is that from before under the new version, and the journal on the disk says so.
  abbrev pub Done : ⦃py : Builtins⦄ → Package → PinnedDevice → Fields → Run W → Type 0
  Done release device before s =
      (s.loads ≡ firmware_load ∷ [])
      × (s.flash ≡ updated)
      × (s.state.status ≡ complete)
      × (s.durable ≡ some s.state)
      × Known release device before s
      × ((after : Fields) × LastSeen device after updated s
          × (compare_snapshot before after (str release.firmware_version) ≡ none))
