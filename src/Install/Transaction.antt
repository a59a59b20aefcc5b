-- ===== src/Install/Transaction.antt =====
-- tools/rpi-hub/bosun_hub/firmware_install.py: FirmwareInstaller.run. The stages are cut where the
-- local flags that the handler of exceptions tests change. The progress callback, whose exceptions are
-- swallowed, and the times in the journal are left out.
pub mod Triple
pub mod States
pub mod Stages
pub mod Flashing
pub mod Recovery
pub mod Outcomes
use Prim.Native.Char.{Char, code}
use bosun_midi_captain.Base.{
  ℕ, ◌+◌, ◌-◌, String, Bool, true, false, Option, none, some, List, [], ◌∷◌, ◌++◌, leb, ◌==◌, ◌&&◌,
  ◌||◌, not, same_nat, same_text, if◌then◌else◌,
}
use bosun_midi_captain.Json.{Value, Fields, str, get_or_null}
use bosun_midi_captain.Update.Uf2.{flash_base, flash_bytes, storage_offset}
use bosun_midi_captain.Install.Snapshot.{
  Builtins, InstallError, outside, not_bosun, no_identity, device_changed, firmware_changed,
  wrong_geometry, incomplete_backup, backup_mismatch, rollback_target_changed, key_error,
  require_snapshot, compare_snapshot, is_native, info_of, same_value,
}
use bosun_midi_captain.Install.Action.{
  CallResult, done, raised, PinnedDevice, BootDevice, Image, firmware, backup, storage, Package,
  Status, running, complete, failed, rolled_back, manual_recovery, Phase, preflight,
  reading_configuration, entering_bootloader, backing_up_flash, backup_verified, flashing_firmware,
  rebooting, verifying_configuration, rolling_back, ended, Journal, Calls, Flash, untouched,
  written, checked, updated, Load, Run, Action, ◌>>=◌, ◌>>◌, raise, demand, pass, need, call,
  assign,
}

-- A == B of two PinnedDevices.
unfoldable pub same_device : PinnedDevice → PinnedDevice → Bool
same_device a b =
    a.usb_path == b.usb_path && a.serial == b.serial && a.data_interface == b.data_interface

unfoldable pub is_expected : Option PinnedDevice → PinnedDevice → Bool
is_expected none d = true
is_expected (some e) d = same_device d e

unfoldable pub upper_code : ℕ → ℕ
upper_code c = if leb 97 c && leb c 122 then c - 32 else c

-- s.upper() == t.upper(), for ASCII texts.
unfoldable pub same_upper : String → String → Bool
same_upper String.[] String.[] = true
same_upper (String.◌∷◌ c s) (String.◌∷◌ d t) =
    let rest = same_upper s t in upper_code (code c) == upper_code (code d) && rest
same_upper _ _ = false

abbrev pub is_none {ℓ} : {A : Type ℓ} → Option A → Bool
is_none none = true
is_none (some a) = false

abbrev pub same_bool : Bool → Bool → Bool
same_bool true b = b
same_bool false b = not b

-- A journal that does not flag the flash counts as none.
abbrev pub is_flagged : Option Journal → Bool
is_flagged none = false
is_flagged (some j) = j.flash_may_be_modified

-- What a load and a successful verify do to the history.
unfoldable pub verified_flash : Image → Flash → Flash
verified_flash firmware (written firmware) = checked firmware
verified_flash backup (written backup) = checked backup
verified_flash storage (written storage) = checked storage
verified_flash storage (checked firmware) = updated
verified_flash image flash = flash

module _ {W : Type 0} (calls : Calls W) where
  -- report(phase, required=required, **values)
  unfoldable pub report : Bool → (Journal → Journal) → Action W (Unit {0})
  report required values s =
      let state = values s.state in
      let (r, w) = calls.write_journal state s.world in
      elim r [
        | done u ↦ (done tt, record s { world = w; state = state; durable = some state })
        | raised e ↦
            if required
            then (raised e, record s { world = w; state = state })
            else (done tt, record s { world = w; state = record state { journal_error = some e } })
      ]

  -- io.load and io.verify, with their history.
  unfoldable pub load_image : BootDevice → Image → Option ℕ → Action W (Unit {0})
  load_image target image address s =
      let (r, w) = calls.load target image address s.world in
      (
        r,
        record s {
          world = w;
          flash = written image;
          loads =
              s.loads
              ++ record {
                image = image;
                flagged = is_flagged s.durable;
                backed_up = s.verified_backup;
                started = s.writes_started;
              }
                ∷ [];
        },
      )

  unfoldable pub verify_image : BootDevice → Image → Option ℕ → Action W (Unit {0})
  verify_image target image address s =
      let (r, w) = calls.verify target image address s.world in
      elim r [
        | done u ↦ (done tt, record s { world = w; flash = verified_flash image s.flash })
        | raised e ↦ (raised e, record s { world = w })
      ]

  -- io.snapshot, with its history.
  unfoldable pub take_snapshot : PinnedDevice → Bool → Option Fields → Action W Fields
  take_snapshot device dirty expected s =
      let (r, w) = calls.snapshot device dirty expected s.world in
      elim r [
        | done value ↦ (
          done value,
          record s {
            world = w;
            seen = s.seen ++ record { device = device; value = value; flash = s.flash } ∷ [];
          },
        )
        | raised e ↦ (raised e, record s { world = w })
      ]

  abbrev pub enter : Phase → Journal → Journal
  enter phase j = record j { phase = phase }

  module _ ⦃py : Builtins⦄ (expected_info : Fields) (expected_device : Option PinnedDevice) where
    -- The try block up to the report of `entering_bootloader`.
    unfoldable pub prepare : Action W (Package × PinnedDevice × Fields)
    prepare = do
      release ← call calls.validate
      assign (λ s. record s { release = some release })
      demand (is_native expected_info) not_bosun
      is_linux ← call calls.open_io
      assign (λ s. record s { has_io = true })
      demand (not (is_linux && is_none expected_device)) no_identity
      device ← call calls.pin
      assign (λ s. record s { device = some device })
      demand (is_expected expected_device device) device_changed
      report true (enter reading_configuration)
      before ← take_snapshot device true (some expected_info)
      assign (λ s. record s { before = some before })
      pass (require_snapshot before)
      demand
          (same_value (get_or_null "fw" (info_of before)) (get_or_null "fw" expected_info)
            && same_bool (is_native (info_of before)) (is_native expected_info))
          firmware_changed
      call (calls.write_before before)
      call calls.write_firmware
      report true (enter entering_bootloader)
      λ s. (done (release, device, before), s)

  -- From `entered_bootloader = True` to the settings' copy: the backup of the whole flash.
  unfoldable pub back_up : PinnedDevice → Action W BootDevice
  back_up device = do
    assign (λ s. record s { entered_bootloader = true })
    target ← call (calls.enter_bootloader device)
    assign (λ s. record s { target = some target })
    demand (target.flash_size == flash_bytes && same_upper target.unique_id device.serial)
        wrong_geometry
    report true (enter backing_up_flash)
    call (calls.save_flash target)
    size ← call calls.backup_size
    demand (size == flash_bytes) incomplete_backup
    digest ← call calls.backup_digest
    verify_image target backup (some flash_base)
    assign (λ s. record s { verified_backup = true })
    report true (λ j. record j { phase = backup_verified; backup_sha256 = some digest })
    call calls.write_storage
    λ s. (done target, s)

  module _ ⦃py : Builtins⦄ where
    -- From `writes_started = True` to the end of the try block.
    unfoldable pub flash_firmware :
        Package → PinnedDevice → Fields → BootDevice → Action W (Unit {0})
    flash_firmware release device before target = do
      assign (λ s. record s { writes_started = true })
      report true (λ j. record j { phase = flashing_firmware; flash_may_be_modified = true })
      load_image target firmware none
      verify_image target firmware none
      verify_image target storage (some (flash_base + storage_offset))
      report true (enter rebooting)
      call (calls.reboot target)
      report true (enter verifying_configuration)
      after ← take_snapshot device false none
      pass (compare_snapshot before after (str release.firmware_version))
      demand (is_native (info_of after)) not_bosun
      call (calls.write_after after)
      report true (λ j. record j {
        phase = ended complete;
        status = complete;
        configuration_verified = true;
      })

    -- The try block of the rollback.
    unfoldable pub restore :
        PinnedDevice → Fields → Option BootDevice → InstallError → Action W (Unit {0})
    restore device before target error = do
      report false (λ j. record j { phase = rolling_back; error = some error })
      size ← call calls.backup_size
      demand (size == flash_bytes) backup_mismatch
      digest ← call calls.backup_digest
      expected ← λ s. need s.state.backup_sha256 key_error s
      demand (digest == expected) backup_mismatch
      recovery ← call (calls.recover_bootloader device)
      original ← need target key_error
      demand
          (recovery.unique_id == original.unique_id
            && recovery.flash_size == flash_bytes
            && recovery.rom_serial == original.rom_serial)
          rollback_target_changed
      load_image recovery backup (some flash_base)
      verify_image recovery backup (some flash_base)
      report false (λ j. record j { phase = rolling_back; rollback_flash_verified = true })
      call (calls.reboot recovery)
      restored ← take_snapshot device false none
      pass (compare_snapshot before restored (get_or_null "fw" (info_of before)))
      report false (λ j. record j {
        phase = ended rolled_back;
        status = rolled_back;
        error = some error;
        rollback_verified = true;
      })

    -- The handler's first branch, where the flash may have been written.
    unfoldable pub roll_back : PinnedDevice → Fields → InstallError → Action W (Unit {0})
    roll_back device before error s =
        let (r, s') = restore device before s.target error s in
        elim r [
          | done u ↦ (done tt, s')
          | raised e ↦
              report false
                (λ j. record j {
                  phase = ended manual_recovery;
                  status = manual_recovery;
                  error = some error;
                  recovery_error = some e;
                  rollback_verified = false;
                })
                s'
        ]

    -- The Captain is sent back to its firmware.
    unfoldable pub leave_bootloader : PinnedDevice → Action W (Unit {0})
    leave_bootloader device = do
      target ← call (calls.recover_bootloader device)
      assign (λ s. record s { target = some target })
      call (calls.reboot target)

    unfoldable pub resume : Bool → Bool → Option PinnedDevice → Action W (Option InstallError)
    resume true true (some device) s =
        let (r, s') = leave_bootloader device s in
        elim r [ done u ↦ (done none, s') | raised e ↦ (done (some e), s') ]
    resume _ _ _ s = (done none, s)

    -- "manual_recovery" if recovery_error else "failed": an exception with no text counts as none.
    unfoldable pub status_of : Option InstallError → Status
    status_of none = failed
    status_of (some (outside text)) = if text == "" then failed else manual_recovery
    status_of (some e) = manual_recovery

    -- The handler's second branch, where nothing was written.
    unfoldable pub give_up : InstallError → Action W (Unit {0})
    give_up error = do
      problem ← λ s. resume s.entered_bootloader s.has_io s.device s
      report false (λ j. record j {
        phase = ended (status_of problem);
        status = status_of problem;
        error = some error;
        recovery_error = problem;
        flash_may_be_modified = false;
      })

    unfoldable pub handle_with :
        Bool → Option PinnedDevice → Option Fields → InstallError → Action W (Unit {0})
    handle_with true (some device) (some before) error = roll_back device before error
    handle_with _ _ _ error = give_up error

    -- except Exception as error
    unfoldable pub handle_error : InstallError → Action W (Unit {0})
    handle_error error s =
        handle_with (s.writes_started && s.verified_backup && s.has_io) s.device s.before error s

  module _ ⦃py : Builtins⦄ (expected_info : Fields) (expected_device : Option PinnedDevice) where
    -- The try block.
    unfoldable pub install : Action W (Unit {0})
    install = do
      (release, device, before) ← prepare expected_info expected_device
      target ← back_up device
      flash_firmware release device before target

    -- The try block with its handler.
    unfoldable pub try_install : Action W (Unit {0})
    try_install s =
        let (r, s') = install s in elim r [ done u ↦ (done tt, s') | raised e ↦ handle_error e s' ]

    -- FirmwareInstaller.run from its first report on.
    unfoldable pub run : Action W Journal
    run = do report true (enter preflight); try_install; λ s. (done s.state, s)

abbrev pub initial_journal : Journal
initial_journal = record {
  status = running;
  phase = preflight;
  flash_may_be_modified = false;
  backup_sha256 = none;
  error = none;
  recovery_error = none;
  configuration_verified = false;
  rollback_flash_verified = false;
  rollback_verified = false;
  journal_error = none;
}

-- The local variables before the first report; `has_io` says whether an InstallIO was given.
abbrev pub initial_run : {W : Type 0} → Bool → W → Run W
initial_run has_io w = record {
  world = w;
  state = initial_journal;
  durable = none;
  has_io = has_io;
  device = none;
  release = none;
  before = none;
  target = none;
  verified_backup = false;
  entered_bootloader = false;
  writes_started = false;
  flash = untouched;
  loads = [];
  seen = [];
}
