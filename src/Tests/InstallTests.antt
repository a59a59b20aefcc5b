-- ===== src/Tests/InstallTests.antt =====
-- The firmware transaction at concrete inputs.
use bosun_midi_captain.Base.{
  [], ℕ, ◌+◌, ◌==◌, same_nat, same_text, if◌then◌else◌, true, false, none, some,
}
use bosun_midi_captain.Json.{Fields, str, int, arr, item, no_items, bool, obj, no_entries, entry}
use bosun_midi_captain.Update.Uf2.{flash_bytes}
use bosun_midi_captain.Install.Snapshot.{Builtins, outside}
use bosun_midi_captain.Install.Action.{CallResult, done, raised, PinnedDevice, BootDevice, Calls}
use bosun_midi_captain.Base.Int.{pos, negsuc}
use bosun_midi_captain.Install.Evidence.{Place, verify_recovery}
use bosun_midi_captain.Install.Evidence.Rules.{Holds}
use bosun_midi_captain.Install.Evidence.Verified.{Verified, verify_recovery-Verified}
use bosun_midi_captain.Install.Inventory.{patch_inventory}
use bosun_midi_captain.Install.Inventory.Complete.{Complete, patch_inventory-Complete}

instance abbrev builtins : Builtins
builtins = record { show = λ v. "?"; is_zero = λ t. false; same_float = λ t v. false }

abbrev captain : PinnedDevice
captain = record { usb_path = "/sys/1"; serial = "0123456789ABCDEF"; data_interface = "02" }

abbrev rom : BootDevice
rom = record { unique_id = "0123456789ABCDEF"; flash_size = flash_bytes; rom_serial = "ROM" }

abbrev info : Fields
info = entry "fw" (str "1.0-native") (entry "native_experimental" (bool true) no_entries)

abbrev configuration_now : Fields
configuration_now =
    entry "info" (obj info) (entry "active" (str "") (entry "profiles" (obj no_entries) no_entries))

-- The world counts the calls; every call succeeds but the load of the firmware.
abbrev yields {ℓ} : {A : Type ℓ} → A → ℕ → CallResult A × ℕ
yields a w = (done a, w)

abbrev calls : Calls ℕ
calls = record {
  validate = yields (record { release = "2.0"; firmware_version = "2.0-native" });
  open_io = yields true;
  pin = yields captain;
  snapshot = λ d dirty expected. yields configuration_now;
  enter_bootloader = λ d. yields rom;
  recover_bootloader = λ d. yields rom;
  save_flash = λ t. yields tt;
  verify = λ t i a. yields tt;
  load = λ t i a w. elim a [ none ↦ (raised (outside "stalled"), w) | some n ↦ (done tt, w) ];
  reboot = λ t. yields tt;
  write_before = λ f. yields tt;
  write_firmware = yields tt;
  write_storage = yields tt;
  write_after = λ f. yields tt;
  write_journal = λ j. yields tt;
  backup_size = yields flash_bytes;
  backup_digest = yields "digest";
}

abbrev old_journal : Fields
old_journal = entry "flash_may_be_modified" (bool false) (
    entry "source_version" (str "1.0-native") (
      entry "device"
        (obj (entry "usb_path" (str "/sys/1") (entry "serial" (str "0123456789ABCDEF") no_entries)))
        no_entries))

abbrev place : Place ℕ
place = record {
  check_directory = yields tt;
  read_file = λ name limit.
      yields (obj (if name == "journal.json" then old_journal else configuration_now));
  pin = yields captain;
  snapshot = λ d dirty expected. yields configuration_now;
  write_record = λ j f. yields tt;
}

verify_recovery-Verified_example :
    Holds (Verified place captain) (verify_recovery place captain (0, []))
verify_recovery-Verified_example = verify_recovery-Verified place captain 0

-- Two pages of one patch each.
abbrev page_at : ℕ → Fields
page_at n = entry "profile" (str "live") (
    entry "patches" (arr (item (int (pos n)) no_items)) (
      entry "revision" (int (pos 7)) (
        entry "total" (int (pos 2)) (
          entry "offset" (int (pos n))
            (entry "next_offset" (if n == 0 then int (pos 1) else int (negsuc 0)) no_entries)))))

abbrev pages : ℕ → ℕ → CallResult Fields × ℕ
pages n w = (done (page_at n), w + 1)

patch_inventory-Complete_example : Complete pages "live" (patch_inventory pages "live" 0)
patch_inventory-Complete_example = patch_inventory-Complete pages "live" 0
