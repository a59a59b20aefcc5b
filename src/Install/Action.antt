-- ===== src/Install/Action.antt =====
-- tools/rpi-hub/bosun_hub/firmware_install.py: the interface InstallIO, the files of a job and the
-- update package as a record of calls on an outside world `W`; the local variables of
-- FirmwareInstaller.run with its journal; and actions, which keep what they changed when they raise.
use bosun_midi_captain.Base.{ℕ, String, Bool, Option, none, some, List, if◌then◌else◌, same_text}
use bosun_midi_captain.Json.{Fields}
use bosun_midi_captain.Install.Snapshot.{InstallError}

-- What a call returns or raises.
pub data CallResult {ℓ} (A : Type ℓ) : Type ℓ where
  done : A → CallResult A
  raised : InstallError → CallResult A

-- PinnedDevice
pub record PinnedDevice : Type 0 where
  pub usb_path : String
  pub serial : String
  pub data_interface : String

-- BootDevice without its PinnedDevice.
pub record BootDevice : Type 0 where
  pub unique_id : String
  pub flash_size : ℕ
  pub rom_serial : String

-- The images that the transaction loads and verifies: firmware.uf2, full-flash-before.bin and
-- native-storage.bin of the job's directory.
pub data Image : Type 0 where
  firmware backup storage : Image

-- What the transaction reads of a validated package.
pub record Package : Type 0 where
  pub release : String
  pub firmware_version : String

pub data Status : Type 0 where
  running complete failed rolled_back manual_recovery : Status

pub data Phase : Type 0 where
  preflight reading_configuration entering_bootloader backing_up_flash backup_verified : Phase
  flashing_firmware rebooting verifying_configuration rolling_back : Phase
  ended : Status → Phase

-- The dict `state`, as far as a decision or a reader depends on it.
pub record Journal : Type 0 where
  pub status : Status
  pub phase : Phase
  pub flash_may_be_modified : Bool
  pub backup_sha256 : Option String
  pub error : Option InstallError
  pub recovery_error : Option InstallError
  pub configuration_verified : Bool
  pub rollback_flash_verified : Bool
  pub rollback_verified : Bool
  pub journal_error : Option InstallError

-- Calls out of the transaction: InstallIO, validate_update_package, the writing of the job's files
-- (_write_new, with its fsync) and of the journal, and the reading of the backup with its size test,
-- fsync and SHA-256. Any of them may raise.
pub record Calls (W : Type 0) : Type 0 where
  pub validate : W → CallResult Package × W
  pub open_io : W → CallResult Bool × W
  pub pin : W → CallResult PinnedDevice × W
  pub snapshot : PinnedDevice → Bool → Option Fields → W → CallResult Fields × W
  pub enter_bootloader : PinnedDevice → W → CallResult BootDevice × W
  pub recover_bootloader : PinnedDevice → W → CallResult BootDevice × W
  pub save_flash : BootDevice → W → CallResult (Unit {0}) × W
  pub verify : BootDevice → Image → Option ℕ → W → CallResult (Unit {0}) × W
  pub load : BootDevice → Image → Option ℕ → W → CallResult (Unit {0}) × W
  pub reboot : BootDevice → W → CallResult (Unit {0}) × W
  pub write_before : Fields → W → CallResult (Unit {0}) × W
  pub write_firmware : W → CallResult (Unit {0}) × W
  pub write_storage : W → CallResult (Unit {0}) × W
  pub write_after : Fields → W → CallResult (Unit {0}) × W
  pub write_journal : Journal → W → CallResult (Unit {0}) × W
  -- The size of full-flash-before.bin, and its digest once it is synced.
  pub backup_size : W → CallResult ℕ × W
  pub backup_digest : W → CallResult String × W

-- What the calls on the flash have established: nothing was loaded; an image was loaded, wholly or
-- in part; it was verified after that; the firmware and then the settings were verified.
pub data Flash : Type 0 where
  untouched : Flash
  written : Image → Flash
  checked : Image → Flash
  updated : Flash

-- One call of load: the image, whether the journal on the disk said then that the flash may be
-- modified, whether a full backup had been verified, and whether `writes_started` was set.
pub record Load : Type 0 where
  pub image : Image
  pub flagged : Bool
  pub backed_up : Bool
  pub started : Bool

-- One snapshot that was returned: of which device, and after which history of the flash.
pub record Sighting : Type 0 where
  pub device : PinnedDevice
  pub value : Fields
  pub flash : Flash

-- The local variables of `run`. `durable` is the last journal whose write succeeded; `flash`,
-- `loads` and `seen` are the history of the calls on the flash and of the snapshots. `release` is the
-- variable `package`.
pub record Run (W : Type 0) : Type 0 where
  pub world : W
  pub state : Journal
  pub durable : Option Journal
  pub has_io : Bool
  pub device : Option PinnedDevice
  pub release : Option Package
  pub before : Option Fields
  pub target : Option BootDevice
  pub verified_backup : Bool
  pub entered_bootloader : Bool
  pub writes_started : Bool
  pub flash : Flash
  pub loads : List Load
  pub seen : List Sighting

abbrev pub Action : Type 0 → Type 0 → Type 0
Action W A = Run W → CallResult A × Run W

module _ {W : Type 0} where
  infixl 5 ◌>>=◌ ◌>>◌
  unfoldable pub ◌>>=◌ : {A B : Type 0} → Action W A → (A → Action W B) → Action W B
  ◌>>=◌ m f s = let (r, s') = m s in elim r [ done a ↦ f a s' | raised e ↦ (raised e, s') ]

  abbrev pub ◌>>◌ : {A B : Type 0} → Action W A → Action W B → Action W B
  m >> k = m >>= λ _. k

  abbrev pub raise : {A : Type 0} → InstallError → Action W A
  raise e s = (raised e, s)

  -- if not test: raise
  unfoldable pub demand : Bool → InstallError → Action W (Unit {0})
  demand b e s = if b then (done tt, s) else (raised e, s)

  -- A check that gives its exception.
  unfoldable pub pass : Option InstallError → Action W (Unit {0})
  pass none s = (done tt, s)
  pass (some e) s = (raised e, s)

  -- A local variable that must be there.
  unfoldable pub need : {A : Type 0} → Option A → InstallError → Action W A
  need none e s = (raised e, s)
  need (some a) e s = (done a, s)

  -- A call that changes nothing but the world.
  unfoldable pub call : {A : Type 0} → (W → CallResult A × W) → Action W A
  call f s = let (r, w) = f s.world in (r, record s { world = w })

  -- An assignment to local variables.
  unfoldable pub assign : (Run W → Run W) → Action W (Unit {0})
  assign f s = (done tt, f s)
