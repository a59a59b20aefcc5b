-- ===== src/Install/Evidence.antt =====
-- tools/rpi-hub/bosun_hub/firmware_install.py: read_prewrite_recovery and verify_prewrite_recovery,
-- which check a Captain that came back without a flash. `Place` has the calls on the installation's
-- directory and on the device; any of them may raise. The list of what was seen is for the theorems:
-- no step reads it.
pub mod Rules
pub mod Verified
use Prim.Native.Char.{code}
use text.Mathlib.Text.{starts_with}
use bosun_midi_captain.Base.{
  ℕ, zero, suc, String, Bool, true, false, Option, none, some, List, [], ◌∷◌, leb, ◌==◌, ◌&&◌, ◌||◌,
  not, ◌++◌, same_text, if◌then◌else◌,
}
use bosun_midi_captain.Json.{
  Value, Fields, obj, str, bool, get_field, get_or_null, has_field, has_other_key,
}
use bosun_midi_captain.Install.Snapshot.{
  Builtins, InstallError, not_evidence, may_be_written, inconsistent_source, no_usb_identity,
  bad_usb_identity, device_changed, evidence_changed, compare_snapshot, require_snapshot, is_native,
  info_of, same_value,
}
use bosun_midi_captain.Install.Action.{CallResult, done, raised, PinnedDevice}
use bosun_midi_captain.Install.Transaction.{same_device, same_bool}

-- `check_directory` tests the path, `read_file` tests the file, its size and parses it.
pub record Place (W : Type 0) : Type 0 where
  pub check_directory : W → CallResult (Unit {0}) × W
  pub read_file : String → ℕ → W → CallResult Value × W
  pub pin : W → CallResult PinnedDevice × W
  pub snapshot : PinnedDevice → Bool → Option Fields → W → CallResult Fields × W
  pub write_record : Fields → Fields → W → CallResult (Unit {0}) × W

-- What verify_prewrite_recovery has seen and done, in order, for the theorems.
pub data Sight : Type 0 where
  file : String → Value → Sight
  pinned : PinnedDevice → Sight
  snapshot_of : PinnedDevice → Fields → Sight
  recorded : Fields → Fields → Sight

-- journal, before and after, as the written record has them or their digests.
pub record Recovery : Type 0 where
  pub journal : Fields
  pub before : Fields
  pub after : Fields

-- The world with what was seen so far.
abbrev pub Seen : Type 0 → Type 0
Seen W = W × List Sight

abbrev pub Call : Type 0 → Type 0 → Type 0
Call W A = Seen W → CallResult A × Seen W

abbrev is_upper_hex : ℕ → Bool
is_upper_hex c = (leb 48 c && leb c 57) || (leb 65 c && leb c 70)

-- re.fullmatch(r"[0-9A-F]{n}", text)
unfoldable pub is_serial : ℕ → String → Bool
is_serial zero String.[] = true
is_serial (suc n) (String.◌∷◌ c s) = is_upper_hex (code c) && is_serial n s
is_serial _ _ = false

abbrev pub interface_of : Option Value → Option String
interface_of none = some "02"
interface_of (some (str s)) = some s
interface_of (some _) = none

-- The types and texts that a device of the evidence must have.
unfoldable pub valid_device : Value → Value → Option String → Option PinnedDevice
valid_device (str path) (str serial) (some interface) =
    if starts_with path "/sys/" && is_serial 16 serial && (interface == "02")
    then some (record { usb_path = path; serial = serial; data_interface = interface })
    else none
valid_device _ _ _ = none

abbrev pub as_object : Value → Option Fields
as_object (obj m) = some m
as_object _ = none

-- journal.get("flash_may_be_modified") is not False
abbrev pub is_false : Value → Bool
is_false (bool b) = not b
is_false _ = false

-- PinnedDevice(**value): a dict with the two fields, and no other than the three.
unfoldable pub is_device : Value → Bool
is_device (obj m) =
    has_field "usb_path" m
    && has_field "serial" m
    && not (has_other_key ("usb_path" ∷ "serial" ∷ "data_interface" ∷ []) m)
is_device _ = false

abbrev pub device_fields : Value → Option PinnedDevice
device_fields (obj m) =
    valid_device (get_or_null "usb_path" m) (get_or_null "serial" m)
      (interface_of (get_field "data_interface" m))
device_fields _ = none

module _ {W : Type 0} where
  infixl 5 ◌>>=◌ ◌>>◌
  unfoldable pub ◌>>=◌ : {A B : Type 0} → Call W A → (A → Call W B) → Call W B
  ◌>>=◌ m f s = let (r, s') = m s in elim r [ done a ↦ f a s' | raised e ↦ (raised e, s') ]

  abbrev pub ◌>>◌ : {A B : Type 0} → Call W A → Call W B → Call W B
  m >> k = m >>= λ _. k

  -- A call outside.
  unfoldable pub ask : {A : Type 0} → (W → CallResult A × W) → Call W A
  ask f (w, log) = let (r, w') = f w in (r, (w', log))

  -- A call whose result is noted.
  unfoldable pub watch : {A : Type 0} → (A → Sight) → (W → CallResult A × W) → Call W A
  watch x f (w, log) =
      let (r, w') = f w in (r, (w', elim r [ done a ↦ log ++ x a ∷ [] | raised e ↦ log ]))

  unfoldable pub assert : Bool → InstallError → Call W (Unit {0})
  assert b e w = if b then (done tt, w) else (raised e, w)

  unfoldable pub no_error : Option InstallError → Call W (Unit {0})
  no_error none w = (done tt, w)
  no_error (some e) w = (raised e, w)

  unfoldable pub present : {A : Type 0} → Option A → InstallError → Call W A
  present none e w = (raised e, w)
  present (some a) e w = (done a, w)

  module _ ⦃py : Builtins⦄ (place : Place W) where
    unfoldable pub read_object : String → ℕ → Call W Fields
    read_object name limit = do
      value ← watch (file name) (place.read_file name limit)
      present (as_object value) not_evidence

    -- read_prewrite_recovery, with the device that it has checked.
    unfoldable pub read_evidence : Call W (Fields × Fields × PinnedDevice)
    read_evidence = do
      ask place.check_directory
      journal ← read_object "journal.json" 65536
      before ← read_object "configuration-before.json" 16777216
      assert (is_false (get_or_null "flash_may_be_modified" journal)) may_be_written
      no_error (require_snapshot before)
      assert (same_value (get_or_null "source_version" journal) (get_or_null "fw" (info_of before)))
          inconsistent_source
      assert (is_device (get_or_null "device" journal)) no_usb_identity
      device ← present (device_fields (get_or_null "device" journal)) bad_usb_identity
      λ w. (done (journal, before, device), w)

    -- verify_prewrite_recovery
    unfoldable pub verify_recovery : PinnedDevice → Call W Recovery
    verify_recovery expected = do
      (journal, before, device) ← read_evidence
      assert (same_device device expected) device_changed
      found ← watch pinned place.pin
      assert (same_device found device) device_changed
      after ← watch (snapshot_of device) (place.snapshot device false (some (info_of before)))
      no_error (compare_snapshot before after (get_or_null "source_version" journal))
      assert (same_bool (is_native (info_of before)) (is_native (info_of after))) device_changed
      still ← watch pinned place.pin
      assert (same_device still device) device_changed
      (journal', before', device') ← read_evidence
      assert (same_value (obj journal') (obj journal) && same_value (obj before') (obj before))
          evidence_changed
      watch (λ _. recorded journal after) (place.write_record journal after)
      λ w. (done (record { journal = journal; before = before; after = after }), w)
