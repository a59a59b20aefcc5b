-- ===== src/Install/Snapshot.antt =====
-- tools/rpi-hub/bosun_hub/firmware_install.py: what a configuration snapshot must have, and when the
-- one after an update is that from before (_require_snapshot, _compare_snapshot, _is_native). A
-- snapshot is a JSON object. The checks that fail give the exception's name, the first one first.
use bosun_midi_captain.Base.{
  ℕ, String, Bool, true, false, Option, none, some, ltb, ◌==◌, ◌&&◌, ◌||◌, not, same_text, suc,
  if◌then◌else◌,
}
use bosun_midi_captain.Base.Int.{ℤ, pos, same_int}
use bosun_midi_captain.Json.{
  Value, Fields, Items, obj, arr, str, int, float, bool, null, no_entries, entry, no_items, item,
  get_field, get_or_null, is_dict, is_true, pop_field, has_field,
}
use bosun_midi_captain.Link.Receive.{is_infix}

-- What Python's built-in operations do with floats, and str(value) of a value that is no text.
pub record Builtins : Type 0 where
  pub show : Value → String
  pub is_zero : String → Bool
  pub same_float : String → Value → Bool

-- The exceptions of the transaction, by their message; `outside` is raised by the interface.
pub data InstallError : Type 0 where
  outside : String → InstallError
  incomplete_snapshot invalid_profiles incomplete_profile : InstallError
  wrong_version different_configuration different_model : InstallError
  not_bosun no_identity device_changed firmware_changed : InstallError
  wrong_geometry incomplete_backup backup_mismatch rollback_target_changed : InstallError
  key_error : InstallError
  inventory_identity incomplete_inventory inventory_changed : InstallError
  not_evidence may_be_written inconsistent_source no_usb_identity bad_usb_identity : InstallError
  evidence_changed : InstallError

abbrev pub both : Option InstallError → Option InstallError → Option InstallError
both none e = e
both (some x) e = some x

abbrev pub unless : Bool → InstallError → Option InstallError
unless true e = none
unless false e = some e

abbrev zero_or_one : Bool → ℤ
zero_or_one true = pos 1
zero_or_one false = pos 0

module _ ⦃py : Builtins⦄ where
  -- bool(value)
  unfoldable pub is_truthy : Value → Bool
  is_truthy (obj no_entries) = false
  is_truthy (arr no_items) = false
  is_truthy (str s) = not (s == "")
  is_truthy (int n) = not (n == pos 0)
  is_truthy (float t) = not (py.is_zero t)
  is_truthy (bool b) = b
  is_truthy null = false
  is_truthy _ = true

  -- Python's == on numbers and on values that hold no others.
  unfoldable pub same_plain : Value → Value → Bool
  same_plain (str s) (str t) = s == t
  same_plain null null = true
  same_plain (float x) v = py.same_float x v
  same_plain v (float x) = py.same_float x v
  same_plain (int m) (int n) = m == n
  same_plain (bool b) (bool c) = zero_or_one b == zero_or_one c
  same_plain (bool b) (int n) = zero_or_one b == n
  same_plain (int n) (bool b) = n == zero_or_one b
  same_plain _ _ = false

  -- Every key of the first is one of the second.
  unfoldable pub same_keys : Fields → Fields → Bool
  same_keys no_entries n = true
  same_keys (entry k v m) n = has_field k n && same_keys m n

  -- Python's ==; two dicts are equal when each has the other's keys with equal values.
  unfoldable mutual
    pub same_value : Value → Value → Bool
    same_value (obj m) (obj n) = within m n && same_keys n m
    same_value (arr xs) (arr ys) = same_items xs ys
    same_value v w = same_plain v w

    pub within : Fields → Fields → Bool
    within no_entries n = true
    within (entry k v m) n =
        elim (get_field k n) [ none ↦ false | some w ↦ same_value v w ] && within m n

    pub same_items : Items → Items → Bool
    same_items no_items no_items = true
    same_items (item v xs) (item w ys) = same_value v w && same_items xs ys
    same_items _ _ = false

  -- Two dicts agree on a key, present or not.
  unfoldable pub same_get : Option Value → Option Value → Bool
  same_get none none = true
  same_get (some v) (some w) = same_value v w
  same_get _ _ = false

  abbrev pub native_text : Option Value → String
  native_text none = ""
  native_text (some (str s)) = s
  native_text (some v) = py.show v

  -- _is_native
  unfoldable pub is_native : Fields → Bool
  is_native info =
      is_true (get_or_null "native_experimental" info)
      || is_infix "-native" (native_text (get_field "fw" info))

  abbrev pub fields_of : Value → Fields
  fields_of (obj m) = m
  fields_of _ = no_entries

  abbrev pub count_fields : Fields → ℕ
  count_fields no_entries = 0
  count_fields (entry k v m) = suc (count_fields m)

  -- snapshot.get("active", "") in ("", *profiles)
  unfoldable pub is_active : Option Value → Fields → Bool
  is_active none profiles = true
  is_active (some (str s)) profiles = s == "" || has_field s profiles
  is_active (some _) profiles = false

  unfoldable pub is_profile : Value → Bool
  is_profile (obj row) =
      is_dict (get_or_null "metadata" row)
      && is_dict (get_or_null "device" row)
      && is_dict (get_or_null "patches" row)
  is_profile _ = false

  unfoldable pub are_profiles : Fields → Bool
  are_profiles no_entries = true
  are_profiles (entry k row rest) = is_profile row && are_profiles rest

  -- _require_snapshot
  unfoldable pub require_snapshot : Fields → Option InstallError
  require_snapshot snapshot =
      let info = get_or_null "info" snapshot in
      let profiles = get_or_null "profiles" snapshot in
      both
        (unless (is_dict info && is_truthy (get_or_null "fw" (fields_of info)) && is_dict profiles)
          incomplete_snapshot)
        (both
          (unless
            (not (ltb 32 (count_fields (fields_of profiles)))
              && is_active (get_field "active" snapshot) (fields_of profiles))
            invalid_profiles)
          (unless (are_profiles (fields_of profiles)) incomplete_profile))

  -- _configuration: each profile's row without its `midi_learn` table.
  unfoldable pub configuration : Fields → Fields
  configuration no_entries = no_entries
  configuration (entry k row rest) =
      entry k (obj (pop_field "midi_learn" (fields_of row))) (configuration rest)

  abbrev pub model_or_default : Value → String
  model_or_default (str s) = if s == "" then "captain10" else s
  model_or_default _ = "captain10"

  -- _hardware_model
  unfoldable pub hardware_model : Fields → String
  hardware_model info =
      model_or_default (get_or_null "model" (fields_of (get_or_null "hardware" info)))

  abbrev pub info_of : Fields → Fields
  info_of snapshot = fields_of (get_or_null "info" snapshot)

  abbrev pub profiles_of : Fields → Fields
  profiles_of snapshot = fields_of (get_or_null "profiles" snapshot)

  -- _compare_snapshot; `version` is the version that must run now.
  unfoldable pub compare_snapshot : Fields → Fields → Value → Option InstallError
  compare_snapshot before after version = both (require_snapshot after) (
      both (unless (same_value (get_or_null "fw" (info_of after)) version) wrong_version) (
        both
          (unless
            (same_get (get_field "active" before) (get_field "active" after)
              && same_value (obj (configuration (profiles_of before)))
                  (obj (configuration (profiles_of after))))
            different_configuration)
          (unless (hardware_model (info_of before) == hardware_model (info_of after))
            different_model)))
