-- ===== src/Install/Inventory.antt =====
-- tools/rpi-hub/bosun_hub/firmware_install.py: _patch_inventory, which reads a profile's patches page
-- by page. `request` is client.request with the offset of the page. The pages that were read are
-- kept beside the result, for the theorems; the loop runs on fuel.
pub mod Turns
pub mod Complete
use bosun_midi_captain.Base.{
  ℕ, zero, suc, ◌+◌, String, Bool, true, false, Option, none, some, List, [], ◌∷◌, ◌++◌, ltb, leb,
  length, ◌==◌, ◌&&◌, ◌||◌, not, same_nat, if◌then◌else◌,
}
use bosun_midi_captain.Base.Int.{pos, negsuc}
use bosun_midi_captain.Json.{
  Value, Fields, Items, no_items, item, no_entries, entry, arr, str, int, null, get_or_null,
  has_field, is_text,
}
use bosun_midi_captain.Install.Snapshot.{
  Builtins, InstallError, inventory_identity, incomplete_inventory, inventory_changed, same_value,
}
use bosun_midi_captain.Install.Action.{CallResult, done, raised}

unfoldable pub list_of : Items → List Value
list_of no_items = []
list_of (item v xs) = v ∷ list_of xs

unfoldable pub items_of : List Value → Items
items_of [] = no_items
items_of (v ∷ vs) = item v (items_of vs)

-- page.get("patches"), where it is a list
abbrev pub patches_in : Value → Option (List Value)
patches_in (arr xs) = some (list_of xs)
patches_in _ = none

abbrev is_empty {ℓ} : {A : Type ℓ} → List A → Bool
is_empty [] = true
is_empty _ = false

-- What one turn of the loop does with its page.
pub data Turn : Type 0 where
  refuse : InstallError → Turn
  whole : Turn
  last : List Value → Turn
  more : List Value → Value → Value → Turn

unfoldable pub total_of : Value → ℕ
total_of (int (pos n)) = n
total_of _ = 0

abbrev pub catalog_of : String → List Value → Fields
catalog_of profile patches =
    entry "type" (str "PATCH_LIST")
      (entry "profile" (str profile) (entry "patches" (arr (items_of patches)) no_entries))

module _ ⦃py : Builtins⦄ where
  -- The test of a page against the revision and the total of the first one.
  unfoldable pub is_page : Value → Value → ℕ → ℕ → Fields → Bool
  is_page (int revision) (int (pos total)) offset count page =
      leb total 625
      && same_value (get_or_null "revision" page) (int revision)
      && same_value (get_or_null "total" page) (int (pos total))
      && same_value (get_or_null "offset" page) (int (pos offset))
      && leb count 64
      && leb (offset + count) total
  is_page _ _ offset count page = false

  -- After patches.extend(items); `patches` holds the items already.
  unfoldable pub end_page : List Value → List Value → Value → Value → Fields → Turn
  end_page items patches revision total page =
      let next = get_or_null "next_offset" page in
      if same_value next (int (negsuc 0)) && (length patches == total_of total)
      then last patches
      else if is_empty items
          || leb (total_of total) (length patches)
          || not (same_value next (int (pos (length patches))))
      then refuse incomplete_inventory
      else more patches revision total

  unfoldable pub check_page : Value → Value → List Value → List Value → Fields → Turn
  check_page revision total items patches page =
      if is_page revision total (length patches) (length items) page
      then end_page items (patches ++ items) revision total page
      else refuse inventory_changed

  unfoldable pub read_items :
      Option (List Value) → String → List Value → Value → Value → Fields → Turn
  read_items none profile patches revision total page = refuse inventory_identity
  read_items (some items) profile patches revision total page =
      if not (is_text profile (get_or_null "profile" page))
      then refuse inventory_identity
      else if not (has_field "offset" page)
      then if ltb 0 (length patches) || ltb 625 (length items)
        then refuse incomplete_inventory
        else whole
      else if length patches == 0
      then check_page (get_or_null "revision" page) (get_or_null "total" page) items patches page
      else check_page revision total items patches page

  unfoldable pub read_page : String → List Value → Value → Value → Fields → Turn
  read_page profile patches revision total page =
      read_items (patches_in (get_or_null "patches" page)) profile patches revision total page

  module _ {W : Type 0} (request : ℕ → W → CallResult Fields × W) (profile : String) where
    abbrev pub Inventory : Type 0
    Inventory = Option (CallResult Fields × List Fields × W)

    unfoldable pub add_page : Fields → Inventory → Inventory
    add_page page none = none
    add_page page (some (r, pages, w)) = some (r, page ∷ pages, w)

    unfoldable pub inventory_loop : ℕ → List Value → Value → Value → W → Inventory
    inventory_loop zero patches revision total w = none
    inventory_loop (suc fuel) patches revision total w =
        let (r, w') = request (length patches) w in
        elim r [
          | raised e ↦ some (raised e, [], w')
          | done page ↦ elim (read_page profile patches revision total page) [
            | refuse e ↦ some (raised e, page ∷ [], w')
            | whole ↦ some (done page, page ∷ [], w')
            | last found ↦ some (done (catalog_of profile found), page ∷ [], w')
            | more found revision' total' ↦
                add_page page (inventory_loop fuel found revision' total' w')
          ]
        ]

    -- _patch_inventory
    unfoldable pub patch_inventory : W → Inventory
    patch_inventory w = inventory_loop 626 [] null null w
