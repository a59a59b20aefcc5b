-- ===== src/Json.antt =====
-- JSON documents as `json.loads` returns them, the dict operations that the hub makes on them, and
-- the two library calls as a parameter. A float keeps its text, which the hub never reads.
use bosun_midi_captain.Base.{
  String, ◌≡◌, refl, Bool, true, false, Option, none, some, arith, ◌==◌, if◌then◌else◌, ◌||◌, not,
  List, contains, same_text,
}
use text.Mathlib.TextEquality.{eq_iff as string_iff}
use bosun_midi_captain.Base.Int.{ℤ}

mutual
  pub data Fields : Type 0 where
    no_entries : Fields
    entry : String → Value → Fields → Fields

  pub data Items : Type 0 where
    no_items : Items
    item : Value → Items → Items

  pub data Value : Type 0 where
    obj : Fields → Value
    arr : Items → Value
    str : String → Value
    int : ℤ → Value
    float : String → Value
    bool : Bool → Value
    null : Value

-- json.loads, with `none` for the exceptions that the hub catches; json.dumps with
-- separators=(",", ":"); json.dumps with the default separators.
pub record Json : Type 0 where
  pub loads : String → Option Value
  pub compact : Value → String
  pub spaced : Value → String

-- msg.get(key)
unfoldable pub get_field : String → Fields → Option Value
get_field k no_entries = none
get_field k (entry j v m) = if j == k then some v else get_field k m

-- msg.get(key), where an absent key reads as None
abbrev or_null : Option Value → Value
or_null none = null
or_null (some v) = v

unfoldable pub get_or_null : String → Fields → Value
unfolding get_field
get_or_null k m = or_null (get_field k m)

-- key in msg
abbrev is_present : Option Value → Bool
is_present none = false
is_present (some v) = true

unfoldable pub has_field : String → Fields → Bool
unfolding get_field
has_field k m = is_present (get_field k m)

-- msg[key] = value
unfoldable pub put_field : String → Value → Fields → Fields
put_field k v no_entries = entry k v no_entries
put_field k v (entry j w m) =
    let rest = put_field k v m in if j == k then entry j v m else entry j w rest

-- msg.pop(key, None)
unfoldable pub pop_field : String → Fields → Fields
pop_field k no_entries = no_entries
pop_field k (entry j w m) = let rest = pop_field k m in if j == k then rest else entry j w rest

-- any(key not in names for key in msg)
unfoldable pub has_other_key : List String → Fields → Bool
has_other_key names no_entries = false
has_other_key names (entry k v m) = not (contains k names) || has_other_key names m

-- isinstance(value, dict)
abbrev pub is_dict : Value → Bool
is_dict (obj m) = true
is_dict _ = false

-- value == text
abbrev pub is_text : String → Value → Bool
is_text s (str t) = s == t
is_text s _ = false

-- value is True
abbrev pub is_true : Value → Bool
is_true (bool b) = b
is_true _ = false

-- Whether a value can be looked up in a set: lists and dicts raise TypeError.
abbrev pub is_hashable : Value → Bool
is_hashable (arr _) = false
is_hashable (obj _) = false
is_hashable _ = true

-- value in {texts}, where the lookup succeeds
abbrev pub is_text_in : List String → Value → Bool
is_text_in names (str t) = contains t names
is_text_in names _ = false

pub get_field-put_field :
    (j k : String) (v : Value) (m : Fields)
    → get_field j (put_field k v m) ≡ (if k == j then some v else get_field j m)
unfolding get_field put_field
get_field-put_field j k v no_entries = refl
get_field-put_field j k v (entry i w m) =
    ground (arith, string_iff k j, string_iff i k, string_iff i j, get_field-put_field j k v m)

pub get_field-pop_field :
    (j k : String) (m : Fields)
    → get_field j (pop_field k m) ≡ (if k == j then none else get_field j m)
unfolding get_field pop_field
get_field-pop_field j k no_entries = ground arith
get_field-pop_field j k (entry i w m) =
    ground (arith, string_iff k j, string_iff i k, string_iff i j, get_field-pop_field j k m)
