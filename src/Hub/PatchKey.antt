-- ===== src/Hub/PatchKey.antt =====
-- tools/rpi-hub/bosun_hub/hub.py: which patch a message names, the flight objects, the cache and
-- what a mutation does to both.
pub mod Sealing
use bosun_midi_captain.Base.{
  ℕ, String, Bool, true, Option, none, some, List, [], ◌∷◌, ◌==◌, ◌&&◌, same_text, same_nat,
  contains, if◌then◌else◌,
}
use bosun_midi_captain.Base.Dict.{Dict, pop, keys}
use bosun_midi_captain.Base.Int.{ℤ, same_int}
use bosun_midi_captain.Json.{Value, Fields, null, int, str, get_field, get_or_null, has_other_key}
use bosun_midi_captain.Hub.State.{Hub, Key, Flight, same_key}
use bosun_midi_captain.Hub.ContextFlight.{is_none}

-- (bank, slot)
pub record Location : Type 0 where
  pub bank : ℤ
  pub slot : ℤ

-- An int that is no bool.
unfoldable pub as_int : Value → Option ℤ
as_int (int n) = some n
as_int _ = none

unfoldable pub pair_location : Option ℤ → Option ℤ → Option Location
pair_location (some b) (some s) = some (record { bank = b; slot = s })
pair_location _ _ = none

-- Hub._patch_location
unfoldable pub patch_location : Fields → Option Location
patch_location msg =
    pair_location (as_int (get_or_null "bank" msg)) (as_int (get_or_null "slot" msg))

-- msg.get("profile", ""), where None reads as "".
unfoldable pub as_profile : Option Value → Option String
as_profile none = some ""
as_profile (some null) = some ""
as_profile (some (str s)) = some s
as_profile (some _) = none

unfoldable pub join_key : Option Location → Option String → Option Key
join_key (some l) (some p) = some (record { profile = p; bank = l.bank; slot = l.slot })
join_key _ _ = none

-- Hub._patch_key
unfoldable pub patch_key : Fields → Option Key
patch_key msg = join_key (patch_location msg) (as_profile (get_field "profile" msg))

-- Hub._canonical_patch_key
unfoldable pub canonical_patch_key : Fields → Option Key
canonical_patch_key msg =
    if has_other_key ("type" ∷ "id" ∷ "profile" ∷ "bank" ∷ "slot" ∷ []) msg
    then none
    else patch_key msg

-- key[1:] == location
abbrev pub is_at : Location → Key → Bool
is_at l k = k.bank == l.bank && k.slot == l.slot

-- An assignment to the attributes of a flight object.
abbrev pub update : (ℕ → Flight) → ℕ → Flight → ℕ → Flight
update flights r f i = if i == r then f else flights i

unfoldable pub set_flight : ℕ → Flight → Hub → Hub
set_flight r f h = record h { patch = record h.patch { flights = update h.patch.flights r f } }

unfoldable pub seal_flight : Flight → Flight
seal_flight f = if is_none f.flight_id then f else record f { sealed = true }

unfoldable pub seal_where : (Key → Bool) → Dict Key ℕ → (ℕ → Flight) → ℕ → Flight
seal_where p [] flights = flights
seal_where p ((k, r) ∷ d) flights =
    seal_where p d (if p k then update flights r (seal_flight (flights r)) else flights)

-- Hub._seal_patch_location
unfoldable pub seal_patch_location : Location → Hub → Hub
seal_patch_location l h = record h {
  patch = record h.patch { flights = seal_where (is_at l) h.patch.by_key h.patch.flights };
}

-- Hub._seal_all_patch_flights
unfoldable pub seal_all_patch_flights : Hub → Hub
seal_all_patch_flights h = record h {
  patch = record h.patch { flights = seal_where (λ k. true) h.patch.by_key h.patch.flights };
}

unfoldable pub pop_where : (Key → Bool) → List Key → Dict Key Fields → Dict Key Fields
pop_where p [] d = d
pop_where p (k ∷ ks) d = pop_where p ks (if p k then pop k d else d)

-- Hub._invalidate_patch_location
unfoldable pub invalidate_patch_location : Location → Hub → Hub
invalidate_patch_location l h = record h {
  patch = record h.patch { cache = pop_where (is_at l) (keys h.patch.cache) h.patch.cache };
}

unfoldable pub clear_cache : Hub → Hub
clear_cache h = record h { patch = record h.patch { cache = [] } }

-- _PATCH_LOCATION_MUTATIONS
abbrev pub patch_location_mutations : List String
patch_location_mutations = "PUT_PATCH" ∷ "PUT_BINDING" ∷ "DELETE_PATCH" ∷ "DISCARD" ∷ []

-- _PATCH_RESET_MUTATIONS
abbrev pub patch_reset_mutations : List String
patch_reset_mutations =
    "SWITCH_PROFILE" ∷ "DELETE_PROFILE" ∷ "CREATE_PROFILE" ∷ "RENAME_PROFILE" ∷ "REBOOT"
    ∷ "SET_HARDWARE" ∷ []

unfoldable pub mutate_location : Option Location → Hub → Hub
mutate_location none h = seal_all_patch_flights (clear_cache h)
mutate_location (some l) h = seal_patch_location l (invalidate_patch_location l h)

unfoldable pub switch_location : Option Location → Hub → Hub
switch_location none h = seal_all_patch_flights h
switch_location (some l) h = seal_patch_location l h

-- Hub._prepare_patch_mutation
unfoldable pub prepare_patch_mutation : String → Fields → Hub → Hub
prepare_patch_mutation kind msg h =
    if contains kind patch_location_mutations
    then mutate_location (patch_location msg) h
    else if kind == "SWITCH_PATCH"
    then switch_location (patch_location msg) h
    else if contains kind patch_reset_mutations
    then seal_all_patch_flights (clear_cache h)
    else h
