-- ===== src/Tests/PatchTests.antt =====
-- The patch cache at concrete inputs.
use bosun_midi_captain.Base.{
  ℕ, String, ◌≡◌, refl, true, none, some, [], ◌∷◌, if◌then◌else◌, same_nat, same_text,
}
use bosun_midi_captain.Base.Decimal.{decimal}
use bosun_midi_captain.Base.Dict.{get}
use bosun_midi_captain.Base.Int.{pos}
use bosun_midi_captain.Json.{Fields, str, int, obj, no_entries, entry, get_or_null, get_field}
use bosun_midi_captain.Hub.State.{Hub, Flight, Key, same_key, private_id}
use bosun_midi_captain.Hub.PatchKey.{
  Location, is_at, as_int, pair_location, patch_location, prepare_patch_mutation,
}
use bosun_midi_captain.Hub.PatchKey.Sealing.{IsSealed, prepare_patch_mutation-location}
use bosun_midi_captain.Hub.PatchReply.{consume_patch_reply}
use bosun_midi_captain.Hub.PatchReply.Stale.{consume_patch_reply_stale}
use bosun_midi_captain.Hub.Request.OwnIds.{own_id-private_id}
use bosun_midi_captain.Tests.Demo.{
  demo_json, demo_key, blank_flight, empty_patch, flying_hub, reader_waiter,
}

abbrev patch_id : String
patch_id = private_id "__bosun_patch_" 1

abbrev flight : Flight
flight = record blank_flight { waiters = reader_waiter ∷ []; flight_id = some patch_id }

abbrev cached : Fields
cached = entry "type" (str "PATCH") no_entries

-- A read of bank 1, slot 2 is in the air, and the cache still has an older reply for it.
abbrev patch_hub : Hub
patch_hub = record flying_hub {
  patch = record empty_patch {
    cache = (demo_key, cached) ∷ [];
    flights = λ r. flight;
    next_ref = 1;
    by_key = (demo_key, 0) ∷ [];
    by_id = (patch_id, 0) ∷ [];
    seq = 1;
  };
}

abbrev place : Location
place = record { bank = pos 1; slot = pos 2 }

abbrev mutation : Fields
mutation =
    entry "type" (str "PUT_PATCH")
      (entry "bank" (int (pos 1)) (entry "slot" (int (pos 2)) no_entries))

abbrev late_reply : Fields
late_reply = entry "type" (str "PATCH") (
    entry "id" (str patch_id) (
      entry "bank" (int (pos 1))
        (entry "slot" (int (pos 2)) (entry "patch" (obj no_entries) no_entries))))

prepare_patch_mutation-location_example :
    let g = prepare_patch_mutation "PUT_PATCH" mutation patch_hub in
    ((k : Key)
      → get k g.patch.cache ≡ (if is_at place k then none else get k patch_hub.patch.cache))
    × ((k : Key) (r : ℕ)
        → is_at place k ≡ true
        → get k patch_hub.patch.by_key ≡ some r
        → IsSealed (g.patch.flights r))
unfolding patch_location pair_location as_int get_or_null get_field
prepare_patch_mutation-location_example =
    prepare_patch_mutation-location "PUT_PATCH" mutation place patch_hub refl refl

consume_patch_reply_stale_example :
    let (taken, g) =
      consume_patch_reply late_reply (prepare_patch_mutation "PUT_PATCH" mutation patch_hub) in
    (taken ≡ true) × (get demo_key g.patch.cache ≡ none)
unfolding patch_location pair_location as_int get_or_null get_field get private_id decimal
consume_patch_reply_stale_example =
    consume_patch_reply_stale "PUT_PATCH" mutation late_reply place demo_key patch_id 0 patch_hub
      refl refl (own_id-private_id _ 1) (refl, refl, refl) refl
