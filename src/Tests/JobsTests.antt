-- ===== src/Tests/JobsTests.antt =====
-- Update jobs at concrete inputs.
use bosun_midi_captain.Base.{String, Option, none, some, ℕ, List, [], ◌∷◌, ◌≡◌, refl, true, false}
use bosun_midi_captain.Base.Int.{pos}
use bosun_midi_captain.Json.{str, int, get_or_null, no_entries, entry}
use bosun_midi_captain.Update.Upload.{uploading, validating}
use bosun_midi_captain.Install.Action.{backing_up_flash, flashing_firmware}
use bosun_midi_captain.Update.Jobs.{
  is_hex_text, is_terminal, JobStatus, saved, works, fails_before, Jobs, load,
}
use bosun_midi_captain.Update.Jobs.Requests.{Host, commit}
use bosun_midi_captain.Update.Jobs.Work.{
  Event, request, restarts, events, recovers_in, is_recovery_of, asks_recovery,
}
use bosun_midi_captain.Update.Jobs.Handle.{command_of}
use bosun_midi_captain.Base.Dict.{get}
use bosun_midi_captain.Update.Jobs.Interrupted.{Interrupted, blocks}
use bosun_midi_captain.Update.Jobs.Interrupted.Events.{Unrecovered, events-Interrupted}
use bosun_midi_captain.Update.Jobs.Interrupted.CutOff.{Blocks, commit-Blocks}
use bosun_midi_captain.Hub.Send.{send_from}
use bosun_midi_captain.Hub.Send.Maintenance as Maintenance
use bosun_midi_captain.Hub.Send.Maintenance.{OnlyOffers, send_from-OnlyOffers}
use bosun_midi_captain.Tests.Demo.{demo_json, flying_hub}

abbrev decode : String → Option (List ℕ)
decode s = none

abbrev name : String
name = "0123456789abcdef0123456789abcdef"

abbrev host : Host
host = record {
  supported = true;
  connected = true;
  has_info = true;
  on_usb = true;
  has_identity = true;
  evidence = none;
  now = 5000000;
  free = 100000000;
  token = "fedcba9876543210fedcba9876543210";
  torn = none;
}

abbrev uploaded : JobStatus
uploaded = record {
  job = name;
  phase = uploading;
  size = 2;
  received = 2;
  created = 1000;
  is_recovery = false;
  recovery_verified = false;
}

abbrev service : JobStatus → Jobs
service state = record {
  active = none;
  task = none;
  maintenance = false;
  stopping = false;
  volatile = none;
  recovery_jobs = [];
  scanned = false;
  root =
      (name, record { status = saved state; only_upload = true; archive = some (1 ∷ 2 ∷ []) }) ∷ [];
  faults = works ∷ fails_before ∷ [];
  started = [];
}

-- A new upload, which the job that was cut off forbids, and one more restart.
abbrev later : List Event
later =
    request host (
      entry "type" (str "HUB_UPDATE_BEGIN")
        (entry "size" (int (pos 8)) (entry "sha256" (str "00") no_entries)))
    ∷ restarts
    ∷ []

name_lem : is_hex_text 32 name ≡ true
unfolding is_hex_text
name_lem = refl

later_lem : recovers_in name later ≡ false
unfolding recovers_in is_recovery_of asks_recovery get_or_null command_of
later_lem = refl

commit-Blocks_example :
    Blocks decode name
      (backing_up_flash ∷ flashing_firmware ∷ [])
      later
      (commit host uploaded (service uploaded))
commit-Blocks_example =
    commit-Blocks decode host uploaded (backing_up_flash ∷ flashing_firmware ∷ []) later
      (service uploaded) name_lem refl later_lem

abbrev halted : Jobs
halted = service (record uploaded { phase = validating })

halted-Interrupted : Interrupted name [] halted
unfolding get blocks is_terminal
halted-Interrupted = record {
  on_disk = refl;
  idle = refl;
  in_memory = tt;
  elsewhere = tt;
  unstarted = refl;
}

events-Interrupted_example :
    ((events decode later halted).started ≡ [])
    × Interrupted name [] (events decode later halted)
    × Unrecovered (load name (events decode later halted))
events-Interrupted_example =
    events-Interrupted decode name later halted name_lem halted-Interrupted later_lem

-- A service that has the device.
abbrev busy : Jobs
busy = record (service uploaded) { maintenance = true }

send_from-OnlyOffers_example :
    OnlyOffers flying_hub
      (send_from
        (Maintenance.service decode (λ h. host) (λ msg r. no_entries))
        1
        "hub down"
        flying_hub
        busy).0
send_from-OnlyOffers_example =
    send_from-OnlyOffers decode (λ h. host) (λ msg r. no_entries) 1 "hub down" flying_hub busy refl
