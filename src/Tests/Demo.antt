-- ===== src/Tests/Demo.antt =====
-- A hub with two subscribers, and a JSON library that knows a few lines.
use bosun_midi_captain.Base.{
  String, true, false, none, some, [], ◌∷◌, ◌==◌, same_text, same_nat, if◌then◌else◌,
}
use bosun_midi_captain.Base.Int.{pos}
use bosun_midi_captain.Json.{Json, Value, Fields, str, int, obj, no_entries, entry, get_or_null}
use bosun_midi_captain.Link.{Link}
use bosun_midi_captain.Hub.State.{Hub, Context, Patch, Requests, Flight, Key, Waiter, private_id}

abbrev label : Value → String
label (str s) = s
label _ = "?"

abbrev pub text_of : Value → String
text_of (obj m) = label (get_or_null "type" m)
text_of _ = "?"

instance abbrev pub demo_json : Json
demo_json = record {
  loads = λ line.
      if line == "hub down"
      then some (obj (entry "type" (str "HUB") (entry "link" (str "down") no_entries)))
      else none;
  compact = text_of;
  spaced = λ v. "hub";
}

abbrev pub reader_waiter : Waiter
reader_waiter = record { sub = 1; has_id = true; request_id = int (pos 7) }

abbrev pub demo_key : Key
demo_key = record { profile = ""; bank = pos 1; slot = pos 2 }

abbrev pub blank_flight : Flight
blank_flight = record {
  key = demo_key;
  waiters = [];
  next_waiters = [];
  flight_id = none;
  sealed = false;
  timeout_handle = none;
}

abbrev pub up_link : Link
up_link = record { connected = true; tx = []; schedule = [] }

abbrev pub flying_context : Context
flying_context = record {
  waiters = reader_waiter ∷ [];
  next_waiters = [];
  flight_id = some (private_id "__bosun_ctx_" 1);
  sealed = false;
  seq = 1;
  id_prefix = "__bosun_ctx_";
  timeout_handle = none;
}

abbrev pub empty_patch : Patch
empty_patch = record {
  cache = [];
  flights = λ r. blank_flight;
  next_ref = 0;
  by_key = [];
  by_id = [];
  seq = 0;
  id_prefix = "__bosun_patch_";
}

abbrev pub empty_requests : Requests
empty_requests = record { pending = []; ids_by_sub = []; seq = 0; id_prefix = "__bosun_req_" }

-- Subscriber 1 waits for the snapshot that is in the air.
abbrev pub flying_hub : Hub
flying_hub = record {
  subs = 1 ∷ 2 ∷ [];
  want_status = λ s. false;
  link = up_link;
  device_info = none;
  context = flying_context;
  patch = empty_patch;
  requests = empty_requests;
  upstream_reads = [];
  has_loop = true;
  timers = [];
  next_handle = 0;
  offers = [];
}

-- {"type": type, "id": 3}
abbrev pub request : String → Fields
request type = entry "type" (str type) (entry "id" (int (pos 3)) no_entries)
