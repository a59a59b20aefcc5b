-- ===== src/Hub/State.antt =====
-- tools/rpi-hub/bosun_hub/hub.py: the hub's fields, and the steps that its request paths share.
-- A subscriber is a number; `want_status` is the attribute of that name. The hub never reads a
-- subscriber's queue, so an operation lists its calls of Subscription._offer in `offers`, oldest
-- first. A timer of the loop is a numbered
-- handle. A patch flight is an object that two dicts refer to: it stands in `flights` under its
-- reference.
pub mod Frame
pub mod Replies
use Prim.Native.String.{◌++◌ as str_append}
use bosun_midi_captain.Base.{
  ℕ, ◌+◌, String, ◌≡◌, Bool, true, Option, none, some, List, [], ◌∷◌, ◌++◌, Comparable, ◌==◌, ◌&&◌,
  ◌↔◌, arith, same_text, same_nat, contains, add, discard, keep, not, if◌then◌else◌,
}
use bosun_midi_captain.Base.Decimal.{decimal}
use bosun_midi_captain.Base.Dict.{Dict}
use bosun_midi_captain.Base.Int.{ℤ, same_int}
use bosun_midi_captain.Json.{Json, Value, Fields, str, obj, no_entries, entry, put_field, pop_field}
use bosun_midi_captain.Link.{Link, is_connected, send}

-- (profile, bank, slot)
pub record Key : Type 0 where
  pub profile : String
  pub bank : ℤ
  pub slot : ℤ

abbrev pub key_beq : Key → Key → Bool
key_beq a b = a.profile == b.profile && a.bank == b.bank && a.slot == b.slot

pub key_beq_iff : (a b : Key) → (key_beq a b ≡ true) ↔ (a ≡ b)
key_beq_iff a b = ground (
  arith,
  same_text.same_iff a.profile b.profile,
  same_int.same_iff a.bank b.bank,
  same_int.same_iff a.slot b.slot,
)

instance abbrev pub same_key : Comparable Key
same_key = record { same = key_beq; same_iff = key_beq_iff }

-- A waiter's (subscription, has_id, request_id).
pub record Waiter : Type 0 where
  pub sub : ℕ
  pub has_id : Bool
  pub request_id : Value

-- _PatchFlight
pub record Flight : Type 0 where
  pub key : Key
  pub waiters : List Waiter
  pub next_waiters : List Waiter
  pub flight_id : Option String
  pub sealed : Bool
  pub timeout_handle : Option ℕ

-- _RequestPending
pub record Pending : Type 0 where
  pub sub : Option ℕ
  pub has_id : Bool
  pub request_id : Value
  pub kind : String
  pub broadcast : Bool
  pub timeout_handle : Option ℕ

-- What a timer of the loop will call.
pub data Timer : Type 0 where
  request_timeout : String → Timer
  patch_timeout : Key → String → Timer
  context_timeout : String → Timer

-- One call of Subscription._offer.
pub record Offer : Type 0 where
  pub sub : ℕ
  pub line : String

pub record Context : Type 0 where
  pub waiters : List Waiter
  pub next_waiters : List Waiter
  pub flight_id : Option String
  pub sealed : Bool
  pub seq : ℕ
  pub id_prefix : String
  pub timeout_handle : Option ℕ

pub record Patch : Type 0 where
  pub cache : Dict Key Fields
  pub flights : ℕ → Flight
  pub next_ref : ℕ
  pub by_key : Dict Key ℕ
  pub by_id : Dict String ℕ
  pub seq : ℕ
  pub id_prefix : String

pub record Requests : Type 0 where
  pub pending : Dict String Pending
  pub ids_by_sub : Dict ℕ (List String)
  pub seq : ℕ
  pub id_prefix : String

pub record Hub : Type 0 where
  pub subs : List ℕ
  pub want_status : ℕ → Bool
  pub link : Link
  pub device_info : Option Fields
  pub context : Context
  pub patch : Patch
  pub requests : Requests
  pub upstream_reads : List String
  pub has_loop : Bool
  pub timers : List (ℕ × Timer)
  pub next_handle : ℕ
  pub offers : List Offer

-- f"{prefix}{seq}"
unfoldable pub private_id : String → ℕ → String
private_id id_prefix seq = str_append id_prefix (decimal seq)

-- The `connected` property, read by the hub.
unfoldable pub read_connected : Hub → Bool × Hub
read_connected h = let (up, l) = is_connected h.link in (up, record h { link = l })

-- self.link.send(line)
unfoldable pub send_line : String → Hub → Bool × Hub
send_line line h = let (accepted, l) = send line h.link in (accepted, record h { link = l })

-- "link_down" if not self.link.connected else "link_busy"
unfoldable pub refusal : Hub → String × Hub
unfolding read_connected
refusal h = let (up, h') = read_connected h in ((if up then "link_busy" else "link_down"), h')

-- {"type": "ERROR", "error": error, "of": kind}
unfoldable pub error_fields : String → String → Fields
error_fields error kind =
    entry "type" (str "ERROR") (entry "error" (str error) (entry "of" (str kind) no_entries))

-- The response under the caller's own id, or with no id.
unfoldable pub correlate : Bool → Value → Fields → Fields
correlate has_id request_id response =
    if has_id then put_field "id" request_id response else pop_field "id" response

module _ ⦃json : Json⦄ where
  unfoldable pub correlated : Bool → Value → Fields → String
  correlated has_id request_id response = json.compact (obj (correlate has_id request_id response))

  -- Hub._offer_correlated
  unfoldable pub offer_correlated : ℕ → Bool → Value → Fields → Hub → Hub
  offer_correlated sub has_id request_id response h = record h {
    offers = h.offers ++ record { sub = sub; line = correlated has_id request_id response } ∷ [];
  }

  -- for sub, has_id, request_id in waiters: if sub in self._subs: self._offer_correlated(...)
  unfoldable pub offer_waiters : List Waiter → Fields → Hub → Hub
  unfolding offer_correlated
  offer_waiters [] response h = h
  offer_waiters (w ∷ ws) response h =
      offer_waiters ws response (
        if contains w.sub h.subs
        then offer_correlated w.sub w.has_id w.request_id response h
        else h)

-- _TRACKED_READS
abbrev pub tracked_reads : List String
tracked_reads =
    "GET_MANIFEST" ∷ "GET_GLOBAL" ∷ "STATS" ∷ "LED_DUMP" ∷ "LIST_PROFILES" ∷ "GET_PATCH"
    ∷ "GET_CONTEXT" ∷ "GET_DEVICE_INFO" ∷ "LIST_PATCHES" ∷ []

-- Hub._track_read
unfoldable pub track_read : String → String → Hub → Hub
track_read id kind h =
    if contains kind tracked_reads then record h { upstream_reads = add id h.upstream_reads } else h

-- Hub._read_done
unfoldable pub read_done : Option String → Hub → Hub
read_done none h = h
read_done (some id) h = record h { upstream_reads = discard id h.upstream_reads }

-- loop.call_later, where a loop is running.
unfoldable pub call_later : Timer → Hub → Option ℕ × Hub
call_later t h =
    if h.has_loop
    then (
      some h.next_handle,
      record h { timers = h.timers ++ (h.next_handle, t) ∷ []; next_handle = h.next_handle + 1 },
    )
    else (none, h)

-- handle.cancel(), where there is a handle.
unfoldable pub cancel : Option ℕ → Hub → Hub
cancel none h = h
cancel (some n) h = record h { timers = keep (λ t. not (t.0 == n)) h.timers }
