-- ===== src/Update/Jobs/Requests.antt =====
-- tools/rpi-hub/bosun_hub/update_service.py: _begin, _commit, _recover, and the abort of an upload.
use bosun_midi_captain.Base.{
  ℕ, ◌+◌, String, Bool, true, false, Option, none, some, List, [], ◌∷◌, ltb, ◌==◌, ◌&&◌, ◌||◌, not,
  same_nat, same_text, if◌then◌else◌,
}
use bosun_midi_captain.Base.Dict.{get, put, keys}
use bosun_midi_captain.Base.Int.{pos}
use bosun_midi_captain.Json.{Value, Fields, str, int, get_or_null}
use bosun_midi_captain.Update.Upload.{uploading, aborted, validating, verifying, is_other}
use bosun_midi_captain.Update.Jobs.{
  JobStatus, missing, flashing, recovering, UpdateError, disk_error, not_supported, in_progress,
  size_limit, invalid_digest, recovery_first, upload_pending, no_space, another_owner,
  cannot_cancel, incomplete, no_device_info, not_usb, no_identity, not_needed, not_connected,
  other_captain, bad_evidence, gives, raises, Step, ◌>>=◌, ◌>>◌, check, need, give, is_hex_text,
  is_terminal, is_upload, is_recovery_required, save, load, is_owner, volatile_of,
}

-- What a request reads of the hub, the link, the clock and the disk. `evidence` is
-- read_prewrite_recovery with the comparison of the two devices, `none` for its exception; `token`
-- is secrets.token_hex(16); `write_stops` says where the write of a chunk stops.
pub record Host : Type 0 where
  pub supported : Bool
  pub connected : Bool
  pub has_info : Bool
  pub on_usb : Bool
  pub has_identity : Bool
  pub evidence : Option Bool
  pub now : ℕ
  pub free : ℕ
  pub token : String
  pub torn : Option ℕ

-- _reply
pub data Reply : Type 0 where
  status : JobStatus → Reply
  ready : Bool → Reply
  -- _error
  error : UpdateError → Reply

-- A job of the scan in _begin.
unfoldable pub admit_previous : ℕ → JobStatus → Step (Unit {0})
admit_previous now previous = do
  check (not (is_recovery_required previous.phase)) recovery_first
  if is_upload previous.phase
      then check (not (ltb now (previous.created + 900000))) upload_pending
        >> save (record previous { phase = aborted })
      else give tt

unfoldable pub check_previous : ℕ → List String → Step (Unit {0})
check_previous now [] = give tt
check_previous now (name ∷ names) =
    let rest = check_previous now names in
    if is_hex_text 32 name
    then load name >>= (λ previous. admit_previous now previous >> rest)
    else rest

unfoldable pub check_active : Option String → Step (Unit {0})
check_active none = give tt
check_active (some owner) = load owner >>= λ state. check (is_terminal state.phase) in_progress

unfoldable pub size_of : Value → Step ℕ
size_of (int (pos size)) s =
    if ltb 0 size && not (ltb 4194304 size) then (gives size, s) else (raises size_limit, s)
size_of _ s = (raises size_limit, s)

abbrev is_digest : Value → Bool
is_digest (str text) = is_hex_text 64 text
is_digest _ = false

-- mkdir and the creation of package.zip
unfoldable pub make_folder : String → Step (Unit {0})
make_folder job s = elim (get job s.root) [
  | some d ↦ (raises disk_error, s)
  | none ↦ (
    gives tt,
    record s {
      root = put job (record { status = missing; only_upload = true; archive = some [] }) s.root;
    },
  )
]

abbrev pub take_device : String → Step (Unit {0})
take_device job s = (gives tt, record s { active = some job })

abbrev pub new_status : ℕ → ℕ → String → JobStatus
new_status now size job = record {
  job = job;
  phase = uploading;
  size = size;
  received = 0;
  created = now;
  is_recovery = false;
  recovery_verified = false;
}

-- _begin
unfoldable pub begin : Host → Fields → Step Reply
begin host request = do
  check host.supported not_supported
  λ s. check_active s.active s
  size ← size_of (get_or_null "size" request)
  check (is_digest (get_or_null "sha256" request)) invalid_digest
  λ s. check_previous host.now (keys s.root) s
  check (not (ltb host.free (33554432 + size))) no_space
  make_folder host.token
  save (new_status host.now size host.token)
  take_device host.token
  give (status (new_status host.now size host.token))

-- Other jobs in the scan of _commit.
unfoldable pub check_others : String → List String → Step (Unit {0})
check_others job [] = give tt
check_others job (name ∷ names) =
    let rest = check_others job names in
    if not (name == job) && is_hex_text 32 name
    then load name
      >>= (λ other. check (not (is_recovery_required other.phase)) recovery_first >> rest)
    else rest

-- self.task = asyncio.create_task(self._run(...))
unfoldable pub start_run : JobStatus → Step (Unit {0})
start_run state s = (
  gives tt,
  record s {
    active = some state.job;
    task = some (flashing state);
    started = state.job ∷ s.started;
  },
)

unfoldable pub admit_run : Host → JobStatus → Step Reply
admit_run host state = do
  λ s. check (not (is_other s.active state.job)) another_owner s
  λ s. check_others state.job (keys s.root) s
  check (state.received == state.size) incomplete
  check (host.connected && host.has_info) no_device_info
  check host.on_usb not_usb
  check host.has_identity no_identity
  save (record state { phase = validating })
  start_run (record state { phase = validating })
  give (status (record state { phase = validating }))

-- _commit
unfoldable pub commit : Host → JobStatus → Step Reply
commit host state = if is_upload state.phase then admit_run host state else give (status state)

abbrev pub is_none {ℓ} : {A : Type ℓ} → Option A → Bool
is_none none = true
is_none (some a) = false

-- The new status of a job that is checked.
abbrev pub checking : JobStatus → JobStatus
checking state = record state { phase = verifying; is_recovery = true; recovery_verified = false }

unfoldable pub forget_volatile : String → Step (Unit {0})
forget_volatile job s = (
  gives tt,
  record s { volatile = elim (volatile_of job s.volatile) [ none ↦ s.volatile | some v ↦ none ] },
)

unfoldable pub start_recovery : JobStatus → Step (Unit {0})
start_recovery state s = (
  gives tt,
  record s { active = some state.job; maintenance = true; task = some (recovering state) },
)

unfoldable pub admit_recovery : Host → JobStatus → Step Reply
admit_recovery host state = do
  check (is_recovery_required state.phase) not_needed
  λ s. check (is_none s.active && is_none s.task) another_owner s
  check host.connected not_connected
  check (host.on_usb && host.has_identity) no_identity
  same ← need host.evidence bad_evidence
  check same other_captain
  save (checking state)
  forget_volatile state.job
  start_recovery (checking state)
  give (status (checking state))

-- _recover
unfoldable pub recover : Host → JobStatus → Step Reply
recover host state s =
    if (is_owner state.job s.active && state.is_recovery) || state.recovery_verified
    then give (status state) s
    else admit_recovery host state s

-- HUB_UPDATE_ABORT
unfoldable pub abort : JobStatus → Step Reply
abort state = do
  check (is_upload state.phase) cannot_cancel
  save (record state { phase = aborted })
  λ s. (gives tt, record s { active = if is_owner state.job s.active then none else s.active })
  give (status (record state { phase = aborted }))
