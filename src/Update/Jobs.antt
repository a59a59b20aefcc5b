-- ===== src/Update/Jobs.antt =====
-- tools/rpi-hub/bosun_hub/update_service.py: the saved jobs of UpdateService. A method is a function
-- from the service to what it returns or raises and the service after it; the disk's faults are a
-- list in the service, one for each call of _save and of _chunk. `root` has the directories under the service's
-- root; symbolic links and files there are left out. The file package.zip stands with the directory.
-- A status lacks no field that is read: one that does counts as unreadable.
pub mod Requests
pub mod Handle
pub mod Work
pub mod Interrupted
use Prim.Native.Char.{code}
use bosun_midi_captain.Base.{
  ℕ, zero, suc, String, Bool, true, false, Option, none, some, List, [], ◌∷◌, leb, ◌==◌, ◌&&◌, ◌||◌,
  not, same_nat, same_text, if◌then◌else◌, discard,
}
use bosun_midi_captain.Base.Dict.{Dict, get, put, keys}
use bosun_midi_captain.Update.Upload.{
  UploadError, Phase, uploading, aborted, failed, rolled_back, recovery_required,
}

-- The dict of a job's status.
pub record JobStatus : Type 0 where
  pub job : String
  pub phase : Phase
  pub size : ℕ
  pub received : ℕ
  -- In milliseconds.
  pub created : ℕ
  -- operation == "recovery"
  pub is_recovery : Bool
  pub recovery_verified : Bool

-- status.json
pub data Saved : Type 0 where
  missing unreadable : Saved
  saved : JobStatus → Saved

-- A job's directory. `only_upload`: it holds package.zip and status.tmp at most, when status.json is
-- missing.
pub record Folder : Type 0 where
  pub status : Saved
  pub only_upload : Bool
  pub archive : Option (List ℕ)

-- One call of _save: it works, it fails before the new file is in place, or it fails after that.
pub data SaveFault : Type 0 where
  works fails_before fails_after : SaveFault

-- What the task that was started last does, and the dict that it owns.
pub data Task : Type 0 where
  flashing recovering : JobStatus → Task

pub record Jobs : Type 0 where
  pub active : Option String
  pub task : Option Task
  pub maintenance : Bool
  pub stopping : Bool
  pub volatile : Option JobStatus
  pub recovery_jobs : List String
  pub scanned : Bool
  pub root : Dict String Folder
  pub faults : List SaveFault
  -- The jobs whose installation was started, for the theorems.
  pub started : List String

pub data UpdateError : Type 0 where
  stopping_hub unknown_command invalid_job unknown_job invalid_journal disk_error : UpdateError
  not_supported in_progress size_limit invalid_digest recovery_first upload_pending : UpdateError
  no_space another_owner cannot_cancel incomplete : UpdateError
  no_device_info not_usb no_identity not_needed not_connected other_captain bad_evidence :
      UpdateError
  chunk_refused : UploadError → UpdateError

pub data Returned (A : Type 0) : Type 0 where
  gives : A → Returned A
  raises : UpdateError → Returned A

abbrev pub Step : Type 0 → Type 0
Step A = Jobs → Returned A × Jobs

infixl 5 ◌>>=◌ ◌>>◌
unfoldable pub ◌>>=◌ : {A B : Type 0} → Step A → (A → Step B) → Step B
◌>>=◌ m f s = let (r, s') = m s in elim r [ gives a ↦ f a s' | raises e ↦ (raises e, s') ]

abbrev pub ◌>>◌ : {A B : Type 0} → Step A → Step B → Step B
m >> k = m >>= λ _. k

-- if not test: raise
unfoldable pub check : Bool → UpdateError → Step (Unit {0})
check b e s = if b then (gives tt, s) else (raises e, s)

unfoldable pub need : {A : Type 0} → Option A → UpdateError → Step A
need none e s = (raises e, s)
need (some a) e s = (gives a, s)

-- An assignment to attributes of the service that keeps its jobs and its task.
abbrev pub give : {A : Type 0} → A → Step A
give a s = (gives a, s)

abbrev is_hex : ℕ → Bool
is_hex c = (leb 48 c && leb c 57) || (leb 97 c && leb c 102)

-- re.fullmatch(r"[a-f0-9]{n}", text)
unfoldable pub is_hex_text : ℕ → String → Bool
is_hex_text zero String.[] = true
is_hex_text (suc n) (String.◌∷◌ c s) = is_hex (code c) && is_hex_text n s
is_hex_text _ _ = false

-- phase in TERMINAL
unfoldable pub is_terminal : Phase → Bool
is_terminal aborted = true
is_terminal Phase.done = true
is_terminal failed = true
is_terminal rolled_back = true
is_terminal recovery_required = true
is_terminal _ = false

abbrev pub is_upload : Phase → Bool
is_upload uploading = true
is_upload _ = false

abbrev pub is_recovery_required : Phase → Bool
is_recovery_required recovery_required = true
is_recovery_required _ = false

-- _remember_recovery
unfoldable pub remember_recovery : JobStatus → Jobs → Jobs
remember_recovery state s =
    let others = discard state.job s.recovery_jobs in
    record s {
      recovery_jobs = if is_recovery_required state.phase then state.job ∷ others else others;
    }

abbrev pub remember : JobStatus → Step (Unit {0})
remember state s = (gives tt, remember_recovery state s)

-- _directory
unfoldable pub directory : String → Step Folder
directory job s =
    if is_hex_text 32 job then need (get job s.root) unknown_job s else (raises invalid_job, s)

abbrev head_or_works : List SaveFault → SaveFault
head_or_works [] = works
head_or_works (f ∷ fs) = f

abbrev tail_or_none : List SaveFault → List SaveFault
tail_or_none [] = []
tail_or_none (f ∷ fs) = fs

unfoldable pub next_fault : Step SaveFault
next_fault s = (gives (head_or_works s.faults), record s { faults = tail_or_none s.faults })

abbrev pub with_status : JobStatus → Folder → Jobs → Jobs
with_status state d s = record s { root = put state.job (record d { status = saved state }) s.root }

unfoldable pub write_status : SaveFault → JobStatus → Folder → Step (Unit {0})
write_status works state d s = (gives tt, remember_recovery state (with_status state d s))
write_status fails_before state d s = (raises disk_error, s)
write_status fails_after state d s = (raises disk_error, with_status state d s)

-- _save
unfoldable pub save : JobStatus → Step (Unit {0})
save state = do d ← directory state.job; fault ← next_fault; write_status fault state d

-- A status that was never saved.
abbrev pub unsaved : String → Phase → JobStatus
unsaved job phase = record {
  job = job;
  phase = phase;
  size = 0;
  received = 0;
  created = 0;
  is_recovery = false;
  recovery_verified = false;
}

abbrev pub is_owner : String → Option String → Bool
is_owner job none = false
is_owner job (some owner) = owner == job

unfoldable pub volatile_of : String → Option JobStatus → Option JobStatus
volatile_of job none = none
volatile_of job (some state) = if state.job == job then some state else none

-- A job that was at work when the hub stopped.
unfoldable pub load_saved : JobStatus → String → Step JobStatus
load_saved state job s =
    if not (state.job == job)
    then (raises invalid_journal, s)
    else if not (is_terminal state.phase || is_upload state.phase) && not (is_owner job s.active)
    then (remember (record state { phase = recovery_required })
          >> save (record state { phase = recovery_required })
          >> remember (record state { phase = recovery_required })
          >> give (record state { phase = recovery_required }))
        s
    else (remember state >> give state) s

unfoldable pub load_folder : Saved → Folder → String → Step JobStatus
load_folder missing d job s =
    let state = unsaved job (if d.only_upload then aborted else recovery_required) in
    (gives state, remember_recovery state s)
load_folder unreadable d job s = (raises invalid_journal, s)
load_folder (saved state) d job s = load_saved state job s

unfoldable pub load_volatile : Option JobStatus → Folder → String → Step JobStatus
load_volatile (some state) d job s = (gives state, remember_recovery state s)
load_volatile none d job s = load_folder d.status d job s

-- _load
unfoldable pub load : String → Step JobStatus
load job = do d ← directory job; λ s. load_volatile (volatile_of job s.volatile) d job s

-- allows_local_ping: the scan of the root, once.
unfoldable pub scan : List String → Jobs → Jobs
scan [] s = s
scan (name ∷ names) s =
    let (r, s') = load name s in
    scan names (
      if is_hex_text 32 name
      then elim r [
        | gives state ↦ s'
        | raises e ↦ record s' { recovery_jobs = name ∷ discard name s'.recovery_jobs }
      ]
      else s)

abbrev is_empty : List String → Bool
is_empty [] = true
is_empty _ = false

unfoldable pub allows_local_ping : Jobs → Bool × Jobs
allows_local_ping s =
    let s' = if s.scanned then s else scan (keys s.root) (record s { scanned = true }) in
    if s.maintenance then (true, s) else (not (is_empty s'.recovery_jobs), s')
