-- ===== src/Update/Upload.antt =====
-- tools/rpi-hub/bosun_hub/update_service.py: the upload of an archive in chunks (_chunk, _save).
-- Bytes are numbers. A job's directory holds its saved status and the bytes of package.zip;
-- `Job` has the fields of the status that the upload reads. The set of jobs in need of recovery that
-- _save keeps up to date stands in Update/Jobs. `b64decode` stands for
-- base64.b64decode(validate=True), with `none` for an exception.
pub mod Storage
use bosun_midi_captain.Base.{
  ℕ, zero, suc, ◌+◌, ◌-◌, String, Bool, true, false, Option, none, some, List, [], ◌∷◌, ◌++◌, ltb,
  length, take, drop, ◌==◌, ◌||◌, not, same_nat, same_text, if◌then◌else◌,
}
use bosun_midi_captain.Base.Dict.{Dict, get, put}
use bosun_midi_captain.Base.Int.{ℤ, pos}
use bosun_midi_captain.Json.{Value, Fields, int, str, get_or_null}
use bosun_midi_captain.Update.Uf2.{equal_lists}

-- MAX_CHUNK
abbrev pub max_chunk : ℕ
max_chunk = 16384

-- 4 * ((MAX_CHUNK + 2) // 3)
abbrev pub max_encoded : ℕ
max_encoded = 21848

-- The phases by name; `other` is any further text.
pub data Phase : Type 0 where
  uploading aborted validating verifying done failed rolled_back recovery_required : Phase
  other : String → Phase

-- The saved status of a job.
pub record Job : Type 0 where
  pub job : String
  pub phase : Phase
  pub size : ℕ
  pub received : ℕ

pub record Directory : Type 0 where
  pub status : Job
  pub archive : Option (List ℕ)

pub record Service : Type 0 where
  pub active : Option String
  pub jobs : Dict String Directory

-- What the disk does to one chunk: the write stops after some bytes, the flush after
-- it or the saving of the status fails, or nothing fails.
pub data Fault : Type 0 where
  no_fault : Fault
  write_stops : ℕ → Fault
  save_fails : Fault

-- The exceptions that `handle` turns into an ERROR.
pub data UploadError : Type 0 where
  not_accepting another_owner invalid_chunk bad_base64 beyond_bounds : UploadError
  conflicting_retry out_of_order unknown_job disk_error : UploadError

pub data Answer : Type 0 where
  reply : Job → Answer
  refuse : UploadError → Answer

abbrev pub zeros : ℕ → List ℕ
zeros zero = []
zeros (suc n) = 0 ∷ zeros n

-- out.seek(offset): a write past the end fills the gap with zeros.
unfoldable pub seek : ℕ → List ℕ → List ℕ
seek offset bytes = take offset (bytes ++ zeros (offset - length bytes))

-- out.write(data) that stopped after n bytes: what stood behind them is still there.
unfoldable pub torn_write : ℕ → ℕ → List ℕ → List ℕ → List ℕ
torn_write zero offset content bytes = bytes
torn_write n offset content bytes =
    seek offset bytes ++ (take n content ++ drop (offset + length (take n content)) bytes)

-- out.write(data) and out.truncate()
unfoldable pub full_write : ℕ → List ℕ → List ℕ → List ℕ
full_write offset content bytes = seek offset bytes ++ content

-- What follows out.seek in the branch that appends: the answer, the saved status and the bytes.
unfoldable pub append_chunk : Fault → ℕ → List ℕ → Job → List ℕ → Answer × (Job × List ℕ)
append_chunk (write_stops n) offset content state bytes =
    (refuse disk_error, (state, torn_write n offset content bytes))
append_chunk save_fails offset content state bytes =
    (refuse disk_error, (state, full_write offset content bytes))
append_chunk no_fault offset content state bytes =
    let state' : Job = record state { received = state.received + length content } in
    (reply state', (state', full_write offset content bytes))

-- with path.open("r+b") as out: ...
unfoldable pub store_chunk : Fault → ℕ → List ℕ → Job → List ℕ → Answer × (Job × List ℕ)
store_chunk fault offset content state bytes =
    if ltb offset state.received
    then if ltb state.received (offset + length content)
        || not (equal_lists (take (length content) (drop offset bytes)) content)
      then (refuse conflicting_retry, (state, bytes))
      else (reply state, (state, bytes))
    else if not (offset == state.received)
    then (refuse out_of_order, (state, bytes))
    else append_chunk fault offset content state bytes

-- self.active = state["job"], where the chunk was taken.
unfoldable pub own : Answer → String → Service → Service
own (reply state) job s = record s { active = some job }
own (refuse e) job s = s

-- _save is reached only by the appended chunk that is answered.
unfoldable pub keep_chunk :
    String → Directory → Answer × (Job × List ℕ) → Service → Answer × Service
keep_chunk job d (answer, (status, bytes)) s =
    let stored : Service = record s {
      jobs = put job (record d { status = status; archive = some bytes }) s.jobs;
    } in
    (answer, own answer job stored)

unfoldable pub open_archive :
    Option (List ℕ) → Directory → Fault → ℕ → List ℕ → Job → Service → Answer × Service
open_archive none d fault offset content state s = (refuse disk_error, s)
open_archive (some bytes) d fault offset content state s =
    keep_chunk state.job d (store_chunk fault offset content state bytes) s

unfoldable pub find_archive :
    Option Directory → Fault → ℕ → List ℕ → Job → Service → Answer × Service
find_archive none fault offset content state s = (refuse unknown_job, s)
find_archive (some d) fault offset content state s =
    open_archive d.archive d fault offset content state s

-- The bounds of the decoded chunk.
unfoldable pub bound_chunk : Option (List ℕ) → Fault → ℕ → Job → Service → Answer × Service
bound_chunk none fault offset state s = (refuse bad_base64, s)
bound_chunk (some content) fault offset state s =
    if length content == 0
      || ltb max_chunk (length content)
      || ltb state.size (offset + length content)
    then (refuse beyond_bounds, s)
    else find_archive (get state.job s.jobs) fault offset content state s

abbrev text_length : String → ℕ
text_length String.[] = 0
text_length (String.◌∷◌ c s) = suc (text_length s)

-- self.active not in (None, state["job"])
unfoldable pub is_other : Option String → String → Bool
is_other none job = false
is_other (some owner) job = not (owner == job)

module _ (b64decode : String → Option (List ℕ)) where
  -- The types of the two fields, and the length of the text.
  unfoldable pub read_chunk : Value → Value → Fault → Job → Service → Answer × Service
  read_chunk (int (pos offset)) (str encoded) fault state s =
      if ltb max_encoded (text_length encoded)
      then (refuse invalid_chunk, s)
      else bound_chunk (b64decode encoded) fault offset state s
  read_chunk _ _ fault state s = (refuse invalid_chunk, s)

  unfoldable pub is_uploading : Phase → Bool
  is_uploading uploading = true
  is_uploading _ = false

  -- UpdateService._chunk; `state` is what _load returned for the job.
  unfoldable pub chunk : Fields → Fault → Job → Service → Answer × Service
  chunk msg fault state s =
      if not (is_uploading state.phase)
      then (refuse not_accepting, s)
      else if is_other s.active state.job
      then (refuse another_owner, s)
      else read_chunk (get_or_null "offset" msg) (get_or_null "data" msg) fault state s
