-- ===== src/Update/Jobs/Handle.antt =====
-- tools/rpi-hub/bosun_hub/update_service.py: handle, which gives a request to its method and answers
-- the exceptions; _chunk on the saved jobs, by way of Update/Upload.
use text.Mathlib.Text.{starts_with}
use bosun_midi_captain.Base.{
  ℕ, String, Bool, true, false, Option, none, some, List, [], ◌∷◌, ◌==◌, same_nat, same_text,
  if◌then◌else◌,
}
use bosun_midi_captain.Base.Dict.{get, put}
use bosun_midi_captain.Json.{Value, Fields, str, get_or_null}
use bosun_midi_captain.Update.Upload.{
  Job, Directory, Service, Fault, no_fault, write_stops, save_fails, Answer, reply, refuse, chunk,
}
use bosun_midi_captain.Update.Jobs.{
  JobStatus, Folder, SaveFault, fails_before, Jobs, stopping_hub, unknown_command, chunk_refused,
  Returned, gives, raises, Step, ◌>>=◌, ◌>>◌, give, directory, next_fault, load, write_status,
}
use bosun_midi_captain.Update.Jobs.Requests.{
  Host, Reply, status, ready, error, take_device, begin, commit, recover, abort,
}

abbrev pub job_of : JobStatus → Job
job_of state = record {
  job = state.job;
  phase = state.phase;
  size = state.size;
  received = state.received;
}

-- The job's directory as Update/Upload has it.
abbrev pub view_of : JobStatus → Folder → Jobs → Service
view_of state d s = record {
  active = s.active;
  jobs = (state.job, record { status = job_of state; archive = d.archive }) ∷ [];
}

abbrev pub chunk_fault : Option ℕ → SaveFault → Fault
chunk_fault (some n) f = write_stops n
chunk_fault none fails_before = save_fails
chunk_fault none f = no_fault

abbrev archive_of : Option Directory → Option (List ℕ)
archive_of none = none
archive_of (some d) = d.archive

-- What the chunk left of package.zip.
abbrev pub new_folder : String → Folder → Service → Folder
new_folder job d u = record d { archive = archive_of (get job u.jobs) }

abbrev pub put_folder : String → Folder → Step (Unit {0})
put_folder job d s = (gives tt, record s { root = put job d s.root })

-- The end of _chunk: the retry of a chunk that is there saves nothing.
unfoldable pub end_chunk : Answer → SaveFault → JobStatus → Folder → Step Reply
end_chunk (refuse e) fault state d = put_folder state.job d >> λ s. (raises (chunk_refused e), s)
end_chunk (reply job) fault state d =
    if job.received == state.received
    then take_device state.job >> give (status state)
    else write_status fault (record state { received = job.received }) d
      >> take_device state.job
      >> give (status (record state { received = job.received }))

-- The commands that begin with HUB_UPDATE_.
pub data Command : Type 0 where
  info begin_job status_job chunk_job abort_job commit_job recover_job unknown : Command

unfoldable pub command_of : String → Command
command_of kind =
    if kind == "HUB_UPDATE_INFO"
    then info
    else if kind == "HUB_UPDATE_BEGIN"
    then begin_job
    else if kind == "HUB_UPDATE_STATUS"
    then status_job
    else if kind == "HUB_UPDATE_CHUNK"
    then chunk_job
    else if kind == "HUB_UPDATE_ABORT"
    then abort_job
    else if kind == "HUB_UPDATE_COMMIT"
    then commit_job
    else if kind == "HUB_UPDATE_RECOVER"
    then recover_job
    else unknown

abbrev pub is_recover : Command → Bool
is_recover recover_job = true
is_recover _ = false

-- The job that a request names; a value that is no text is no job either.
unfoldable pub name_of : Value → String
name_of (str job) = job
name_of _ = ""

module _ (b64decode : String → Option (List ℕ)) where
  -- _chunk
  unfoldable pub chunk_of : Host → Fields → JobStatus → Step Reply
  chunk_of host request state = do
    d ← directory state.job
    fault ← next_fault
    λ s.
        let (answer, u) =
          chunk b64decode request (chunk_fault host.torn fault) (job_of state)
            (view_of state d s) in
        end_chunk answer fault state (new_folder state.job d u) s

  unfoldable pub perform_on : Command → Host → Fields → JobStatus → Step Reply
  perform_on status_job host request state = give (status state)
  perform_on chunk_job host request state = chunk_of host request state
  perform_on abort_job host request state = abort state
  perform_on commit_job host request state = commit host state
  perform_on recover_job host request state = recover host state
  perform_on _ host request state = λ s. (raises unknown_command, s)

  unfoldable pub perform : Command → Host → Fields → Step Reply
  perform info host request = give (ready host.supported)
  perform begin_job host request = begin host request
  perform command host request =
      load (name_of (get_or_null "job" request)) >>= λ state. perform_on command host request state

  unfoldable pub answer_to : Returned Reply × Jobs → Option Reply × Jobs
  answer_to (gives r, s) = (some r, s)
  answer_to (raises e, s) = (some (error e), s)

  unfoldable pub handle_kind : Value → Host → Fields → Jobs → Option Reply × Jobs
  handle_kind (str kind) host request s =
      if starts_with kind "HUB_UPDATE_"
      then if s.stopping
        then (some (error stopping_hub), s)
        else answer_to (perform (command_of kind) host request s)
      else (none, s)
  handle_kind _ host request s = (none, s)

  -- handle; `none` for a request that is not the service's.
  unfoldable pub handle : Host → Fields → Jobs → Option Reply × Jobs
  handle host request = handle_kind (get_or_null "type" request) host request
