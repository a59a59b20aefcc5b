-- ===== src/Update/Jobs/Interrupted/Handling.antt =====
-- Every request that does not ask for the recovery of a job that was cut off leaves it so.
use text.Mathlib.TextEquality.{eq_iff as string_iff}
use bosun_midi_captain.Json.{str, Value, Fields, get_or_null}
use bosun_midi_captain.Base.{
  ◌≡◌, ◌≢◌, refl, sym, ◌∙◌, subst, ap, String, Bool, true, false, Option, none, some, List, ◌==◌,
  ◌&&◌, same_text, same_nat, ℕ, if◌then◌else◌, arith,
}
use bosun_midi_captain.Base.Dict.{get}
use bosun_midi_captain.Update.Upload.{is_other, aborted, Phase, uploading, recovery_required}
use bosun_midi_captain.Update.Jobs.{
  stopping_hub, JobStatus, Folder, SaveFault, Jobs, Returned, gives, raises, ◌>>◌, give,
  is_hex_text, write_status,
}
use bosun_midi_captain.Update.Jobs.Interrupted.{blocks, Blocked, Flagged, Interrupted, Post, Keeps}
use bosun_midi_captain.Update.Jobs.Interrupted.Rules.{
  bind, pre, given, reads, give_lem, put-Interrupted, directory_lem, write_status_lem,
  next_fault_lem,
}
use bosun_midi_captain.Update.Jobs.Interrupted.Loading.{load_lem, clash}
use bosun_midi_captain.Update.Jobs.Requests.{Host, Reply, status, take_device}
use bosun_midi_captain.Update.Upload as Upload
use bosun_midi_captain.Update.Jobs.Work.{asks_recovery}
use bosun_midi_captain.Update.Jobs.Interrupted.Commands.{
  Any, take_device_lem, abort_lem, begin_lem, commit_lem, recover_lem,
}
use bosun_midi_captain.Update.Jobs.Handle.{
  job_of, view_of, chunk_fault, new_folder, end_chunk, Command, info, begin_job, status_job,
  chunk_job, abort_job, commit_job, recover_job, is_recover, command_of, name_of, chunk_of,
  perform_on, perform, answer_to, handle_kind, handle,
}

at_job : {A : Type 0} (a b : Bool) → a ≡ true → (A → b ≡ true) → A → (a && b) ≡ false → ⊥
at_job a b e f x n = ground (arith, e, f x, n)

not_accepting_lem :
    (b64decode : String → Option (List ℕ)) (msg : Fields) (fault : Upload.Fault) (state : JobStatus)
    (s : Upload.Service)
    → state.phase ≡ recovery_required
    → (Upload.chunk b64decode msg fault (job_of state) s).0 ≡ Upload.refuse Upload.not_accepting
unfolding Upload.chunk Upload.is_uploading
not_accepting_lem b64decode msg fault state s e = rw (ap (Upload.is_uploading b64decode) e) refl

module _ {j : String} {log : List String} where
  -- A chunk for j is refused.
  end_chunk_lem :
      {P : Jobs → Type 0} (answer : Upload.Answer) (fault : SaveFault) (state : JobStatus)
      (d : Folder)
      → (state.job ≡ j → blocks j d.status d.only_upload ≡ true)
      → (state.job ≡ j → answer ≡ Upload.refuse Upload.not_accepting)
      → Keeps j log P (end_chunk answer fault state d) Any
  unfolding end_chunk
  end_chunk_lem (Upload.refuse e) fault state d h r =
      bind {Q = Any} (record { from = λ s i p. (put-Interrupted state.job d s i h, tt) })
        λ _. record { from = λ s i p. i }
  end_chunk_lem {P} (Upload.reply job) fault state d h r = go (job.received == state.received)
    where
      is_refusal : Upload.Answer → Bool
      is_refusal (Upload.refuse e) = true
      is_refusal (Upload.reply job) = false

      other : state.job ≢ j
      other e = clash (sym (ap is_refusal (r e)))

      go :
          (b : Bool)
          → Keeps j log P
              (if b
                then take_device state.job >> give (status state)
                else write_status fault (record state { received = job.received }) d
                  >> take_device state.job
                  >> give (status (record state { received = job.received })))
              Any
      go true = bind (take_device_lem {P = P} state.job other) λ _. give_lem (λ s p. tt)
      go false =
          bind
            (bind
              (write_status_lem {P = P} fault (record state { received = job.received }) d
                (λ e. absurd (other e)))
              λ _. take_device_lem state.job other)
            λ _. give_lem (λ s p. tt)

  module _ (b64decode : String → Option (List ℕ)) where
    chunk_of_lem :
        {P : Jobs → Type 0} (host : Host) (msg : Fields) (state : JobStatus)
        → Flagged j state
        → Keeps j log P (chunk_of b64decode host msg state) Any
    unfolding chunk_of
    chunk_of_lem host msg state h =
        pre {P' = λ _. Unit {0}} (λ s p. tt)
          (bind (directory_lem state.job) λ d. bind (next_fault_lem (λ s fs p. p)) λ fault.
            reads
              {f = λ t.
                let answered =
                  Upload.chunk b64decode msg (chunk_fault host.torn fault) (job_of state)
                    (view_of state d t) in
                end_chunk answered.0 fault state (new_folder state.job d answered.1)}
              λ t i p.
                end_chunk_lem _ fault state _
                  (λ e.
                    subst (Blocked j) p.1 (subst (λ x. Blocked j (get x t.root)) (sym e) i.on_disk))
                  (λ e.
                    not_accepting_lem b64decode msg (chunk_fault host.torn fault) state
                      (view_of state d t) (h e)))

    module _ (hex : is_hex_text 32 j ≡ true) where
      perform_on_lem :
          {P : Jobs → Type 0} (command : Command) (host : Host) (msg : Fields) (state : JobStatus)
          → Flagged j state
          → (is_recover command ≡ true → state.job ≢ j)
          → Keeps j log P (perform_on b64decode command host msg state) Any
      unfolding perform_on
      perform_on_lem status_job host msg state h n = give_lem (λ s p. tt)
      perform_on_lem chunk_job host msg state h n = chunk_of_lem host msg state h
      perform_on_lem abort_job host msg state h n = abort_lem state h
      perform_on_lem commit_job host msg state h n = commit_lem hex host state h
      perform_on_lem recover_job host msg state h n = recover_lem host state (n refl)
      perform_on_lem _ host msg state h n = record { from = λ s i p. i }

      perform_lem :
          {P : Jobs → Type 0} (command : Command) (host : Host) (msg : Fields)
          → (is_recover command && (name_of (get_or_null "job" msg) == j)) ≡ false
          → Keeps j log P (perform b64decode command host msg) Any
      unfolding perform
      perform_lem {P} info host msg n = give_lem (λ s p. tt)
      perform_lem {P} begin_job host msg n = begin_lem hex host msg
      perform_lem {P} command host msg n =
          bind (load_lem {P = P} (name_of (get_or_null "job" msg))) λ state.
            given (λ s p. p)
              λ p. perform_on_lem command host msg state p.1 (λ r e.
                at_job (is_recover command) (name_of (get_or_null "job" msg) == j) r
                  (string_iff _ j).1 (sym p.0 ∙ e) n)

      answered :
          (o : Returned Reply × Jobs)
          → Post j log Any o
          → Interrupted j log (answer_to b64decode o).1
      unfolding answer_to
      answered (gives r, s) h = h.0
      answered (raises e, s) h = h

      pub handle_lem :
          (host : Host) (msg : Fields) (s : Jobs)
          → asks_recovery j (get_or_null "type" msg) msg ≡ false
          → Interrupted j log s
          → Interrupted j log (handle b64decode host msg s).1
      unfolding handle handle_kind asks_recovery
      handle_lem host msg s n i = go (get_or_null "type" msg) n
        where
          texts :
              (kind : String)
              → (is_recover (command_of kind) && (name_of (get_or_null "job" msg) == j)) ≡ false
              → (a b : Bool)
              → Interrupted j log
                  (if a
                    then if b
                      then (some (Reply.error stopping_hub), s)
                      else answer_to b64decode (perform b64decode (command_of kind) host msg s)
                    else (none, s)).1
          texts kind n true true = i
          texts kind n true false =
              answered _ ((perform_lem {P = λ _. Unit} (command_of kind) host msg n).from s i tt)
          texts kind n false b = i

          go :
              (v : Value)
              → asks_recovery j v msg ≡ false
              → Interrupted j log (handle_kind b64decode v host msg s).1
          go (str kind) n = texts kind n _ s.stopping
          go _ n = i
