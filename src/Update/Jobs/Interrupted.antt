-- ===== src/Update/Jobs/Interrupted.antt =====
-- A job that was cut off: the condition on the service that says so, and conditions around a step.
pub mod Rules
pub mod Loading
pub mod Scans
pub mod Commands
pub mod Handling
pub mod Events
pub mod CutOff
use text.Mathlib.TextEquality.{eq_iff as string_iff}
use bosun_midi_captain.Base.{
  ◌≡◌, ◌≢◌, refl, sym, ◌∙◌, subst, ap, String, Bool, true, false, Option, none, some, List, [], ◌∷◌,
  ◌==◌, ◌&&◌, ◌||◌, not, same_text, if◌then◌else◌, arith, Bool-cases, Option-cases, contains, inl,
  inr,
}
use bosun_midi_captain.Base.Dict.{get, put, keys, get-put}
use bosun_midi_captain.Update.Upload.{Phase, uploading, recovery_required}
use bosun_midi_captain.Update.Jobs.{
  JobStatus, Saved, missing, unreadable, saved, Folder, SaveFault, works, fails_before, fails_after,
  Task, flashing, recovering, Jobs, UpdateError, unknown_job, invalid_job, Returned, gives, raises,
  Step, ◌>>=◌, ◌>>◌, check, need, give, is_hex_text, is_terminal, is_upload, is_recovery_required,
  remember_recovery, directory, next_fault, with_status, write_status, save, unsaved, is_owner,
  volatile_of, load_saved, load_folder, load_volatile, load,
}

module _ (j : String) where
  -- A status of j that makes _load raise or say that recovery is required.
  unfoldable pub blocks : Saved → Bool → Bool
  blocks missing only_upload = not only_upload
  blocks unreadable only_upload = true
  blocks (saved state) only_upload =
      not (state.job == j)
      || not (is_terminal state.phase || is_upload state.phase)
      || is_recovery_required state.phase

  abbrev pub Blocked : Option Folder → Type 0
  Blocked none = ⊥
  Blocked (some d) = blocks d.status d.only_upload ≡ true

  -- A dict in memory that says nothing else of j.
  abbrev pub Flagged : JobStatus → Type 0
  Flagged state = state.job ≡ j → state.phase ≡ recovery_required

  abbrev pub FlaggedIn : Option JobStatus → Type 0
  FlaggedIn none = Unit
  FlaggedIn (some state) = Flagged state

  abbrev pub Elsewhere : Option Task → Type 0
  Elsewhere none = Unit
  Elsewhere (some (flashing state)) = state.job ≢ j
  Elsewhere (some (recovering state)) = state.job ≢ j

  pub Flagged-blocks :
      (state : JobStatus) (b : Bool) → Flagged state → state.job ≡ j → blocks (saved state) b ≡ true
  unfolding blocks is_terminal
  Flagged-blocks state b h e =
      subst
        (λ p.
          (not (state.job == j) || not (is_terminal p || is_upload p) || is_recovery_required p)
          ≡ true)
        (sym (h e)) (ground arith)

module _ (j : String) (log : List String) where
  -- j was cut off and is neither active nor at work; `log` are the installations started so far.
  pub record Interrupted (s : Jobs) : Type 0 where
    pub on_disk : Blocked j (get j s.root)
    pub idle : is_owner j s.active ≡ false
    pub in_memory : FlaggedIn j s.volatile
    pub elsewhere : Elsewhere j s.task
    pub unstarted : s.started ≡ log

  abbrev pub Post : {A : Type 0} → (A → Jobs → Type 0) → Returned A × Jobs → Type 0
  Post Q (gives a, s) = Interrupted s × Q a s
  Post Q (raises e, s) = Interrupted s

  pub record Keeps {A : Type 0} (P : Jobs → Type 0) (m : Step A) (Q : A → Jobs → Type 0)
      : Type 0 where
    pub from : (s : Jobs) → Interrupted s → P s → Post Q (m s)
