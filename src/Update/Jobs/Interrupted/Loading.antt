-- ===== src/Update/Jobs/Interrupted/Loading.antt =====
-- What _load does when a job was cut off.
use text.Mathlib.TextEquality.{eq_iff as string_iff}
use bosun_midi_captain.Base.{
  ◌≡◌, refl, sym, ◌∙◌, subst, String, Bool, true, false, Option, none, some, List, ◌==◌, ◌&&◌, ◌||◌,
  not, same_text, if◌then◌else◌, arith,
}
use bosun_midi_captain.Base.Dict.{get}
use bosun_midi_captain.Update.Upload.{aborted, Phase, recovery_required}
use bosun_midi_captain.Update.Jobs.{
  JobStatus, Saved, missing, unreadable, saved, Folder, Jobs, raises, ◌>>◌, give, is_terminal,
  is_upload, is_recovery_required, save, is_owner, volatile_of, load_saved, load_folder,
  load_volatile, load, invalid_journal, remember,
}
use bosun_midi_captain.Update.Jobs.Interrupted.{
  blocks, Blocked, Flagged, FlaggedIn, Interrupted, Post, Keeps,
}
use bosun_midi_captain.Update.Jobs.Interrupted.Rules.{
  bind, pre, reads, give_lem, directory_lem, save_lem, remember_lem, remember_recovery-Interrupted,
}

pub clash : true ≡ false → ⊥
clash e = ground (arith, e)

is_recovery_required_iff : (p : Phase) → is_recovery_required p ≡ true → p ≡ recovery_required
is_recovery_required_iff recovery_required e = refl
is_recovery_required_iff p e = cc

only_upload_lem :
    (b : Bool) → not b ≡ true → (if b then aborted else recovery_required) ≡ recovery_required
only_upload_lem true e = ground (arith, e)
only_upload_lem false e = refl

module _ (j : String) where
  -- What _load gives for j, and for another job.
  abbrev pub Loaded : String → JobStatus → Jobs → Type 0
  Loaded k state s = (state.job ≡ k) × Flagged j state

  blocks-phase :
      (state : JobStatus)
      → state.job ≡ j
      → (is_terminal state.phase || is_upload state.phase) ≡ true
      → blocks j (saved state) false ≡ true
      → state.phase ≡ recovery_required
  unfolding blocks
  blocks-phase state e c h =
      is_recovery_required_iff state.phase (ground (arith, string_iff state.job j, e, c, h))

module _ {j : String} {log : List String} where
  give-Loaded :
      {P : Jobs → Type 0} (k : String) (state : JobStatus)
      → state.job ≡ k
      → Flagged j state
      → Keeps j log P (give state) (Loaded j k)
  give-Loaded k state e h = give_lem (λ s p. (e, h))

  give_then :
      {P : Jobs → Type 0} (k : String) (state : JobStatus)
      → state.job ≡ k
      → Flagged j state
      → Keeps j log P (remember state >> give state) (Loaded j k)
  give_then k state e h = bind (remember_lem state) λ _. give-Loaded k state e h

  load_saved_lem :
      {P : Jobs → Type 0} (k : String) (state : JobStatus)
      → ((s : Jobs) → Interrupted j log s → P s → k ≡ j → blocks j (saved state) false ≡ true)
      → Keeps j log P (load_saved state k) (Loaded j k)
  unfolding load_saved
  load_saved_lem {P} k state h = record {
    from = λ s i p.
        go s i p (state.job == k) refl (is_terminal state.phase || is_upload state.phase) refl
          (is_owner k s.active) refl;
  }
    where
      halted : JobStatus
      halted = record state { phase = recovery_required }

      same_job : (state.job == k) ≡ true → state.job ≡ k
      same_job e = (string_iff state.job k).0 e

      go :
          (s : Jobs)
          → Interrupted j log s
          → P s
          → (b : Bool) → (state.job == k) ≡ b
          → (c : Bool) → (is_terminal state.phase || is_upload state.phase) ≡ c
          → (d : Bool) → is_owner k s.active ≡ d
          → Post j log (Loaded j k) (
              if not b
              then (raises invalid_journal, s)
              else if not c && not d
              then (remember halted >> save halted >> remember halted >> give halted) s
              else (remember state >> give state) s)
      go s i p false e c f d g = i
      go s i p true e false f false g =
          (bind
              (bind (bind (remember_lem {P = P} halted) λ _. save_lem halted (λ _. refl))
                λ _. remember_lem halted)
              λ _. give-Loaded k halted ((string_iff state.job k).0 e) (λ _. refl)).from
            s i p
      go s i p true e false f true g =
          (give_then {P = P} k state (same_job e) (λ e'. absurd (
              clash (
                sym (subst (λ x. is_owner x s.active ≡ true) (sym (same_job e) ∙ e') g)
                ∙ i.idle)))).from
            s i p
      go s i p true e true f d g =
          (give_then {P = P} k state (same_job e)
              (λ e'. blocks-phase j state e' f (h s i p (sym (same_job e) ∙ e')))).from
            s i p

  load_folder_lem :
      {P : Jobs → Type 0} (k : String) (status : Saved) (d : Folder)
      → (k ≡ j → blocks j status d.only_upload ≡ true)
      → Keeps j log P (load_folder status d k) (Loaded j k)
  unfolding load_folder blocks
  load_folder_lem k missing d h = record {
    from = λ s i p.
        (remember_recovery-Interrupted _ s i, (refl, λ e. only_upload_lem d.only_upload (h e)));
  }
  load_folder_lem k unreadable d h = record { from = λ s i p. i }
  load_folder_lem k (saved state) d h = load_saved_lem k state (λ s i p e. h e)

  pub load_lem : {P : Jobs → Type 0} (k : String) → Keeps j log P (load k) (Loaded j k)
  unfolding load load_volatile volatile_of
  load_lem k =
      pre {P' = λ _. Unit {0}} (λ s p. tt)
        (bind (directory_lem k) λ d. reads λ t i p. go t i d p.1 t.volatile refl)
    where
      from_disk :
          (t : Jobs)
          → Interrupted j log t
          → (d : Folder) → get k t.root ≡ some d
          → Keeps j log (λ s. s ≡ t) (load_folder d.status d k) (Loaded j k)
      from_disk t i d e =
          load_folder_lem k d.status d
            (λ h. subst (Blocked j) e (subst (λ x. Blocked j (get x t.root)) (sym h) i.on_disk))

      held :
          (t : Jobs)
          → Interrupted j log t
          → (d : Folder) → get k t.root ≡ some d
          → (v : JobStatus) → Flagged j v
          → (b : Bool) → (v.job == k) ≡ b
          → Keeps j log (λ s. s ≡ t) (load_volatile (if b then some v else none) d k) (Loaded j k)
      held t i d e v f true g = record {
        from = λ s i p. (remember_recovery-Interrupted v s i, ((string_iff v.job k).0 g, f));
      }
      held t i d e v f false g = from_disk t i d e

      go :
          (t : Jobs)
          → Interrupted j log t
          → (d : Folder) → get k t.root ≡ some d
          → (v : Option JobStatus) → t.volatile ≡ v
          → Keeps j log (λ s. s ≡ t) (load_volatile (volatile_of k v) d k) (Loaded j k)
      go t i d e none f = from_disk t i d e
      go t i d e (some v) f = held t i d e v (subst (FlaggedIn j) f i.in_memory) (v.job == k) refl
