-- ===== src/Update/Jobs/Interrupted/Rules.antt =====
-- Rules for steps that keep a job that was cut off as it is.
use text.Mathlib.TextEquality.{eq_iff as string_iff}
use bosun_midi_captain.Base.{
  ◌≡◌, refl, sym, subst, String, Bool, true, false, Option, none, some, List, ◌==◌, same_text,
  if◌then◌else◌,
}
use bosun_midi_captain.Base.Dict.{get, put, get-put}
use bosun_midi_captain.Update.Jobs.{
  JobStatus, saved, Folder, SaveFault, works, fails_before, fails_after, Jobs, UpdateError,
  unknown_job, invalid_job, Returned, gives, raises, Step, ◌>>=◌, check, need, give, is_hex_text,
  remember_recovery, directory, next_fault, with_status, write_status, save,
}
use bosun_midi_captain.Update.Jobs.Interrupted.{
  blocks, Blocked, Flagged, Interrupted, Post, Keeps, Flagged-blocks,
}

module _ {j : String} {log : List String} where
  pub bind :
      {A B : Type 0} {P : Jobs → Type 0} {Q : A → Jobs → Type 0} {Q' : B → Jobs → Type 0}
      {m : Step A} {f : A → Step B}
      → Keeps j log P m Q
      → ((a : A) → Keeps j log (Q a) (f a) Q')
      → Keeps j log P (m >>= f) Q'
  unfolding ◌>>=◌
  bind {A} {B} {P} {Q} {Q'} {m} {f} first next = record {
    from = λ s i h. go (m s) (first.from s i h);
  }
    where
      go :
          (o : Returned A × Jobs)
          → Post j log Q o
          → Post j log Q' (elim o.0 [ gives a ↦ f a o.1 | raises e ↦ (raises e, o.1) ])
      go (gives a, s') q = (next a).from s' q.0 q.1
      go (raises e, s') r = r

  -- A weaker condition is enough before a step.
  pub pre :
      {A : Type 0} {P P' : Jobs → Type 0} {Q : A → Jobs → Type 0} {m : Step A}
      → ((s : Jobs) → P s → P' s)
      → Keeps j log P' m Q
      → Keeps j log P m Q
  pre h k = record { from = λ s i p. k.from s i (h s p) }

  -- A stronger condition holds after a step.
  pub post :
      {A : Type 0} {P : Jobs → Type 0} {Q Q' : A → Jobs → Type 0} {m : Step A}
      → ((a : A) (s : Jobs) → Q a s → Q' a s)
      → Keeps j log P m Q
      → Keeps j log P m Q'
  post {A} {P} {Q} {Q'} {m} h k = record { from = λ s i p. go (m s) (k.from s i p) }
    where
      go : (o : Returned A × Jobs) → Post j log Q o → Post j log Q' o
      go (gives a, s) q = (q.0, h a s q.1)
      go (raises e, s) q = q

  -- What is known before a step, whatever the service is.
  pub given :
      {A F : Type 0} {P : Jobs → Type 0} {Q : A → Jobs → Type 0} {m : Step A}
      → ((s : Jobs) → P s → F)
      → (F → Keeps j log (λ _. Unit {0}) m Q)
      → Keeps j log P m Q
  given f k = record { from = λ s i p. (k (f s p)).from s i tt }

  -- A step that reads the service.
  pub reads :
      {A : Type 0} {P : Jobs → Type 0} {Q : A → Jobs → Type 0} {f : Jobs → Step A}
      → ((t : Jobs) → Interrupted j log t → P t → Keeps j log (λ s. s ≡ t) (f t) Q)
      → Keeps j log P (λ s. f s s) Q
  reads h = record { from = λ s i p. (h s i p).from s i refl }

  -- A step after what cannot be.
  pub never :
      {A : Type 0} {P : Jobs → Type 0} {m : Step A} {Q : A → Jobs → Type 0}
      → ((s : Jobs) → P s → ⊥)
      → Keeps j log P m Q
  never h = record { from = λ s i p. absurd (h s p) }

  pub check-true :
      {P : Jobs → Type 0} (b : Bool) (e : UpdateError)
      → Keeps j log P (check b e) (λ _ s. P s × (b ≡ true))
  unfolding check
  check-true true e = record { from = λ s i p. (i, (p, refl)) }
  check-true false e = record { from = λ s i p. i }

  pub check_lem :
      {P : Jobs → Type 0} (b : Bool) (e : UpdateError) → Keeps j log P (check b e) (λ _ _. Unit {0})
  check_lem b e = post (λ _ _ _. tt) (check-true b e)

  pub give_lem :
      {A : Type 0} {P : Jobs → Type 0} {a : A} {Q : A → Jobs → Type 0}
      → ((s : Jobs) → P s → Q a s)
      → Keeps j log P (give a) Q
  give_lem h = record { from = λ s i p. (i, h s p) }

  pub remember_recovery-Interrupted :
      (state : JobStatus) (s : Jobs)
      → Interrupted j log s
      → Interrupted j log (remember_recovery state s)
  unfolding remember_recovery
  remember_recovery-Interrupted state s i = record {
    on_disk = i.on_disk;
    idle = i.idle;
    in_memory = i.in_memory;
    elsewhere = i.elsewhere;
    unstarted = i.unstarted;
  }

  -- A folder of another job, or one of j that still blocks.
  pub put-Interrupted :
      (k : String) (d : Folder) (s : Jobs)
      → Interrupted j log s
      → (k ≡ j → blocks j d.status d.only_upload ≡ true)
      → Interrupted j log (record s { root = put k d s.root })
  put-Interrupted k d s i h = record {
    on_disk = subst (Blocked j) (sym (get-put j k d s.root)) (go (k == j) refl);
    idle = i.idle;
    in_memory = i.in_memory;
    elsewhere = i.elsewhere;
    unstarted = i.unstarted;
  }
    where
      go : (b : Bool) → (k == j) ≡ b → Blocked j (if b then some d else get j s.root)
      go true e = h ((string_iff k j).0 e)
      go false e = i.on_disk

  pub remember_lem :
      {P : Jobs → Type 0} (state : JobStatus)
      → Keeps j log P (λ s. (gives tt, remember_recovery state s)) (λ _ _. Unit {0})
  remember_lem state = record { from = λ s i p. (remember_recovery-Interrupted state s i, tt) }

  pub need_lem :
      {A : Type 0} {P : Jobs → Type 0} (o : Option A) (e : UpdateError)
      → Keeps j log P (need o e) (λ a s. P s × (o ≡ some a))
  unfolding need
  need_lem none e = record { from = λ s i p. i }
  need_lem (some a) e = record { from = λ s i p. (i, (p, refl)) }

  pub directory_lem :
      {P : Jobs → Type 0} (k : String)
      → Keeps j log P
          (directory k)
          (λ d s. P s × (get k s.root ≡ some d) × (is_hex_text 32 k ≡ true))
  unfolding directory need
  directory_lem {P} k = record { from = λ s i p. go s i p (is_hex_text 32 k) refl }
    where
      found :
          (s : Jobs)
          → Interrupted j log s
          → P s
          → is_hex_text 32 k ≡ true
          → (o : Option Folder) → get k s.root ≡ o
          → Post j log
              (λ d s. P s × (get k s.root ≡ some d) × (is_hex_text 32 k ≡ true))
              (need o unknown_job s)
      found s i p e none f = i
      found s i p e (some d) f = (i, (p, f, e))

      go :
          (s : Jobs)
          → Interrupted j log s
          → P s
          → (b : Bool) → is_hex_text 32 k ≡ b
          → Post j log
              (λ d s. P s × (get k s.root ≡ some d) × (is_hex_text 32 k ≡ true))
              ((if b then need (get k s.root) unknown_job s else (raises invalid_job, s)))
      go s i p true e = found s i p e (get k s.root) refl
      go s i p false e = i

  pub next_fault_lem :
      {P : Jobs → Type 0}
      → ((s : Jobs) (fs : List SaveFault) → P s → P (record s { faults = fs }))
      → Keeps j log P next_fault (λ _. P)
  unfolding next_fault
  next_fault_lem h = record {
    from = λ s i p. (
      record {
        on_disk = i.on_disk;
        idle = i.idle;
        in_memory = i.in_memory;
        elsewhere = i.elsewhere;
        unstarted = i.unstarted;
      },
      h s _ p,
    );
  }

  pub write_status_lem :
      {P : Jobs → Type 0} (fault : SaveFault) (state : JobStatus) (d : Folder)
      → Flagged j state
      → Keeps j log P (write_status fault state d) (λ _ _. Unit {0})
  unfolding write_status
  write_status_lem fault state d h = record { from = λ s i p. go fault s i }
    where
      put_it : (s : Jobs) → Interrupted j log s → Interrupted j log (with_status state d s)
      put_it s i =
          put-Interrupted state.job (record d { status = saved state }) s i
            (Flagged-blocks j state d.only_upload h)

      go :
          (f : SaveFault) (s : Jobs)
          → Interrupted j log s
          → Post j log (λ _ _. Unit {0}) (write_status f state d s)
      go works s i = (remember_recovery-Interrupted state (with_status state d s) (put_it s i), tt)
      go fails_before s i = i
      go fails_after s i = put_it s i

  pub save_lem :
      {P : Jobs → Type 0} (state : JobStatus)
      → Flagged j state
      → Keeps j log P (save state) (λ _ _. Unit {0})
  unfolding save
  save_lem {P} state h =
      pre {P' = λ _. Unit {0}} (λ s p. tt)
        (bind (directory_lem state.job)
          λ d. bind (next_fault_lem (λ s fs p. p)) λ fault. write_status_lem fault state d h)
