-- ===== src/Update/Jobs/Interrupted/Scans.antt =====
-- The scans of the saved jobs in _begin and _commit end at a job that was cut off.
use text.Mathlib.TextEquality.{eq_iff as string_iff}
use bosun_midi_captain.Base.{
  ◌≡◌, ◌≢◌, refl, sym, ◌∙◌, ap, String, Bool, true, false, some, List, [], ◌∷◌, ◌==◌, ◌&&◌, not,
  same_text, same_nat, ltb, ◌+◌, ℕ, if◌then◌else◌, arith, contains,
}
use bosun_midi_captain.Base.Dict.{Dict, get, keys}
use bosun_midi_captain.Update.Upload.{aborted}
use bosun_midi_captain.Update.Jobs.{
  recovery_first, upload_pending, JobStatus, Folder, Jobs, ◌>>=◌, ◌>>◌, check, give, is_hex_text,
  is_upload, is_recovery_required, save, load,
}
use bosun_midi_captain.Update.Jobs.Interrupted.{Blocked, Flagged, Keeps}
use bosun_midi_captain.Update.Jobs.Interrupted.Rules.{
  bind, pre, post, given, check-true, give_lem, save_lem,
}
use bosun_midi_captain.Update.Jobs.Interrupted.Loading.{load_lem, clash}
use bosun_midi_captain.Update.Jobs.Requests.{admit_previous, check_previous, check_others}

-- A phase that is not recovery_required belongs to another job.
pub other_job :
    (j : String) (state : JobStatus)
    → Flagged j state
    → not (is_recovery_required state.phase) ≡ true
    → state.job ≢ j
other_job j state h f e = clash (sym f ∙ ap (λ p. not (is_recovery_required p)) (h e))

not_first :
    (j name : String) (names : List String)
    → name ≢ j
    → contains j names ≡ false
    → contains j (name ∷ names) ≡ false
not_first j name names n e = ground (arith, string_iff name j, n, e)

pub Blocked-keys :
    (j : String) (d : Dict String Folder) → Blocked j (get j d) → contains j (keys d) ≡ true
unfolding get
Blocked-keys j [] h = absurd h
Blocked-keys j ((k, f) ∷ d) h = go (k == j) refl h (Blocked-keys j d)
  where
    go :
        (b : Bool)
        → (k == j) ≡ b
        → Blocked j (if b then some f else get j d)
        → (Blocked j (get j d) → contains j (keys d) ≡ true)
        → contains j (k ∷ keys d) ≡ true
    go true e h r = ground (arith, e)
    go false e h r = ground (arith, e, r h)

hex_ne :
    (j : String)
    → is_hex_text 32 j ≡ true
    → (name : String) → is_hex_text 32 name ≡ false
    → name ≢ j
hex_ne j hex name f e = clash (sym hex ∙ (ap (is_hex_text 32) (sym e) ∙ f))

module _ {j : String} {log : List String} where
  admit_previous_lem :
      {P : Jobs → Type 0} (now : ℕ) (previous : JobStatus)
      → Flagged j previous
      → Keeps j log P (admit_previous now previous) (λ _ _. previous.job ≢ j)
  unfolding admit_previous
  admit_previous_lem {P} now previous h =
      bind (check-true {P = P} (not (is_recovery_required previous.phase)) recovery_first)
        λ _. given (λ s p. p.1) λ f. go (other_job j previous h f) (is_upload previous.phase)
    where
      go :
          previous.job ≢ j
          → (b : Bool)
          → Keeps j log
              (λ _. Unit {0})
              (if b
                then check (not (ltb now (previous.created + 900000))) upload_pending
                  >> save (record previous { phase = aborted })
                else give tt)
              (λ _ _. previous.job ≢ j)
      go n true = bind (check-true (not (ltb now (previous.created + 900000))) upload_pending) λ _.
          post (λ _ _ _. n) (save_lem (record previous { phase = aborted }) (λ e. absurd (n e)))
      go n false = give_lem (λ s p. n)

  module _ (hex : is_hex_text 32 j ≡ true) where
    pub check_previous_lem :
        {P : Jobs → Type 0} (now : ℕ) (names : List String)
        → Keeps j log P (check_previous now names) (λ _ _. contains j names ≡ false)
    unfolding check_previous
    check_previous_lem now [] = give_lem (λ s p. refl)
    check_previous_lem {P} now (name ∷ names) =
        go (check_previous_lem now names) (is_hex_text 32 name) refl
      where
        go :
            Keeps j log (λ _. Unit {0}) (check_previous now names) (λ _ _. contains j names ≡ false)
            → (b : Bool) → is_hex_text 32 name ≡ b
            → Keeps j log P
                (if b
                  then load name
                    >>= (λ previous. admit_previous now previous >> check_previous now names)
                  else check_previous now names)
                (λ _ _. contains j (name ∷ names) ≡ false)
        go rest true e = bind (load_lem {P = P} name) λ previous.
            given (λ s p. p)
              λ p. bind (admit_previous_lem now previous p.1) λ _.
                given (λ s n. n)
                  λ n.
                    post (λ _ _ f. not_first j name names (λ g. n (p.0 ∙ g)) f)
                      (pre (λ _ _. tt) rest)
        go rest false e =
            post (λ _ _ f. not_first j name names (hex_ne j hex name e) f) (pre (λ _ _. tt) rest)

    pub check_others_lem :
        {P : Jobs → Type 0} (job : String) (names : List String)
        → job ≢ j
        → Keeps j log P (check_others job names) (λ _ _. contains j names ≡ false)
    unfolding check_others
    check_others_lem job [] n = give_lem (λ s p. refl)
    check_others_lem {P} job (name ∷ names) n =
        go (check_others_lem job names n) (name == job) refl (is_hex_text 32 name) refl
      where
        go :
            Keeps j log (λ _. Unit {0}) (check_others job names) (λ _ _. contains j names ≡ false)
            → (a : Bool) → (name == job) ≡ a
            → (b : Bool) → is_hex_text 32 name ≡ b
            → Keeps j log P
                (if not a && b
                  then load name >>= (λ other.
                    check (not (is_recovery_required other.phase)) recovery_first
                    >> check_others job names)
                  else check_others job names)
                (λ _ _. contains j (name ∷ names) ≡ false)
        go rest true d b e =
            post (λ _ _ f. not_first j name names (λ g. n (sym ((string_iff name job).0 d) ∙ g)) f)
              (pre (λ _ _. tt) rest)
        go rest false d true e = bind (load_lem {P = P} name) λ other.
            given (λ s p. p)
              λ p. bind (check-true (not (is_recovery_required other.phase)) recovery_first) λ _.
                given (λ s q. q.1)
                  λ f.
                    post
                      (λ _ _ g. not_first j name names (λ h. other_job j other p.1 f (p.0 ∙ h)) g)
                      (pre (λ _ _. tt) rest)
        go rest false d false e =
            post (λ _ _ f. not_first j name names (hex_ne j hex name e) f) (pre (λ _ _. tt) rest)
