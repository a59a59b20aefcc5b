-- ===== src/Install/Evidence/Rules.antt =====
-- What holds of the calls of a recovery and of what was seen, call by call.
use bosun_midi_captain.Base.{List, [], ◌∷◌, ◌++◌, ◌≡◌, refl, Bool, true, false, Option, none, some}
use bosun_midi_captain.Install.Snapshot.{InstallError}
use bosun_midi_captain.Install.Action.{CallResult, done, raised}
use bosun_midi_captain.Install.Evidence.{
  Sight, Seen, Call, ◌>>=◌, ask, watch, assert, no_error, present,
}

module _ {W : Type 0} where
  -- What holds of a value that a call returns, and of what was seen until then.
  abbrev pub Holds : {A : Type 0} → (A → List Sight → Type 0) → CallResult A × Seen W → Type 0
  Holds Q (done a, s) = Q a s.1
  Holds Q (raised e, s) = Unit

  pub record Sure {A : Type 0} (log : List Sight) (m : Call W A) (Q : A → List Sight → Type 0)
      : Type 0 where
    pub at : (w : W) → Holds Q (m (w, log))

  pub follow :
      {A B : Type 0} {log : List Sight} {Q : A → List Sight → Type 0} {R : B → List Sight → Type 0}
      {m : Call W A} {f : A → Call W B}
      → Sure log m Q
      → ((a : A) (l : List Sight) → Q a l → Sure l (f a) R)
      → Sure log (m >>= f) R
  unfolding ◌>>=◌
  follow {A} {B} {log} {Q} {R} {m} {f} first next = record {
    at = λ w. go (m (w, log)) (first.at w);
  }
    where
      go :
          (o : CallResult A × Seen W)
          → Holds Q o
          → Holds {A = B} R (elim o.0 [ done a ↦ f a o.1 | raised e ↦ (raised e, o.1) ])
      go (done a, s) q = (next a s.1 q).at s.0
      go (raised e, s) q = tt

  pub weaken :
      {A : Type 0} {log : List Sight} {m : Call W A} {Q R : A → List Sight → Type 0}
      → ((a : A) (l : List Sight) → Q a l → R a l)
      → Sure log m Q
      → Sure log m R
  weaken {A} {log} {m} {Q} {R} f first = record { at = λ w. go (m (w, log)) (first.at w) }
    where
      go : (o : CallResult A × Seen W) → Holds Q o → Holds R o
      go (done a, s) q = f a s.1 q
      go (raised e, s) q = tt

  pub ask_lem :
      {A : Type 0} {log : List Sight} (f : W → CallResult A × W) → Sure log (ask f) (λ _ l. l ≡ log)
  unfolding ask
  ask_lem {A} {log} f = record { at = λ w. go (f w) }
    where
      go : (o : CallResult A × W) → Holds (λ _ l. l ≡ log) (o.0, (o.1, log))
      go (done a, w) = refl
      go (raised e, w) = tt

  pub watch_lem :
      {A : Type 0} {log : List Sight} (x : A → Sight) (f : W → CallResult A × W)
      → Sure log (watch x f) (λ a l. l ≡ log ++ x a ∷ [])
  unfolding watch
  watch_lem {A} {log} x f = record { at = λ w. go (f w) }
    where
      go :
          (o : CallResult A × W)
          → Holds
              (λ a l. l ≡ log ++ x a ∷ [])
              (o.0, (o.1, elim o.0 [ done a ↦ log ++ x a ∷ [] | raised e ↦ log ]))
      go (done a, w) = refl
      go (raised e, w) = tt

  pub assert_lem :
      {log : List Sight} (b : Bool) (e : InstallError)
      → Sure log (assert b e) (λ _ l. (l ≡ log) × (b ≡ true))
  unfolding assert
  assert_lem true e = record { at = λ w. (refl, refl) }
  assert_lem false e = record { at = λ w. tt }

  pub no_error_lem :
      {log : List Sight} (o : Option InstallError)
      → Sure log (no_error o) (λ _ l. (l ≡ log) × (o ≡ none))
  unfolding no_error
  no_error_lem none = record { at = λ w. (refl, refl) }
  no_error_lem (some e) = record { at = λ w. tt }

  pub present_lem :
      {A : Type 0} {log : List Sight} (o : Option A) (e : InstallError)
      → Sure log (present o e) (λ a l. (l ≡ log) × (o ≡ some a))
  unfolding present
  present_lem none e = record { at = λ w. tt }
  present_lem (some a) e = record { at = λ w. (refl, refl) }
