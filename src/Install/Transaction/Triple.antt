-- ===== src/Install/Transaction/Triple.antt =====
-- Conditions before and after an action, after a normal end and after a raise, and their rules.
use bosun_midi_captain.Base.{ℕ, [], ◌∷◌, ◌++◌, ◌≡◌, refl, Bool, true, false, Option, none, some}
use bosun_midi_captain.Json.{Fields}
use bosun_midi_captain.Install.Snapshot.{InstallError}
use bosun_midi_captain.Install.Action.{
  PinnedDevice, CallResult, done, raised, Journal, Calls, BootDevice, Image, written, Run, Action,
  ◌>>=◌, demand, pass, need, call, assign,
}
use bosun_midi_captain.Install.Transaction.{
  take_snapshot, report, load_image, verify_image, verified_flash, is_flagged,
}

module _ {W : Type 0} where
  -- After an action: what holds of a result and the state, or of the state after a raise.
  abbrev pub Post :
      {A : Type 0} → (A → Run W → Type 0) → (Run W → Type 0) → CallResult A × Run W → Type 0
  Post Q R (done a, s) = Q a s
  Post Q R (raised e, s) = R s

  pub record Triple {A : Type 0} (P : Run W → Type 0) (m : Action W A) (Q : A → Run W → Type 0)
      (R : Run W → Type 0) : Type 0 where
    pub from : (s : Run W) → P s → Post Q R (m s)

  pub bind :
      {A B : Type 0} {P : Run W → Type 0} {Q : A → Run W → Type 0} {Q' : B → Run W → Type 0}
      {R : Run W → Type 0} {m : Action W A} {f : A → Action W B}
      → Triple P m Q R
      → ((a : A) → Triple (Q a) (f a) Q' R)
      → Triple P (m >>= f) Q' R
  unfolding ◌>>=◌
  bind {A} {B} {P} {Q} {Q'} {R} {m} {f} first next = record {
    from = λ s h. go (m s) (first.from s h);
  }
    where
      go :
          (o : CallResult A × Run W)
          → Post Q R o
          → Post Q' R (elim o.0 [ done a ↦ f a o.1 | raised e ↦ (raised e, o.1) ])
      go (done a, s') q = (next a).from s' q
      go (raised e, s') r = r

  -- A condition that does not depend on the world.
  abbrev pub IsBlind : (Run W → Type 0) → Type 0
  IsBlind P = (s : Run W) (w : W) → P s → P (record s { world = w })

  -- A condition that the next actions keep, and what it leaves after a raise.
  module _ (P R : Run W → Type 0) (fails : (s : Run W) → P s → R s) where
    pub call_lem :
        {A : Type 0} (f : W → CallResult A × W) → IsBlind P → Triple P (call f) (λ _. P) R
    unfolding call
    call_lem {A} f blind = record { from = λ s h. go s h (f s.world).0 (f s.world).1 }
      where
        go :
            (s : Run W)
            → P s
            → (r : CallResult A) (w : W) → Post (λ _. P) R (r, record s { world = w })
        go s h (done a) w = blind s w h
        go s h (raised e) w = fails (record s { world = w }) (blind s w h)

    pub demand_lem : (b : Bool) (e : InstallError) → Triple P (demand b e) (λ _. P) R
    unfolding demand
    demand_lem true e = record { from = λ s h. h }
    demand_lem false e = record { from = fails }

    pub pass_lem : (o : Option InstallError) → Triple P (pass o) (λ _. P) R
    unfolding pass
    pass_lem none = record { from = λ s h. h }
    pass_lem (some e) = record { from = fails }

    -- After a check that was passed, it gave no exception.
    pub pass-none : (o : Option InstallError) → Triple P (pass o) (λ _ s. P s × (o ≡ none)) R
    unfolding pass
    pass-none none = record { from = λ s h. (h, refl) }
    pass-none (some e) = record { from = fails }

    pub need_lem : {A : Type 0} (o : Option A) (e : InstallError) → Triple P (need o e) (λ _. P) R
    unfolding need
    need_lem none e = record { from = fails }
    need_lem (some a) e = record { from = λ s h. h }

  pub assign_lem :
      {P R : Run W → Type 0} (Q : Run W → Type 0) {f : Run W → Run W}
      → ((s : Run W) → P s → Q (f s))
      → Triple P (assign f) (λ _. Q) R
  unfolding assign
  assign_lem Q h = record { from = h }

  -- What a report does to the state, by the outcome of its write.
  pub report_lem :
      (calls : Calls W) (P Q R : Run W → Type 0) (values : Journal → Journal)
      → ((s : Run W) (w : W)
          → P s
          → Q (record s { world = w; state = values s.state; durable = some (values s.state) }))
      → ((s : Run W) (w : W) → P s → R (record s { world = w; state = values s.state }))
      → Triple P (report calls true values) (λ _. Q) R
  unfolding report
  report_lem calls P Q R values kept lost = record {
    from = λ s h. go s h (calls.write_journal (values s.state) s.world).0 _;
  }
    where
      go :
          (s : Run W)
          → P s
          → (r : CallResult (Unit {0})) (w : W)
          → Post {A = Unit {0}}
              (λ _. Q)
              R
              (elim r [
                | done u ↦ (
                  done tt,
                  record s { world = w; state = values s.state; durable = some (values s.state) },
                )
                | raised e ↦ (raised e, record s { world = w; state = values s.state })
              ])
      go s h (done u) w = kept s w h
      go s h (raised e) w = lost s w h

  -- A report that is not required never raises.
  pub report-optional :
      (calls : Calls W) (P Q R : Run W → Type 0) (values : Journal → Journal)
      → ((s : Run W) (w : W)
          → P s
          → Q (record s { world = w; state = values s.state; durable = some (values s.state) }))
      → ((s : Run W) (w : W) (e : InstallError)
          → P s
          → Q (record s { world = w; state = record (values s.state) { journal_error = some e } }))
      → Triple P (report calls false values) (λ _. Q) R
  unfolding report
  report-optional calls P Q R values kept lost = record {
    from = λ s h. go s h (calls.write_journal (values s.state) s.world).0 _;
  }
    where
      go :
          (s : Run W)
          → P s
          → (r : CallResult (Unit {0})) (w : W)
          → Post {A = Unit {0}}
              (λ _. Q)
              R
              (elim r [
                | done u ↦ (
                  done tt,
                  record s { world = w; state = values s.state; durable = some (values s.state) },
                )
                | raised e ↦ (
                  done tt,
                  record s {
                    world = w;
                    state = record (values s.state) { journal_error = some e };
                  },
                )
              ])
      go s h (done u) w = kept s w h
      go s h (raised e) w = lost s w e h

  pub load_lem :
      (calls : Calls W) (P Q R : Run W → Type 0) (target : BootDevice) (image : Image)
      (address : Option ℕ)
      → let after = λ (s : Run W) (w : W). record s {
        world = w;
        flash = written image;
        loads =
            s.loads
            ++ record {
              image = image;
              flagged = is_flagged s.durable;
              backed_up = s.verified_backup;
              started = s.writes_started;
            }
              ∷ [];
      } in
        ((s : Run W) (w : W) → P s → Q (after s w) × R (after s w))
        → Triple P (load_image calls target image address) (λ _. Q) R
  unfolding load_image
  load_lem calls P Q R target image address h = record {
    from = λ s p. go s p (calls.load target image address s.world).0 _;
  }
    where
      after : Run W → W → Run W
      after s w = record s {
        world = w;
        flash = written image;
        loads =
            s.loads
            ++ record {
              image = image;
              flagged = is_flagged s.durable;
              backed_up = s.verified_backup;
              started = s.writes_started;
            }
              ∷ [];
      }

      go :
          (s : Run W)
          → P s
          → (r : CallResult (Unit {0})) (w : W) → Post {A = Unit {0}} (λ _. Q) R (r, after s w)
      go s p (done u) w = (h s w p).0
      go s p (raised e) w = (h s w p).1

  pub verify_lem :
      (calls : Calls W) (P Q R : Run W → Type 0) (target : BootDevice) (image : Image)
      (address : Option ℕ)
      → ((s : Run W) (w : W)
          → P s
          → Q (record s { world = w; flash = verified_flash image s.flash }))
      → ((s : Run W) (w : W) → P s → R (record s { world = w }))
      → Triple P (verify_image calls target image address) (λ _. Q) R
  unfolding verify_image
  verify_lem calls P Q R target image address kept lost = record {
    from = λ s p. go s p (calls.verify target image address s.world).0 _;
  }
    where
      go :
          (s : Run W)
          → P s
          → (r : CallResult (Unit {0})) (w : W)
          → Post {A = Unit {0}}
              (λ _. Q)
              R
              (elim r [
                | done u ↦ (done tt, record s { world = w; flash = verified_flash image s.flash })
                | raised e ↦ (raised e, record s { world = w })
              ])
      go s p (done u) w = kept s w p
      go s p (raised e) w = lost s w p

  pub snapshot_lem :
      (calls : Calls W) (P : Run W → Type 0) (Q : Fields → Run W → Type 0) (R : Run W → Type 0)
      (device : PinnedDevice) (dirty : Bool) (info : Option Fields)
      → ((s : Run W) (w : W) (value : Fields)
          → P s
          → Q value (record s {
            world = w;
            seen = s.seen ++ record { device = device; value = value; flash = s.flash } ∷ [];
          }))
      → ((s : Run W) (w : W) → P s → R (record s { world = w }))
      → Triple P (take_snapshot calls device dirty info) Q R
  unfolding take_snapshot
  snapshot_lem calls P Q R device dirty info kept lost = record {
    from = λ s p. go s p (calls.snapshot device dirty info s.world).0 _;
  }
    where
      go :
          (s : Run W)
          → P s
          → (r : CallResult Fields) (w : W)
          → Post {A = Fields} Q R (elim r [
            | done value ↦ (
              done value,
              record s {
                world = w;
                seen = s.seen ++ record { device = device; value = value; flash = s.flash } ∷ [];
              },
            )
            | raised e ↦ (raised e, record s { world = w })
          ])
      go s p (done value) w = kept s w value p
      go s p (raised e) w = lost s w p
