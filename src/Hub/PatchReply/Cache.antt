-- ===== src/Hub/PatchReply/Cache.antt =====
-- What the patch flights leave in the cache.
use bosun_midi_captain.Base.{
  ℕ, zero, suc, ◌≡◌, refl, ap, ◌∙◌, String, Bool, true, false, Option, arith, Bool-cases, inl, inr,
  same_text, same_nat,
}
use bosun_midi_captain.Json.{Json, Fields}
use bosun_midi_captain.Hub.State.{Hub, same_key, error_fields}
use bosun_midi_captain.Hub.State.Frame.{
  read_done-Quiet, cancel-Quiet, refusal-Quiet, call_later-Quiet, track_read-Quiet, send_line-Quiet,
  offer_waiters-SameTables,
}
use bosun_midi_captain.Hub.ContextFlight.{is_empty}
use bosun_midi_captain.Hub.PatchKey.{set_flight}
use bosun_midi_captain.Hub.PatchFlight.{
  take_patch_generation, drop_flight, promote_patch, finish_patch_with, fail_patch_with,
  settle_patch, arm_patch, launch_patch, start_patch_with, start_patch_flight, start_patch,
  finish_patch_flight, fail_patch_flight,
}

-- The cache of a hub is that of another.
abbrev pub SameCache : Hub → Hub → Type 0
SameCache h h' = h'.patch.cache ≡ h.patch.cache

-- Starting a flight leaves the cache alone.
abbrev pub KeepsCache : (ℕ → Hub → Hub) → Type 0
KeepsCache start = (r : ℕ) (h : Hub) → SameCache h (start r h)

take_patch_generation-SameCache :
    (r : ℕ) (stop : Bool) (h : Hub) → SameCache h (take_patch_generation r stop h).1
unfolding take_patch_generation set_flight
take_patch_generation-SameCache r true h =
    ap (λ p. p.cache) ((read_done-Quiet (h.patch.flights r).flight_id _).patch)
    ∙ ap (λ p. p.cache) ((cancel-Quiet (h.patch.flights r).timeout_handle h).patch)
take_patch_generation-SameCache r false h =
    ap (λ p. p.cache) ((cancel-Quiet (h.patch.flights r).timeout_handle h).patch)

drop_flight-SameCache : (r : ℕ) (h : Hub) → SameCache h (drop_flight r h)
unfolding drop_flight
drop_flight-SameCache r h = ground arith

module _ ⦃json : Json⦄ where
  arm_patch-SameCache : (r : ℕ) (handle : Option ℕ) (h : Hub) → SameCache h (arm_patch r handle h)
  unfolding arm_patch set_flight
  arm_patch-SameCache r handle h = ground arith

  launch_patch-SameCache : (r : ℕ) (h : Hub) → SameCache h (launch_patch r h).1
  unfolding launch_patch set_flight
  launch_patch-SameCache r h =
      ap (λ p. p.cache) ((send_line-Quiet _ _).patch)
      ∙ arm_patch-SameCache r _ _
      ∙ ap (λ p. p.cache) ((call_later-Quiet _ _).patch)
      ∙ ap (λ p. p.cache) ((track_read-Quiet _ "GET_PATCH" _).patch)

  module _ (start : ℕ → Hub → Hub) (keeps : KeepsCache start) where
    promote_patch-SameCache : (r : ℕ) (h : Hub) → SameCache h (promote_patch start r h)
    unfolding promote_patch set_flight
    promote_patch-SameCache r h = elim (Bool-cases (is_empty (h.patch.flights r).next_waiters)) [
      | inl last ↦ rw last (drop_flight-SameCache r h)
      | inr more ↦ rw more (keeps r _)
    ]

    finish_patch_with-SameCache :
        (r : ℕ) (response : Fields) (stop : Bool) (h : Hub)
        → SameCache h (finish_patch_with start r response stop h)
    unfolding finish_patch_with
    finish_patch_with-SameCache r response stop h =
        promote_patch-SameCache r _
        ∙ ap (λ p. p.cache) ((offer_waiters-SameTables _ response _).patch)
        ∙ take_patch_generation-SameCache r stop h

    settle_patch-SameCache :
        (r : ℕ) (accepted : Bool) (h : Hub) → SameCache h (settle_patch start r accepted h)
    unfolding settle_patch fail_patch_with
    settle_patch-SameCache r true h = refl
    settle_patch-SameCache r false h =
        finish_patch_with-SameCache r _ true _ ∙ ap (λ p. p.cache) ((refusal-Quiet h).patch)

    start_patch_with-SameCache : KeepsCache (start_patch_with start)
    unfolding start_patch_with
    start_patch_with-SameCache r h = ground (
      arith,
      settle_patch-SameCache r (launch_patch r h).0 (launch_patch r h).1,
      launch_patch-SameCache r h,
    )

  start_patch_flight-KeepsCache : (depth : ℕ) → KeepsCache (start_patch_flight depth)
  unfolding start_patch_flight
  start_patch_flight-KeepsCache zero r h = refl
  start_patch_flight-KeepsCache (suc depth) r h =
      start_patch_with-SameCache (start_patch_flight depth) (start_patch_flight-KeepsCache depth) r
        h

  pub finish_patch_flight-SameCache :
      (r : ℕ) (response : Fields) (stop : Bool) (h : Hub)
      → SameCache h (finish_patch_flight r response stop h)
  unfolding finish_patch_flight start_patch
  finish_patch_flight-SameCache =
      finish_patch_with-SameCache (start_patch_flight 2) (start_patch_flight-KeepsCache 2)

  pub fail_patch_flight-SameCache :
      (r : ℕ) (error : String) (stop : Bool) (h : Hub)
      → SameCache h (fail_patch_flight r error stop h)
  unfolding fail_patch_flight fail_patch_with start_patch
  fail_patch_flight-SameCache r error =
      finish_patch_with-SameCache (start_patch_flight 2) (start_patch_flight-KeepsCache 2) r
        (error_fields error "GET_PATCH")
