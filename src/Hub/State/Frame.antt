-- ===== src/Hub/State/Frame.antt =====
-- What the shared steps of hub.py leave alone: the subscribers, the three request tables
-- and the link.
use bosun_midi_captain.Base.{
  ℕ, String, ◌≡◌, refl, ◌∙◌, true, false, if◌then◌else◌, Bool, Option, none, some, List, [], ◌∷◌,
  contains, arith, Bool-cases, inl, inr, same_nat,
}
use bosun_midi_captain.Json.{Json, Value, Fields}
use bosun_midi_captain.Hub.State.{
  Hub, Waiter, Timer, read_connected, send_line, refusal, offer_correlated, offer_waiters,
  track_read, read_done, call_later, cancel,
}

pub record SameTables (h h' : Hub) : Type 0 where
  pub subs : h'.subs ≡ h.subs
  pub context : h'.context ≡ h.context
  pub patch : h'.patch ≡ h.patch
  pub requests : h'.requests ≡ h.requests

-- The same, and no line is offered.
pub record Quiet (h h' : Hub) : Type 0 where
  pub tables : SameTables h h'
  pub open tables use *
  pub offers : h'.offers ≡ h.offers

pub read_connected-Quiet : (h : Hub) → Quiet h (read_connected h).1
unfolding read_connected
read_connected-Quiet h = ground arith

pub send_line-Quiet : (line : String) (h : Hub) → Quiet h (send_line line h).1
unfolding send_line
send_line-Quiet line h = ground arith

pub refusal-Quiet : (h : Hub) → Quiet h (refusal h).1
unfolding refusal
refusal-Quiet h = ground arith

pub track_read-Quiet : (id kind : String) (h : Hub) → Quiet h (track_read id kind h)
unfolding track_read
track_read-Quiet id kind h = ground arith

pub read_done-Quiet : (id : Option String) (h : Hub) → Quiet h (read_done id h)
unfolding read_done
read_done-Quiet none h = ground arith
read_done-Quiet (some id) h = ground arith

pub call_later-Quiet : (t : Timer) (h : Hub) → Quiet h (call_later t h).1
unfolding call_later
call_later-Quiet t h = ground arith

pub cancel-Quiet : (handle : Option ℕ) (h : Hub) → Quiet h (cancel handle h)
unfolding cancel
cancel-Quiet none h = ground arith
cancel-Quiet (some n) h = ground arith

pub cancel-link : (handle : Option ℕ) (h : Hub) → (cancel handle h).link ≡ h.link
unfolding cancel
cancel-link none h = refl
cancel-link (some n) h = refl

pub read_done-link : (id : Option String) (h : Hub) → (read_done id h).link ≡ h.link
unfolding read_done
read_done-link none h = refl
read_done-link (some id) h = refl

module _ ⦃json : Json⦄ where
  pub offer_correlated-SameTables :
      (sub : ℕ) (has_id : Bool) (request_id : Value) (response : Fields) (h : Hub)
      → SameTables h (offer_correlated sub has_id request_id response h)
  unfolding offer_correlated
  offer_correlated-SameTables sub has_id request_id response h = ground arith

  pub offer_waiters-SameTables :
      (ws : List Waiter) (response : Fields) (h : Hub) → SameTables h (offer_waiters ws response h)
  unfolding offer_waiters
  offer_waiters-SameTables [] response h = ground arith
  offer_waiters-SameTables (w ∷ ws) response h = elim (Bool-cases (contains w.sub h.subs)) [
    | inl live ↦ rw live (
        ground (
          arith,
          offer_waiters-SameTables ws response
              (offer_correlated w.sub w.has_id w.request_id response h),
        ))
    | inr gone ↦ rw gone (offer_waiters-SameTables ws response h)
  ]

  offer_if-link :
      (live : Bool) (sub : ℕ) (has_id : Bool) (request_id : Value) (response : Fields) (h : Hub)
      → (if live then offer_correlated sub has_id request_id response h else h).link ≡ h.link
  unfolding offer_correlated
  offer_if-link true sub has_id request_id response h = refl
  offer_if-link false sub has_id request_id response h = refl

  pub offer_waiters-link :
      (ws : List Waiter) (response : Fields) (h : Hub) → (offer_waiters ws response h).link ≡ h.link
  unfolding offer_waiters
  offer_waiters-link [] response h = refl
  offer_waiters-link (w ∷ ws) response h =
      offer_waiters-link ws response _
      ∙ offer_if-link (contains w.sub h.subs) w.sub w.has_id w.request_id response h
