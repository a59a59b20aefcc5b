-- ===== src/Hub/Send/Maintenance.antt =====
-- Hub._send with the update service behind it, while the service has the device.
use bosun_midi_captain.Base.{
  arith, ℕ, ◌≡◌, refl, sym, String, Bool, true, false, Option, none, some, List, [], ◌∷◌,
  if◌then◌else◌, subst,
}
use bosun_midi_captain.Json.{Json, Value, Fields, obj, str, entry, no_entries, get_or_null, is_text}
use bosun_midi_captain.Hub.State.{Hub, send_line, offer_correlated}
use bosun_midi_captain.Hub.Send.{
  Updates, reply_to, reply_all, send_raw, send_open, send_ping, send_rest, send_parsed, send_from,
  maintenance_fields, route_kind,
}
use bosun_midi_captain.Update.Jobs.{Jobs, stopping_hub, Returned, gives, raises, allows_local_ping}
use bosun_midi_captain.Update.Jobs.Requests.{Host, Reply}
use bosun_midi_captain.Update.Jobs.Handle.{handle, handle_kind, answer_to, perform, command_of}

-- The update service as the hub has it. `host` is what it reads of the hub and of the world outside,
-- `body` the JSON object of a reply.
module _ (b64decode : String → Option (List ℕ)) (host : Hub → Host)
    (body : Fields → Reply → Fields) where
  unfoldable pub give_answer : Fields → Option Reply × Jobs → Bool × List Fields × Jobs
  give_answer msg (none, s) = (false, [], s)
  give_answer msg (some r, s) = (true, body msg r ∷ [], s)

  abbrev pub service : Updates Jobs
  service = record {
    handle = λ msg h s. give_answer msg (handle b64decode (host h) msg s);
    maintenance = λ s. s.maintenance;
    allows_local_ping = allows_local_ping;
  }

-- Nothing but the answers that are offered has changed.
abbrev pub OnlyOffers : Hub → Hub → Type 0
OnlyOffers h h' = h' ≡ record h { offers = h'.offers }

abbrev Sent : Hub → Hub × Jobs → Type 0
Sent h o = OnlyOffers h o.0

-- A request that is not the service's leaves it as it is.
Passed : Jobs → Option Reply × Jobs → Type 0
Passed s (none, s') = s' ≡ s
Passed s (some r, s') = Unit

handle-Passed :
    (b64decode : String → Option (List ℕ)) (host : Host) (msg : Fields) (s : Jobs)
    → Passed s (handle b64decode host msg s)
unfolding handle handle_kind answer_to Passed
handle-Passed b64decode host msg s = go (get_or_null "type" msg)
  where
    answered : (o : Returned Reply × Jobs) → Passed s (answer_to b64decode o)
    answered (gives r, s') = tt
    answered (raises e, s') = tt

    texts :
        (kind : String) (a b : Bool)
        → Passed s (
            if a
            then if b
              then (some (Reply.error stopping_hub), s)
              else answer_to b64decode (perform b64decode (command_of kind) host msg s)
            else (none, s))
    texts kind true true = tt
    texts kind true false = answered _
    texts kind false b = refl

    go : (v : Value) → Passed s (handle_kind b64decode v host msg s)
    go (str kind) = texts kind _ s.stopping
    go _ = refl

module _ ⦃json : Json⦄ where
  reply_all-OnlyOffers :
      (sub : ℕ) (msg : Fields) (bodies : List Fields) (h : Hub)
      → OnlyOffers h (reply_all sub msg bodies h)
  unfolding reply_all reply_to offer_correlated
  reply_all-OnlyOffers sub msg [] h = refl
  reply_all-OnlyOffers sub msg (b ∷ bodies) h =
      reply_all-OnlyOffers sub msg bodies (reply_to sub msg b h)

  module _ (b64decode : String → Option (List ℕ)) (host : Hub → Host)
      (body : Fields → Reply → Fields) where
    -- While the update service is in maintenance, whatever line a subscriber sends, the hub only
    -- offers answers: no line is queued for the Captain, and no table, timer or flight changes.
    pub send_from-OnlyOffers :
        (sub : ℕ) (line : String) (h : Hub) (s : Jobs)
        → s.maintenance ≡ true
        → OnlyOffers h (send_from (service b64decode host body) sub line h s).0
    unfolding send_from send_parsed send_rest send_ping send_open send_raw give_answer
        allows_local_ping Passed reply_to reply_all
    send_from-OnlyOffers sub line h s m = parsed (json.loads line)
      where
        in_maintenance : s.maintenance ≡ false → ⊥
        in_maintenance e = ground (arith, e, m)

        opened :
            (msg : Fields) (b : Bool)
            → s.maintenance ≡ b
            → Sent h (
                if b
                then (reply_to sub msg (maintenance_fields (get_or_null "type" msg)) h, s)
                else (route_kind (get_or_null "type" msg) sub line msg h, s))
        opened msg true e =
            reply_all-OnlyOffers sub msg (maintenance_fields (get_or_null "type" msg) ∷ []) h
        opened msg false e = absurd (in_maintenance e)

        pinged :
            (msg : Fields) (b : Bool) (o : Bool × Jobs)
            → s.maintenance ≡ b
            → Sent h (
                send_ping (service b64decode host body) (if b then (true, s) else o) sub line msg h)
        pinged msg true o e =
            reply_all-OnlyOffers sub msg (entry "type" (str "ACK") no_entries ∷ []) h
        pinged msg false o e = absurd (in_maintenance e)

        unhandled :
            (msg : Fields) (b : Bool)
            → Sent h (
                if b
                then send_ping (service b64decode host body) (allows_local_ping s) sub line msg h
                else send_open (service b64decode host body) sub line msg h s)
        unhandled msg true = pinged msg s.maintenance _ refl
        unhandled msg false = opened msg s.maintenance refl

        rest :
            (msg : Fields) (o : Option Reply × Jobs)
            → Passed s o
            → OnlyOffers h
                (send_rest
                  (service b64decode host body)
                  (give_answer b64decode host body msg o)
                  sub
                  line
                  msg
                  h).0
        rest msg (some r, s') p = reply_all-OnlyOffers sub msg (body msg r ∷ []) h
        rest msg (none, s') p =
            subst
              (λ x.
                OnlyOffers h
                  (send_rest (service b64decode host body) (false, [], x) sub line msg h).0)
              (sym p) (unhandled msg (is_text "PING" (get_or_null "type" msg)))

        dropped :
            (b : Bool) → s.maintenance ≡ b → OnlyOffers h (if b then h else (send_line line h).1)
        dropped true e = refl
        dropped false e = absurd (in_maintenance e)

        parsed :
            (v : Option Value)
            → OnlyOffers h (send_parsed (service b64decode host body) v sub line h s).0
        parsed (some (obj msg)) = rest msg _ (handle-Passed b64decode (host h) msg s)
        parsed _ = dropped s.maintenance refl
