-- ===== src/Tests/SubscriptionTests.antt =====
-- A subscriber's queue at concrete inputs.
use bosun_midi_captain.Base.{
  String, Option, List, ◌≤◌, ◌≡◌, ◌⊎◌, true, false, some, [], ◌∷◌, ◌++◌, arith, map, length,
}
use bosun_midi_captain.Subscription.{subscriber_queue_max, status_line, offer_queue}
use bosun_midi_captain.Subscription.Backlog.{
  newest, offer_all, offer_all-newest, offer_queue-status,
}
use bosun_midi_captain.Tests.Demo.{demo_json}

abbrev backlog : List (Option String)
backlog = some "a" ∷ []

offer_all-newest_example :
    offer_all false ("b" ∷ ("c" ∷ [])) backlog
    ≡ newest subscriber_queue_max (backlog ++ map some ("b" ∷ ("c" ∷ [])))
offer_all-newest_example = offer_all-newest ("b" ∷ ("c" ∷ [])) backlog (omega arith)

offer_queue-status_example :
    (length (offer_queue true "b" backlog) ≤ subscriber_queue_max)
    × ((offer_queue true "b" backlog ≡ backlog ++ some "b" ∷ [])
        ⊎ ((length backlog ≡ subscriber_queue_max)
            × (offer_queue true "b" backlog
                ≡ some (status_line false) ∷ (some (status_line true) ∷ (some "b" ∷ [])))))
offer_queue-status_example = offer_queue-status "b" backlog (omega arith)
