-- ===== src/Tests/Feed.antt =====
-- The live feed after a subscription and its cancelling.
use activity_events_api.Prelude.{◌≡◌, some}
use activity_events_api.Stream.{Broker, new_broker, subscribe, begin_cancel, publish}
use activity_events_api.Stream.Safety.{IsSafe}
use activity_events_api.Stream.Reach.{
  subscribing, cancelling, Reach, here, next, publish_never_panics, reachable-IsSafe,
}
use activity_events_api.Tests.Events.{noon, click}

-- Two subscribers of one user, the first of whom is leaving.
abbrev half_left : Broker
half_left = begin_cancel 0 (subscribe 7 (subscribe 7 new_broker).1).1

abbrev half_left_path : Reach new_broker half_left
half_left_path =
    next (next (next here (subscribing new_broker 7)) (subscribing (subscribe 7 new_broker).1 7))
      (cancelling (subscribe 7 (subscribe 7 new_broker).1).1 0)

publish_never_panics_example : (b : Broker) × (publish (click 1 noon) half_left ≡ some b)
publish_never_panics_example = publish_never_panics half_left (click 1 noon) half_left_path

reachable-IsSafe_example : IsSafe half_left
reachable-IsSafe_example = reachable-IsSafe half_left half_left_path
