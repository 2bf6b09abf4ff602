-- ===== src/System/Api.antt =====
-- internal/app/deps.go: the services as the handlers see them.
use activity_events_api.Service.Event
use activity_events_api.Service.Event.{EventDeps}
use activity_events_api.Service.Aggregation
use activity_events_api.Service.Aggregation.{AggregationDeps}
use activity_events_api.Handler.Event.{EventApi}
use activity_events_api.Handler.Aggregation.{AggregationApi}

unfoldable pub event_api : {W : Type 0} → EventDeps W → EventApi W
event_api d = record {
  record_one = Event.record_event d;
  record_all = Event.record_batch d;
  list = Event.list_events d;
}

unfoldable pub aggregation_api : {W : Type 0} → AggregationDeps W → AggregationApi W
aggregation_api d = record {
  run_bucket = Aggregation.run_bucket d;
  runs = Aggregation.runs d;
  stats = Aggregation.stats d;
}
