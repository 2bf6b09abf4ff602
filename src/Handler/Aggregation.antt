-- ===== src/Handler/Aggregation.antt =====
-- internal/handler/aggregation.go.
use activity_events_api.Prelude.{
  Option, none, some, List, Result, ok, err, Error, service, bucket_not_closed, invalid_time_range,
  stats_range_too_large, Exec,
}
use activity_events_api.Prelude.Int.{ℤ}
use activity_events_api.Go.Text.{codes, bytes_eq}
use activity_events_api.Go.Clock.{Time}
use activity_events_api.Models.Aggregation.{AggregationRun, RunTrigger, manual}
use activity_events_api.Service.Aggregation.{Stats, StatsQuery}
use activity_events_api.Handler.Dto.{
  TriggerRequest, Formats, new_stats_response, new_run_response, new_runs_response,
}
use activity_events_api.Handler.Reply.{
  Request, Response, Binding, bound, no_body, too_large, malformed, Step, go, stop, Code, proceed,
  json, reply_error, current_user, target_user, time_query, limit_query, value_of, run,
}
use activity_events_api.Handler.Reply

-- `AggregationService`
pub record AggregationApi (W : Type 0) : Type 0 where
  pub run_bucket : Time → RunTrigger → Exec W AggregationRun
  pub runs : ℤ → Exec W (List AggregationRun)
  pub stats : StatsQuery → Exec W Stats

unfoldable pub fail : Error → Response
unfolding reply_error
fail (service bucket_not_closed) =
    reply_error 400 Code.bucket_not_closed
      "This bucket has not closed yet, only a finished window can be aggregated"
fail (service invalid_time_range) = reply_error 400 Code.validation_failed "from must be before to"
fail (service stats_range_too_large) =
    reply_error 400 Code.validation_failed "The requested window is longer than 90 days"
fail _ = reply_error 500 Code.internal_error "Internal server error"

unfoldable pub answer : {W A : Type 0} → (A → Response) → Result A × W → Response × W
unfolding fail
answer f (ok a, w) = (f a, w)
answer f (err e, w) = (fail e, w)

-- A time that is not given is the zero time.
unfoldable pub or_zero : Option Time → Time
or_zero none = 0
or_zero (some t) = t

-- No body at all asks for the newest closed window.
unfoldable pub bind_trigger : Binding TriggerRequest → Step Time
unfolding or_zero reply_error
bind_trigger (bound req) = go (or_zero req.bucket_start)
bind_trigger no_body = go 0
bind_trigger too_large =
    stop (reply_error 400 Code.validation_failed "bucket_start must be an RFC 3339 timestamp")
bind_trigger (malformed message) =
    stop (reply_error 400 Code.validation_failed "bucket_start must be an RFC 3339 timestamp")

module _ {W : Type 0} (api : AggregationApi W) (formats : Formats) where
  unfoldable pub stats : Request → W → Response × W
  unfolding current_user target_user time_query value_of or_zero answer json new_stats_response
  stats c = proceed (current_user c) λ user_id. proceed (target_user c user_id) λ target.
      proceed (time_query formats c (codes "from") "from must be an RFC 3339 timestamp") λ from.
        proceed (time_query formats c (codes "to") "to must be an RFC 3339 timestamp") λ to w.
          answer (λ s. json 200 (Reply.stats (new_stats_response formats target s)))
            (api.stats
              (record {
                user_id = target;
                from = or_zero from;
                to = or_zero to;
                daily = bytes_eq (value_of (codes "granularity") c.query) (codes "day");
              })
              w)

  unfoldable pub trigger : Request → Binding TriggerRequest → W → Response × W
  unfolding bind_trigger answer json new_run_response
  trigger c body =
      proceed (bind_trigger body)
        λ at w. answer (λ r. json 202 (run (new_run_response r))) (api.run_bucket at manual w)

  unfoldable pub list_runs : Request → W → Response × W
  unfolding limit_query answer json new_runs_response
  list_runs c =
      proceed (limit_query c)
        λ limit w. answer (λ rs. json 200 (Reply.runs (new_runs_response rs))) (api.runs limit w)
