-- ===== src/System.antt =====
-- internal/app/deps.go: the services over the database and the broker. The world is what their calls
-- change: the tables, the live feed, and the counters of the metrics.
pub mod Access
pub mod Refusal
pub mod CatchUp
pub mod Build
pub mod Api
pub mod Watermark
pub mod Sessions
use activity_events_api.Prelude.{
  ℕ, suc, ◌+◌, Bool, true, false, Option, none, some, List, [], ◌∷◌, Result, Exec,
}
use activity_events_api.Go.Text.{Bytes}
use activity_events_api.Go.Clock.{Time, Duration}
use activity_events_api.Models.Event.{Event}
use activity_events_api.Models.Aggregation.{RunStatus, RunTrigger}
use activity_events_api.Repository.Db.{Db}
use activity_events_api.Repository.Event
use activity_events_api.Repository.Aggregation
use activity_events_api.Repository.Statistics
use activity_events_api.Service.Event.{EventDeps}
use activity_events_api.Service.Aggregation.{AggregationDeps}
use activity_events_api.Repository.Token
use activity_events_api.Repository.User
use activity_events_api.Service.Auth.{AuthDeps}
use activity_events_api.Stream.{Broker}
use activity_events_api.Stream

pub record World : Type 0 where
  pub db : Db
  pub broker : Broker
  -- a goroutine panicked while it published
  pub panicked : Bool
  -- the calls of `EventIngested`, `LagSeconds` and `RunFinished`, the newest first
  pub ingested : List Bool
  pub lags : List Duration
  pub finished : List (RunStatus × RunTrigger × ℕ)

module _ {A : Type 0} where
  unfoldable pub in_db : Exec Db A → Exec World A
  in_db m w = ((m w.db).0, record w { db = (m w.db).1 })

published : World → Option Broker → World
published w none = record w { panicked = true }
published w (some b) = record w { broker = b }

unfoldable pub publish_event : Event → World → World
unfolding published
publish_event e w = published w (Stream.publish e w.broker)

unfoldable pub count_ingested : Bool → World → World
count_ingested created w = record w { ingested = created ∷ w.ingested }

unfoldable pub report_lag : Duration → World → World
report_lag lag w = record w { lags = lag ∷ w.lags }

unfoldable pub report_finished : RunStatus → RunTrigger → ℕ → World → World
report_finished status trigger rows w = record w { finished = (status, trigger, rows) ∷ w.finished }

unfoldable pub clock_now : World → Time × World
clock_now w = (w.db.clock, w)

-- `jsonb_object` and `unmarshals` stand for the two JSON readers, Postgres's and Go's.
unfoldable pub event_deps : (Bytes → Option Bytes) → (Bytes → Bool) → EventDeps World
unfolding in_db publish_event count_ingested clock_now
event_deps jsonb_object unmarshals = record {
  create = λ e. in_db (Event.create jsonb_object e);
  create_batch = λ es. in_db (Event.create_batch jsonb_object es);
  list = λ f. in_db (Event.list f);
  publish = some publish_event;
  event_ingested = some count_ingested;
  now = clock_now;
  unmarshals_to_object = unmarshals;
}

unfoldable pub aggregation_deps : Duration → ℕ → AggregationDeps World
unfolding in_db report_lag report_finished clock_now
aggregation_deps bucket backfill = record {
  aggregate = λ start end'. in_db (Aggregation.aggregate start end');
  record_run = λ run. in_db (Aggregation.record_run run);
  last_succeeded_bucket = in_db Aggregation.last_succeeded_bucket;
  earliest_event = in_db Aggregation.earliest_event;
  list_runs = λ limit. in_db (Statistics.list_runs limit);
  buckets = λ user from to. in_db (Statistics.select_buckets user from to);
  daily = λ user from to. in_db (Statistics.select_daily user from to);
  run_finished = some report_finished;
  lag = some report_lag;
  now = clock_now;
  bucket = bucket;
  backfill = backfill;
}

-- What is not the database stays as `d` has it.
unfoldable pub auth_deps : AuthDeps World → AuthDeps World
unfolding in_db clock_now
auth_deps d = record d {
  create_user = λ u. in_db (User.create u);
  list_users = λ limit. in_db (User.list_users limit);
  by_id = λ id. in_db (User.by_id id);
  by_email = λ email. in_db (User.by_email email);
  by_google_sub = λ sub. in_db (User.by_google_sub sub);
  attach_google = λ id sub name verified. in_db (User.attach_google id sub name verified);
  create_token = λ t. in_db (Token.create t);
  by_hash = λ hash. in_db (Token.by_hash hash);
  rotate = λ old next. in_db (Token.rotate old next);
  revoke_family = λ family. in_db (Token.revoke_family family);
  now = clock_now;
}
