-- ===== src/System/Build.antt =====
-- internal/app/deps.go: what is built for which mode and settings. Failures of the two constructors that
-- check their arguments are left out.
use activity_events_api.Prelude.{not, Option, none, some, List, Exec, if◌then◌else◌}
use activity_events_api.Go.Text.{Bytes}
use activity_events_api.Config.{
  Config, GoogleConfig, runs_api, runs_worker, enabled, code_flow_enabled,
}
use activity_events_api.Handler.Aggregation.{AggregationApi}
use activity_events_api.Handler.Auth.{AuthApi}
use activity_events_api.Handler.Event.{EventApi}
use activity_events_api.Middleware.Auth.{Identity}
use activity_events_api.Router.{Deps}
use activity_events_api.Scheduler.{Aggregator, Scheduler, new_scheduler}

-- The flows of the Google sign-in that are offered.
pub data GoogleFlows : Type 0 where
  id_token_and_code id_token_only no_flow : GoogleFlows

unfoldable pub google_flows : GoogleConfig → GoogleFlows
unfolding code_flow_enabled enabled
google_flows g =
    if code_flow_enabled g then id_token_and_code else if enabled g then id_token_only else no_flow

module _ {W : Type 0} (cfg : Config) where
  worker_of : Aggregator W → Option (Scheduler W)
  unfolding runs_worker new_scheduler
  worker_of aggregator =
      if runs_worker cfg.app.mode
      then some (new_scheduler aggregator cfg.aggregation.tick)
      else none

  -- `encode` is `url.Values.Encode`.
  unfoldable pub wire_api :
      (List (Bytes × Bytes) → Bytes)
      → AuthApi W
      → EventApi W
      → AggregationApi W
      → (Bytes → Exec W Identity)
      → Deps W
      → Deps W
  unfolding code_flow_enabled
  wire_api encode auth events aggregation parse deps = record deps {
    auth = some (record {
      service = auth;
      frontend_url = cfg.app.frontend_url;
      google = code_flow_enabled cfg.google;
      encode = encode;
    });
    events = some events;
    aggregation = some aggregation;
    guard = some parse;
  }

  -- `deps` has what does not depend on the mode, and no part of the API yet.
  unfoldable pub build_deps :
      (List (Bytes × Bytes) → Bytes)
      → AuthApi W
      → EventApi W
      → AggregationApi W
      → (Bytes → Exec W Identity)
      → Aggregator W
      → Deps W
      → Deps W × Option (Scheduler W)
  unfolding worker_of wire_api runs_api
  build_deps encode auth events aggregation parse aggregator deps =
      if not (runs_api cfg.app.mode)
      then (deps, worker_of aggregator)
      else (wire_api encode auth events aggregation parse deps, worker_of aggregator)
