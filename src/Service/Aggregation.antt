-- ===== src/Service/Aggregation.antt =====
-- internal/service/aggregation.go over the interfaces AggregationRepository and AggregationMetrics. The
-- duration that `RunFinished` reports and the log lines are left out.
pub mod Pending
pub mod Runs
use activity_events_api.Prelude.{
  ℕ, zero, suc, ◌+◌, ◌-◌, ◌*◌, Bool, true, false, not, Option, none, some, List, [], ◌∷◌, Result,
  ok, err, Error, repository, service, bucket_locked, bucket_not_closed, invalid_time_range,
  stats_range_too_large, Exec, ◌>>=◌, ◌>>◌, pure, lift, effect, reading, length, take, ltb, ◌==◌,
  if◌then◌else◌,
}
use mathlib.Core.Option
use activity_events_api.Prelude.Int.{ℤ, pos, negsuc}
use activity_events_api.Go.Clock.{Time, Duration, hour, is_zero, before, after}
use activity_events_api.Models.Aggregation.{
  bucket_duration, RunStatus, succeeded, failed, skipped, RunTrigger, schedule, ActivityBucket,
  AggregationRun, DailyActivity, bucket_start_of, buckets_between,
}

abbrev pub default_runs_limit : ℕ
default_runs_limit = 20

abbrev pub max_runs_limit : ℕ
max_runs_limit = 100

abbrev pub max_stats_range : Duration
max_stats_range = 90 * 24 * hour

abbrev pub default_backfill : ℕ
default_backfill = 12

abbrev pub default_stats_window : Duration
default_stats_window = 7 * 24 * hour

pub record AggregationDeps (W : Type 0) : Type 0 where
  pub aggregate : Time → Time → Exec W ℕ
  pub record_run : AggregationRun → Exec W AggregationRun
  pub last_succeeded_bucket : Exec W (Option Time)
  pub earliest_event : Exec W (Option Time)
  pub list_runs : ℕ → Exec W (List AggregationRun)
  pub buckets : ℕ → Time → Time → Exec W (List ActivityBucket)
  pub daily : ℕ → Time → Time → Exec W (List DailyActivity)
  pub run_finished : Option (RunStatus → RunTrigger → ℕ → W → W)
  pub lag : Option (Duration → W → W)
  pub now : W → Time × W
  pub bucket : Duration
  pub backfill : ℕ

-- `NewAggregation` puts the defaults where the configuration has nothing positive.
unfoldable pub new_aggregation : {W : Type 0} → AggregationDeps W → AggregationDeps W
new_aggregation d = record d {
  bucket = if d.bucket == 0 then bucket_duration else d.bucket;
  backfill = if d.backfill == 0 then default_backfill else d.backfill;
}

pub record StatsQuery : Type 0 where
  pub user_id : ℕ
  pub from : Time
  pub to : Time
  pub daily : Bool

pub record Stats : Type 0 where
  pub bucket : Duration
  pub from : Time
  pub to : Time
  pub buckets : List ActivityBucket
  pub days : List DailyActivity

-- The outcome of `Aggregate` as the run's status, users and error.
unfoldable pub with_outcome : AggregationRun → Result ℕ → AggregationRun
with_outcome run (ok touched) = record run { status = succeeded; users_touched = touched }
with_outcome run (err (repository bucket_locked)) = record run { status = skipped }
with_outcome run (err e) = record run { status = failed; error = some e }

-- The status stands for the empty string until the outcome is known; every outcome sets it.
unfoldable pub begin_run : Time → Time → RunTrigger → Time → AggregationRun
begin_run start end' trigger started = record {
  id = 0;
  bucket_start = start;
  bucket_end = end';
  status = skipped;
  trigger = trigger;
  users_touched = 0;
  started_at = started;
  finished_at = none;
  error = none;
}

unfoldable pub report_run :
    {W : Type 0} → Option (RunStatus → RunTrigger → ℕ → W → W) → AggregationRun → W → W
report_run none run w = w
report_run (some f) run w = f run.status run.trigger run.users_touched w

unfoldable pub check_closed : Time → Time → Result (Unit {0})
check_closed end' now = if after end' now then err (service bucket_not_closed) else ok tt

-- `newestClosed.Sub(last)`, at least 0
unfoldable pub lag_of : Option Time → Time → Duration
lag_of none newest = 0
lag_of (some last) newest = newest - last

unfoldable pub report_with : {W : Type 0} → Option (Duration → W → W) → Duration → W → W
report_with none lag w = w
report_with (some f) lag w = f lag w

unfoldable pub is_succeeded : RunStatus → Bool
is_succeeded succeeded = true
is_succeeded failed = false
is_succeeded skipped = false

unfoldable pub windows_after : Time → Time → Duration → ℕ → List Time
windows_after from newest bucket backfill =
    if after from newest
    then []
    else (let buckets = buckets_between from newest bucket in
        if ltb backfill (length buckets) then take backfill buckets else buckets)

unfoldable pub runs_limit : ℤ → ℕ
runs_limit (pos zero) = default_runs_limit
runs_limit (pos (suc n)) = if ltb max_runs_limit (suc n) then max_runs_limit else suc n
runs_limit (negsuc n) = default_runs_limit

unfoldable pub check_range : Time → Time → Result (Unit {0})
check_range from to =
    if not (before from to)
    then err (service invalid_time_range)
    else if ltb max_stats_range (to - from)
    then err (service stats_range_too_large)
    else ok tt

unfoldable pub stats_from : Time → Time → Time
stats_from from to = if is_zero from then to - default_stats_window else from

module _ {W : Type 0} (d : AggregationDeps W) where
  -- `at`, or the newest closed window for the zero time
  unfoldable pub window_time : Time → Exec W Time
  window_time at = if is_zero at then (reading d.now >>= λ now. pure (now - d.bucket)) else pure at

  -- From here on the window is known to be closed.
  unfoldable pub attempt_run : Time → RunTrigger → Exec W AggregationRun
  unfolding with_outcome report_run begin_run
  attempt_run start trigger = do
    started ← reading d.now
    outcome ← λ w.
        (ok (d.aggregate start (start + d.bucket) w).0, (d.aggregate start (start + d.bucket) w).1)
    finished ← reading d.now
    let run : AggregationRun =
        record (with_outcome (begin_run start (start + d.bucket) trigger started) outcome) {
          finished_at = some finished;
        }
    effect (report_run d.run_finished run)
    d.record_run run

  unfoldable pub run_bucket : Time → RunTrigger → Exec W AggregationRun
  unfolding window_time check_closed attempt_run
  run_bucket at trigger = do
    at' ← window_time at
    now ← reading d.now
    lift (check_closed (bucket_start_of at' d.bucket + d.bucket) now)
    attempt_run (bucket_start_of at' d.bucket) trigger

  unfoldable pub first_window : Option Time → Exec W (Option Time)
  first_window (some last) = pure (some (last + d.bucket))
  first_window none = do
    earliest ← d.earliest_event
    pure (Option.map (λ t. bucket_start_of t d.bucket) earliest)

  unfoldable pub windows_since : Option Time → Time → List Time
  unfolding windows_after
  windows_since none newest = []
  windows_since (some from) newest = windows_after from newest d.bucket d.backfill

  unfoldable pub pending_buckets : Exec W (List Time)
  unfolding first_window windows_since report_with lag_of
  pending_buckets = do
    now ← reading d.now
    let newest = bucket_start_of now d.bucket - d.bucket
    last ← d.last_succeeded_bucket
    effect (report_with d.lag (lag_of last newest))
    from ← first_window last
    pure (windows_since from newest)

  -- What the loop does with a window's result: an error ends it, and so does a run that did not succeed.
  unfoldable pub after_run :
      (W → (List AggregationRun × Option Error) × W)
      → Result AggregationRun
      → W
      → (List AggregationRun × Option Error) × W
  unfolding is_succeeded
  after_run rest (err e) w = (([], some e), w)
  after_run rest (ok run) w =
      if is_succeeded run.status
      then ((run ∷ (rest w).0.0, (rest w).0.1), (rest w).1)
      else ((run ∷ [], none), w)

  -- The runs made, and the error that ended the loop, if one did.
  unfoldable pub run_windows : List Time → W → (List AggregationRun × Option Error) × W
  unfolding after_run
  run_windows [] w = (([], none), w)
  run_windows (start ∷ rest) w =
      after_run (run_windows rest) (run_bucket start schedule w).0 (run_bucket start schedule w).1

  unfoldable pub run_listed : Result (List Time) → W → (List AggregationRun × Option Error) × W
  unfolding run_windows
  run_listed (err e) w = (([], some e), w)
  run_listed (ok windows) w = run_windows windows w

  unfoldable pub run_pending : W → (List AggregationRun × Option Error) × W
  unfolding run_listed pending_buckets
  run_pending w = run_listed (pending_buckets w).0 (pending_buckets w).1

  -- `Runs`
  unfoldable pub runs : ℤ → Exec W (List AggregationRun)
  unfolding runs_limit
  runs limit = d.list_runs (runs_limit limit)

  fetch_stats : StatsQuery → Time → Time → Exec W Stats
  fetch_stats q from to =
      if q.daily
      then (d.daily q.user_id from to >>= λ days.
          pure (record { bucket = d.bucket; from = from; to = to; buckets = []; days = days }))
      else (d.buckets q.user_id from to >>= λ buckets.
          pure (record { bucket = d.bucket; from = from; to = to; buckets = buckets; days = [] }))

  fill_to : Time → Exec W Time
  fill_to to = if is_zero to then reading d.now else pure to

  unfoldable pub stats : StatsQuery → Exec W Stats
  unfolding fill_to stats_from check_range fetch_stats
  stats q = do
    to ← fill_to q.to
    lift (check_range (stats_from q.from to) to)
    fetch_stats q (bucket_start_of (stats_from q.from to) d.bucket) to
