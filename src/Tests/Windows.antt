-- ===== src/Tests/Windows.antt =====
-- Runs of the aggregation over hours of the Unix epoch's first day.
use activity_events_api.Prelude.{
  false, ◌+◌, ◌-◌, ◌*◌, ◌/◌, ◌≡◌, ◌<◌, ◌≤◌, refl, none, List, [], ◌∷◌, arith, All, ok, err,
  repository, bucket_locked, length, any, ◌==◌, filterb, if◌then◌else◌,
}
use activity_events_api.Go.Text.{codes}
use activity_events_api.Go.Clock.{Time, hour, timestamptz}
use activity_events_api.Models.Aggregation.{
  ActivityBucket, AggregationRun, succeeded, manual, bucket_start_of, buckets_between,
}
use activity_events_api.Models.Aggregation.Windows.{
  windows_from, bucket_start_of_bounds, buckets_between-windows,
}
use activity_events_api.Repository.Db.{Db, statement, take_fault}
use activity_events_api.Repository.Aggregation.{
  aggregate_query, aggregate, groups_in, in_window, lock_key, max_succeeded, last_succeeded_bucket,
  earliest_event, min_occurred,
}
use activity_events_api.Repository.Aggregation.Replay.{
  Recomputed, bucket_at, aggregate_query-counts, aggregate_query-other, aggregate_query_twice,
  aggregate_up,
}
use activity_events_api.Repository.Statistics.{rollup_days, day_of}
use activity_events_api.Repository.Statistics.Days.{reported, held, reported-rollup_days}
use activity_events_api.Prelude.Int.{pos}
use activity_events_api.Scheduler.{new_scheduler, run, ticked}
use activity_events_api.System.CatchUp.{run-pending_buckets}
use activity_events_api.Service.Aggregation.{run_pending, pending_buckets, run_windows, report_with}
use activity_events_api.Service.Aggregation.Pending.{
  Pending, pending_buckets-after, pending_buckets-first,
}
use activity_events_api.Service.Aggregation.Runs.{
  Recorded, AllButLast, run_bucket_closed, run_windows-AllButLast,
}
use activity_events_api.System.{aggregation_deps}
use activity_events_api.System.Watermark.{pending-skips}
use activity_events_api.Stream.{new_broker}
use activity_events_api.Tests.Events.{noon, one_click}
use activity_events_api.Tests.Pages.{resting}

-- The hour of the click at noon.
abbrev noon_hour : Time
noon_hour = noon / hour * hour

abbrev done_run : Time → AggregationRun
done_run at = record {
  id = 1;
  bucket_start = at;
  bucket_end = at + hour;
  status = succeeded;
  trigger = manual;
  users_touched = 0;
  started_at = at + hour;
  finished_at = none;
  error = none;
}

-- Three hours later, after the runs given.
abbrev evening : List AggregationRun → Db
evening rs = record (one_click []) { clock = noon_hour + 3 * hour; runs = rs }

bucket_start_of_bounds_example :
    (bucket_start_of noon hour ≤ noon)
    × (noon < bucket_start_of noon hour + hour)
    × (bucket_start_of (bucket_start_of noon hour) hour ≡ bucket_start_of noon hour)
bucket_start_of_bounds_example = bucket_start_of_bounds noon hour (omega arith)

buckets_between-windows_example :
    buckets_between noon (noon + 2 * hour) hour
    ≡ windows_from (bucket_start_of noon hour) hour ((noon + 2 * hour) / hour - noon / hour + 1)
buckets_between-windows_example =
    buckets_between-windows noon (noon + 2 * hour) hour (omega arith) (omega arith)

aggregate_query-counts_example :
    Recomputed 7 noon_hour
      (evening []).clock
      (filterb (in_window noon_hour (noon_hour + hour)) (evening []).events)
      (bucket_at 7 (timestamptz noon_hour) (evening []).buckets)
      (bucket_at 7
        (timestamptz noon_hour)
        (aggregate_query noon_hour (noon_hour + hour) (evening [])).buckets)
aggregate_query-counts_example = aggregate_query-counts noon_hour (noon_hour + hour) (evening []) 7

aggregate_query-other_example :
    bucket_at 7 0 (aggregate_query noon_hour (noon_hour + hour) (evening [])).buckets
    ≡ bucket_at 7 0 (evening []).buckets
aggregate_query-other_example =
    aggregate_query-other noon_hour (noon_hour + hour) (evening []) 7 0 (omega arith)

aggregate_query_twice_example :
    bucket_at 7 noon_hour
      (aggregate_query noon_hour
        (noon_hour + hour)
        (aggregate_query noon_hour (noon_hour + hour) (evening []))).buckets
    ≡ bucket_at 7 noon_hour (aggregate_query noon_hour (noon_hour + hour) (evening [])).buckets
aggregate_query_twice_example =
    aggregate_query_twice noon_hour (noon_hour + hour) (evening []) 7 noon_hour

aggregate_up_example : aggregate noon_hour (noon_hour + hour) (evening []) ≡ (
    if any (λ k. k == lock_key noon_hour) []
    then (err (repository bucket_locked), evening [])
    else (
      ok (length (groups_in noon_hour (noon_hour + hour) (evening []).events)),
      aggregate_query noon_hour (noon_hour + hour) (evening []),
    ))
aggregate_up_example = aggregate_up noon_hour (noon_hour + hour) (evening []) refl

abbrev noon_bucket : ActivityBucket
noon_bucket = record {
  user_id = 7;
  bucket_start = noon_hour;
  event_count = 3;
  type_counts = (codes "click", 2) ∷ (codes "view", 1) ∷ [];
  first_event_at = noon;
  last_event_at = noon;
  computed_at = noon;
}

reported-rollup_days_example :
    reported (day_of noon_hour) (rollup_days (noon_bucket ∷ []))
    ≡ held (day_of noon_hour) (noon_bucket ∷ [])
reported-rollup_days_example = reported-rollup_days (day_of noon_hour) (noon_bucket ∷ [])

pending_buckets-after_example :
    (windows : List Time) × ((pending_buckets
        (aggregation_deps hour 168)
        (resting (evening (done_run noon_hour ∷ [])))).0
      ≡ ok windows)
    × Pending (noon_hour + hour) (noon_hour + 3 * hour) hour 168 windows
unfolding aggregation_deps last_succeeded_bucket statement take_fault max_succeeded
pending_buckets-after_example =
    pending_buckets-after (aggregation_deps hour 168) (resting (evening (done_run noon_hour ∷ [])))
      noon_hour (noon / hour) (resting (evening (done_run noon_hour ∷ []))) (omega arith)
      (omega arith) refl refl

pending_buckets-first_example :
    (windows : List Time) × ((pending_buckets (aggregation_deps hour 168) (resting (evening []))).0
      ≡ ok windows)
    × Pending (bucket_start_of noon hour) (noon_hour + 3 * hour) hour 168 windows
unfolding aggregation_deps last_succeeded_bucket earliest_event statement take_fault max_succeeded
    min_occurred report_with new_broker
pending_buckets-first_example =
    pending_buckets-first (aggregation_deps hour 168) (resting (evening [])) noon
      (resting (evening [])) (record (resting (evening [])) { lags = 0 ∷ [] }) (omega arith)
      (omega arith) refl refl

run_bucket_closed_example :
    Recorded
      (aggregation_deps hour 168)
      noon
      manual
      (resting (evening []))
      (bucket_start_of noon hour)
unfolding aggregation_deps bucket_start_of
run_bucket_closed_example =
    run_bucket_closed (aggregation_deps hour 168) noon manual (resting (evening [])) refl
      (omega arith)

run_windows-AllButLast_example :
    AllButLast
      (run_windows
        (aggregation_deps hour 168)
        (noon_hour ∷ (noon_hour + 3 * hour) ∷ [])
        (resting (evening []))).0.0
run_windows-AllButLast_example =
    run_windows-AllButLast (aggregation_deps hour 168) (noon_hour ∷ (noon_hour + 3 * hour) ∷ [])
      (resting (evening []))

-- The hour after the click's was run by hand; the click's own hour is never pending again.
pending-skips_example :
    (windows : List Time) × ((pending_buckets
        (aggregation_deps hour 168)
        (resting (evening (done_run (noon_hour + hour) ∷ [])))).0
      ≡ ok windows)
    × All (λ s. noon_hour + hour < s) windows
unfolding max_succeeded
pending-skips_example =
    pending-skips (resting (evening (done_run (noon_hour + hour) ∷ []))) hour 168 (noon / hour + 1)
      (noon_hour + hour) [] [] (done_run (noon_hour + hour)) refl (omega arith) (omega arith) refl
      (omega arith) refl refl

-- Two passes that take one window each.
run-pending_buckets_example :
    (pending_buckets
      (aggregation_deps hour 1)
      (run
        (new_scheduler (run_pending (aggregation_deps hour 1)) (pos 0))
        false
        (ticked false ∷ [])
        (resting (evening (done_run noon_hour ∷ [])))).1).0
    ≡ ok []
unfolding max_succeeded
run-pending_buckets_example =
    run-pending_buckets 3600000000 1 1 (noon / hour) (pos 0)
      (resting (evening (done_run noon_hour ∷ []))) (omega arith) refl refl (omega arith) refl
      (omega arith)
