-- ===== src/Repository/Statistics/Days.antt =====
-- The daily view against the windows that it sums.
use activity_events_api.Prelude.{ℕ, ◌+◌, ◌≡◌, refl, List, [], ◌∷◌, arith, ◌==◌, if◌then◌else◌}
use activity_events_api.Go.Text.{Bytes}
use activity_events_api.Go.Clock.{Time}
use activity_events_api.Models.Aggregation.{ActivityBucket, DailyActivity}
use activity_events_api.Repository.Statistics.{
  add_to_day, add_bucket, rollup_days, day_of, sum_counts,
}

-- The events that the days of one date report.
abbrev pub reported : Time → List DailyActivity → ℕ
reported day [] = 0
reported day (d ∷ ds) = (if d.day == day then d.event_count else 0) + reported day ds

-- The events that the windows of one date hold.
abbrev pub held : Time → List ActivityBucket → ℕ
held day [] = 0
held day (b ∷ bs) =
    (if day_of b.bucket_start == day then sum_counts b.type_counts else 0) + held day bs

reported-add_to_day :
    (day e : Time) (cs : List (Bytes × ℕ)) (ds : List DailyActivity)
    → reported day (add_to_day e cs ds) ≡ (if e == day then sum_counts cs else 0) + reported day ds
unfolding add_to_day
reported-add_to_day day e cs [] = ground arith
reported-add_to_day day e cs (d ∷ ds) = ground (arith, reported-add_to_day day e cs ds)

reported-add_bucket :
    (day e : Time) (cs : List (Bytes × ℕ)) (ds : List DailyActivity)
    → reported day (add_bucket cs e ds) ≡ (if e == day then sum_counts cs else 0) + reported day ds
unfolding add_bucket
reported-add_bucket day e [] ds = unfold sum_counts in ground arith
reported-add_bucket day e (c ∷ cs) ds = reported-add_to_day day e (c ∷ cs) ds

-- For every date the daily view reports as many events as the windows of that date hold.
pub reported-rollup_days :
    (day : Time) (bs : List ActivityBucket) → reported day (rollup_days bs) ≡ held day bs
unfolding rollup_days
reported-rollup_days day [] = refl
reported-rollup_days day (b ∷ bs) = ground (
  arith,
  reported-add_bucket day (day_of b.bucket_start) b.type_counts (rollup_days bs),
  reported-rollup_days day bs,
)
