-- ===== src/Repository/Statistics.antt =====
-- The reads of internal/repository/aggregation.go: the run history, a user's windows, and their daily sums.
pub mod Days
use mathlib.Core.List.{foldr}
use activity_events_api.Prelude.{
  ℕ, ◌+◌, ◌-◌, ◌*◌, ◌%◌, Bool, ◌&&◌, ◌||◌, List, [], ◌∷◌, Exec, ◌>>=◌, ◌>>◌, gets, take, filterb,
  ltb, leb, ◌==◌, if◌then◌else◌,
}
use activity_events_api.Go.Text.{Bytes, bytes_eq}
use activity_events_api.Go.Clock.{Time, hour, timestamptz}
use activity_events_api.Models.Aggregation.{ActivityBucket, AggregationRun, DailyActivity}
use activity_events_api.Repository.Db.{Db, statement}

-- ORDER BY started_at DESC, id DESC
later_run : AggregationRun → AggregationRun → Bool
later_run q r = ltb r.started_at q.started_at || (r.started_at == q.started_at && ltb r.id q.id)

insert_run_sorted : AggregationRun → List AggregationRun → List AggregationRun
unfolding later_run
insert_run_sorted r [] = r ∷ []
insert_run_sorted r (x ∷ xs) =
    let rest = insert_run_sorted r xs in if later_run x r then x ∷ rest else r ∷ x ∷ xs

unfoldable pub select_runs : ℕ → List AggregationRun → List AggregationRun
unfolding insert_run_sorted
select_runs limit rs = take limit (foldr insert_run_sorted [] rs)

unfoldable pub list_runs : ℕ → Exec Db (List AggregationRun)
unfolding select_runs statement
list_runs limit = do statement; gets (λ db. select_runs limit db.runs)

abbrev bucket_wanted : ℕ → Time → Time → ActivityBucket → Bool
bucket_wanted user from to b =
    (b.user_id == user)
    && leb (timestamptz from) b.bucket_start
    && ltb b.bucket_start (timestamptz to)

-- ORDER BY bucket_start DESC
insert_bucket : ActivityBucket → List ActivityBucket → List ActivityBucket
insert_bucket b [] = b ∷ []
insert_bucket b (x ∷ xs) =
    let rest = insert_bucket b xs in
    if ltb b.bucket_start x.bucket_start then x ∷ rest else b ∷ x ∷ xs

unfoldable pub select_buckets : ℕ → Time → Time → Exec Db (List ActivityBucket)
unfolding insert_bucket statement
select_buckets user from to = do
  statement
  gets (λ db. foldr insert_bucket [] (filterb (bucket_wanted user from to) db.buckets))

-- date_trunc('day', …) in UTC; a day is counted from the zero time, which is a midnight.
unfoldable pub day_of : Time → Time
day_of t = t - t % (24 * hour)

-- The count of one type added to an object of counts.
unfoldable pub add_count : Bytes → ℕ → List (Bytes × ℕ) → List (Bytes × ℕ)
add_count t n [] = (t, n) ∷ []
add_count t n ((s, m) ∷ cs) = if bytes_eq s t then (s, m + n) ∷ cs else (s, m) ∷ add_count t n cs

unfoldable pub add_counts : List (Bytes × ℕ) → List (Bytes × ℕ) → List (Bytes × ℕ)
unfolding add_count
add_counts [] cs = cs
add_counts ((t, n) ∷ new) cs = add_counts new (add_count t n cs)

unfoldable pub sum_counts : List (Bytes × ℕ) → ℕ
sum_counts [] = 0
sum_counts ((t, n) ∷ cs) = n + sum_counts cs

-- Adds a bucket to its day; the days stand newest first, as ORDER BY day DESC has them. A bucket whose
-- object of counts is empty joins with no row, and makes no day.
unfoldable pub add_to_day : Time → List (Bytes × ℕ) → List DailyActivity → List DailyActivity
unfolding add_counts sum_counts
add_to_day day counts [] =
    record { day = day; event_count = sum_counts counts; type_counts = add_counts counts [] } ∷ []
add_to_day day counts (d ∷ ds) =
    let rest = add_to_day day counts ds in
    if d.day == day
    then record d {
      event_count = sum_counts counts + d.event_count;
      type_counts = add_counts counts d.type_counts;
    }
      ∷ ds
    else if ltb day d.day
    then d ∷ rest
    else record { day = day; event_count = sum_counts counts; type_counts = add_counts counts [] }
      ∷ d
      ∷ ds

unfoldable pub add_bucket : List (Bytes × ℕ) → Time → List DailyActivity → List DailyActivity
unfolding add_to_day
add_bucket [] day ds = ds
add_bucket (c ∷ cs) day ds = add_to_day day (c ∷ cs) ds

unfoldable pub rollup_days : List ActivityBucket → List DailyActivity
unfolding add_bucket day_of
rollup_days [] = []
rollup_days (b ∷ bs) = add_bucket b.type_counts (day_of b.bucket_start) (rollup_days bs)

unfoldable pub select_daily : ℕ → Time → Time → Exec Db (List DailyActivity)
unfolding rollup_days statement
select_daily user from to = do
  statement
  gets (λ db. rollup_days (filterb (bucket_wanted user from to) db.buckets))
