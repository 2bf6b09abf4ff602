-- ===== src/Models/Aggregation.antt =====
-- internal/models/aggregation.go: windows of fixed size and the rows that aggregation writes.
pub mod Windows
use activity_events_api.Prelude.{
  ℕ, zero, suc, ◌+◌, ◌-◌, ◌*◌, ◌/◌, Bool, Option, List, [], ◌∷◌, Error, if◌then◌else◌,
}
use activity_events_api.Go.Text.{Bytes}
use activity_events_api.Go.Clock.{Time, Duration, hour, after, truncate}

abbrev pub bucket_duration : Duration
bucket_duration = 4 * hour

pub data RunStatus : Type 0 where
  succeeded failed skipped : RunStatus

pub data RunTrigger : Type 0 where
  schedule manual : RunTrigger

pub record ActivityBucket : Type 0 where
  pub user_id : ℕ
  pub bucket_start : Time
  pub event_count : ℕ
  pub type_counts : List (Bytes × ℕ)
  pub first_event_at : Time
  pub last_event_at : Time
  pub computed_at : Time

pub record AggregationRun : Type 0 where
  pub id : ℕ
  pub bucket_start : Time
  pub bucket_end : Time
  pub status : RunStatus
  pub trigger : RunTrigger
  pub users_touched : ℕ
  pub started_at : Time
  pub finished_at : Option Time
  pub error : Option Error

pub record DailyActivity : Type 0 where
  pub day : Time
  pub event_count : ℕ
  pub type_counts : List (Bytes × ℕ)

unfoldable pub bucket_start_of : Time → Duration → Time
bucket_start_of t size = truncate t size

-- `for b := from; !b.After(to); b = b.Add(size)`, with fuel for the rounds.
unfoldable pub buckets_loop : ℕ → Time → Time → Duration → List Time
buckets_loop zero b to size = []
buckets_loop (suc fuel) b to size =
    let rest = buckets_loop fuel (b + size) to size in if after b to then [] else b ∷ rest

-- A window starts every `size` nanoseconds, so one round more than their number is enough.
unfoldable pub buckets_between : Time → Time → Duration → List Time
unfolding buckets_loop bucket_start_of
buckets_between from to size =
    let first = bucket_start_of from size in
    let last = bucket_start_of to size in buckets_loop ((last - first) / size + 2) first last size
