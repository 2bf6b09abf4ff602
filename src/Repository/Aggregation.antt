-- ===== src/Repository/Aggregation.antt =====
-- internal/repository/aggregation.go, and the tables activity_buckets and aggregation_runs of
-- migrations/00005_aggregation.sql. A result of a query that has no ORDER BY stands in the order of its
-- rows. A JSON object of counts is a list of pairs. Decoding a row cannot fail here.
pub mod Rollup
pub mod Replay
use Prim.Native.Nat.{min, max}
use mathlib.Core.List.{foldr}
use activity_events_api.Prelude.{
  ℕ, suc, ◌+◌, ◌-◌, ◌*◌, ◌/◌, ◌%◌, Bool, true, false, not, ◌&&◌, Option, none, some, List, [], ◌∷◌,
  ◌++◌, ◌||◌, take, Result, ok, err, repository, database, bucket_locked, Exec, ◌>>=◌, ◌>>◌, raise,
  pure, gets, effect, length, any, filterb, ltb, leb, ◌==◌, if◌then◌else◌,
}
use activity_events_api.Go.Text.{Bytes, bytes_eq}
use activity_events_api.Go.Clock.{Time, second, hour, timestamptz}
use activity_events_api.Models.Event.{Event}
use activity_events_api.Models.Aggregation.{
  ActivityBucket, AggregationRun, RunStatus, succeeded, failed, skipped,
}
use activity_events_api.Repository.Db.{Db, statement, transaction}

-- GROUP BY user_id, type
pub record TypeGroup : Type 0 where
  pub user_id : ℕ
  pub type : Bytes
  pub cnt : ℕ
  pub first_at : Time
  pub last_at : Time

unfoldable pub add_event : Event → List TypeGroup → List TypeGroup
add_event e [] =
    record {
      user_id = e.user_id;
      type = e.type;
      cnt = 1;
      first_at = e.occurred_at;
      last_at = e.occurred_at;
    }
    ∷ []
add_event e (g ∷ gs) =
    if (g.user_id == e.user_id) && bytes_eq g.type e.type
    then record g {
      cnt = g.cnt + 1;
      first_at = min e.occurred_at g.first_at;
      last_at = max e.occurred_at g.last_at;
    }
      ∷ gs
    else g ∷ add_event e gs

unfoldable pub per_type : List Event → List TypeGroup
unfolding add_event
per_type [] = []
per_type (e ∷ es) = add_event e (per_type es)

-- GROUP BY user_id
pub record UserGroup : Type 0 where
  pub user_id : ℕ
  pub event_count : ℕ
  pub type_counts : List (Bytes × ℕ)
  pub first_event_at : Time
  pub last_event_at : Time

unfoldable pub add_group : TypeGroup → List UserGroup → List UserGroup
add_group g [] =
    record {
      user_id = g.user_id;
      event_count = g.cnt;
      type_counts = (g.type, g.cnt) ∷ [];
      first_event_at = g.first_at;
      last_event_at = g.last_at;
    }
    ∷ []
add_group g (u ∷ us) =
    if u.user_id == g.user_id
    then record u {
      event_count = g.cnt + u.event_count;
      type_counts = (g.type, g.cnt) ∷ u.type_counts;
      first_event_at = min g.first_at u.first_event_at;
      last_event_at = max g.last_at u.last_event_at;
    }
      ∷ us
    else u ∷ add_group g us

unfoldable pub rolled : List TypeGroup → List UserGroup
unfolding add_group
rolled [] = []
rolled (g ∷ gs) = add_group g (rolled gs)

abbrev pub in_window : Time → Time → Event → Bool
in_window start end' e =
    leb (timestamptz start) e.occurred_at && ltb e.occurred_at (timestamptz end')

unfoldable pub bucket_of : Time → Time → UserGroup → ActivityBucket
bucket_of start now u = record {
  user_id = u.user_id;
  bucket_start = timestamptz start;
  event_count = u.event_count;
  type_counts = u.type_counts;
  first_event_at = u.first_event_at;
  last_event_at = u.last_event_at;
  computed_at = timestamptz now;
}

-- ON CONFLICT (user_id, bucket_start) DO UPDATE
unfoldable pub upsert : ActivityBucket → List ActivityBucket → List ActivityBucket
upsert b [] = b ∷ []
upsert b (c ∷ cs) =
    if (c.user_id == b.user_id) && (c.bucket_start == b.bucket_start)
    then b ∷ cs
    else c ∷ upsert b cs

unfoldable pub upsert_all : Time → Time → List UserGroup → List ActivityBucket → List ActivityBucket
unfolding upsert bucket_of
upsert_all start now [] bs = bs
upsert_all start now (u ∷ us) bs = upsert_all start now us (upsert (bucket_of start now u) bs)

unfoldable pub groups_in : Time → Time → List Event → List UserGroup
unfolding rolled per_type
groups_in start end' events = rolled (per_type (filterb (in_window start end') events))

-- The lock's key is the window's start in RFC 3339, which shows whole seconds.
unfoldable pub lock_key : Time → ℕ
lock_key start = start / second

unfoldable pub try_lock_bucket : Time → Exec Db Bool
unfolding lock_key statement
try_lock_bucket start = do statement; gets (λ db. not (any (λ k. k == lock_key start) db.locked))

unfoldable pub require_lock : Bool → Exec Db (Unit {0})
require_lock true = pure tt
require_lock false = raise (repository bucket_locked)

unfoldable pub aggregate_query : Time → Time → Db → Db
unfolding upsert_all groups_in
aggregate_query start end' db = record db {
  buckets = upsert_all start db.clock (groups_in start end' db.events) db.buckets;
}

-- The rows affected are one for each user with an event in the window.
unfoldable pub aggregate_body : Time → Time → Exec Db ℕ
unfolding try_lock_bucket require_lock aggregate_query
aggregate_body start end' = do
  locked ← try_lock_bucket start
  require_lock locked
  statement
  touched ← gets (λ db. length (groups_in start end' db.events))
  effect (aggregate_query start end')
  pure touched

unfoldable pub aggregate : Time → Time → Exec Db ℕ
unfolding aggregate_body transaction
aggregate start end' = transaction (aggregate_body start end')

unfoldable pub store_option : Option Time → Option Time
store_option none = none
store_option (some t) = some (timestamptz t)

-- aggregation_runs_window_check, then the row with its new id
unfoldable pub insert_run : AggregationRun → Db → Result AggregationRun × Db
unfolding store_option
insert_run run db =
    let stored : AggregationRun = record run {
      id = db.next_run_id;
      bucket_start = timestamptz run.bucket_start;
      bucket_end = timestamptz run.bucket_end;
      started_at = timestamptz run.started_at;
      finished_at = store_option run.finished_at;
    } in
    let drawn = record db { next_run_id = suc db.next_run_id } in
    if ltb stored.bucket_start stored.bucket_end
    then (ok stored, record drawn { runs = db.runs ++ stored ∷ [] })
    else (err (repository database), drawn)

unfoldable pub record_run : AggregationRun → Exec Db AggregationRun
unfolding insert_run statement
record_run run = do statement; insert_run run

unfoldable pub has_succeeded : RunStatus → Bool
has_succeeded succeeded = true
has_succeeded failed = false
has_succeeded skipped = false

unfoldable pub max_option : Time → Option Time → Option Time
max_option t none = some t
max_option t (some u) = some (max t u)

unfoldable pub min_option : Time → Option Time → Option Time
min_option t none = some t
min_option t (some u) = some (min t u)

unfoldable pub max_succeeded : List AggregationRun → Option Time
unfolding has_succeeded max_option
max_succeeded [] = none
max_succeeded (r ∷ rs) =
    if has_succeeded r.status
    then max_option r.bucket_start (max_succeeded rs)
    else max_succeeded rs

unfoldable pub last_succeeded_bucket : Exec Db (Option Time)
unfolding max_succeeded statement
last_succeeded_bucket = do statement; gets (λ db. max_succeeded db.runs)

unfoldable pub min_occurred : List Event → Option Time
unfolding min_option
min_occurred [] = none
min_occurred (e ∷ es) = min_option e.occurred_at (min_occurred es)

unfoldable pub earliest_event : Exec Db (Option Time)
unfolding min_occurred statement
earliest_event = do statement; gets (λ db. min_occurred db.events)
