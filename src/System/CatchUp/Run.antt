-- ===== src/System/CatchUp/Run.antt =====
-- One run of a closed window over the tables, while nothing fails: it succeeds and sets the watermark.
use native.Mathlib.Nat.{mul-mod_left}
use mathlib.Core.Path.{subst}
use activity_events_api.Prelude.{
  ℕ, zero, suc, ◌+◌, ◌*◌, ◌≡◌, ◌≤◌, ◌<◌, refl, sym, ap, ◌∙◌, true, false, inl, inr, Option, none,
  some, List, [], ◌∷◌, ◌++◌, arith, Bool-cases, Result, ok, length, any, ◌==◌, ltb-false, lt→ltb,
}
use activity_events_api.Go.Clock.{Time, is_zero, timestamptz}
use activity_events_api.Models.Aggregation.{AggregationRun, succeeded, schedule, bucket_start_of}
use activity_events_api.Models.Aggregation.Windows.{bucket_start_of-multiple}
use activity_events_api.Repository.Db.{Db}
use activity_events_api.Repository.Db.Up.{statement_up}
use activity_events_api.Repository.Aggregation
use activity_events_api.Repository.Aggregation.{
  max_succeeded, has_succeeded, max_option, last_succeeded_bucket, aggregate_query, groups_in,
  insert_run, record_run, store_option, lock_key,
}
use activity_events_api.Repository.Aggregation.Replay.{aggregate_up}
use activity_events_api.Service.Aggregation.{run_bucket, with_outcome, begin_run}
use activity_events_api.Scheduler.{run}
use activity_events_api.System.{World, aggregation_deps, in_db, report_finished, clock_now}

-- Below, the watermark of a list of runs is at most `t`.
unfoldable pub Below : Option Time → Time → Type 0
Below none t = Unit {0}
Below (some u) t = u ≤ t

max_option-Below : (s t : Time) (o : Option Time) → Below (max_option s o) t → (s ≤ t) × Below o t
unfolding max_option Below
max_option-Below s t none h = (h, tt)
max_option-Below s t (some u) h = (omega (arith, h), omega (arith, h))

-- A run that succeeded, of a window no earlier than the watermark, sets the watermark.
max_succeeded-append :
    (rs : List AggregationRun) (r : AggregationRun)
    → has_succeeded r.status ≡ true
    → Below (max_succeeded rs) r.bucket_start
    → max_succeeded (rs ++ r ∷ []) ≡ some r.bucket_start
unfolding max_succeeded max_option
max_succeeded-append [] r won h = rw won
max_succeeded-append (s ∷ rs) r won h = elim (Bool-cases (has_succeeded s.status)) [
  | inl c ↦
      let low = max_option-Below s.bucket_start r.bucket_start (max_succeeded rs) (rw c at h) in
      rw (c, max_succeeded-append rs r won low.1) (ap some (omega (arith, low.0)))
  | inr c ↦ rw c (max_succeeded-append rs r won (rw c at h))
]

timestamptz-multiple : (k m : ℕ) → timestamptz (k * (m * 1000)) ≡ k * (m * 1000)
timestamptz-multiple k m =
    let e : k * (m * 1000) ≡ k * m * 1000 = grind arith in
    rw e (rw (mul-mod_left (k * m) 1000) (omega arith))

start_pos : (k m : ℕ) → 0 < k → 0 < m → is_zero (k * (m * 1000)) ≡ false
start_pos (suc k) (suc m) h g = grind arith
start_pos zero m h g = absurd (omega arith)
start_pos (suc k) zero h g = absurd (omega arith)

aggregate_free :
    (start end' : Time) (db : Db)
    → db.faults ≡ []
    → db.locked ≡ []
    → Aggregation.aggregate start end' db
      ≡ (ok (length (groups_in start end' db.events)), aggregate_query start end' db)
aggregate_free start end' db up free =
    let open' : any (λ k. k == lock_key start) db.locked ≡ false =
      ap (any (λ k. k == lock_key start)) free in
    aggregate_up start end' db up ∙ rw open'

-- What a run leaves in the history.
record Stored (run : AggregationRun) (db : Db) : Type 0 where
  row : AggregationRun
  pub after : Db
  answer : record_run run db ≡ (ok row, after)
  runs : after.runs ≡ db.runs ++ row ∷ []
  status : row.status ≡ run.status
  starts : row.bucket_start ≡ timestamptz run.bucket_start
  pub up : after.faults ≡ []
  pub free : after.locked ≡ db.locked
  pub clock : after.clock ≡ db.clock

stored_row : AggregationRun → Db → AggregationRun
unfolding store_option
stored_row run db = record run {
  id = db.next_run_id;
  bucket_start = timestamptz run.bucket_start;
  bucket_end = timestamptz run.bucket_end;
  started_at = timestamptz run.started_at;
  finished_at = store_option run.finished_at;
}

record_run-Stored :
    (run : AggregationRun) (db : Db)
    → db.faults ≡ []
    → timestamptz run.bucket_start < timestamptz run.bucket_end
    → Stored run db
unfolding record_run insert_run stored_row
record_run-Stored run db up window =
    let passes = lt→ltb (timestamptz run.bucket_start) (timestamptz run.bucket_end) window in
    record {
      row = stored_row run db;
      after = record db {
        runs = db.runs ++ stored_row run db ∷ [];
        next_run_id = suc db.next_run_id;
      };
      answer = rw (statement_up db up, passes) refl;
      runs = refl;
      status = refl;
      starts = refl;
      up = up;
      free = refl;
      clock = refl;
    }

made : Time → Time → ℕ → Time → AggregationRun
unfolding with_outcome begin_run
made start end' touched now =
    record (with_outcome (begin_run start end' schedule now) (ok touched)) {
      finished_at = some now;
    }

aggregated : Time → Time → World → World
unfolding aggregate_query report_finished
aggregated start end' w =
    report_finished succeeded schedule (length (groups_in start end' w.db.events))
      (record w { db = aggregate_query start end' w.db })

run_bucket_free :
    (bucket backfill : ℕ) (start : Time) (w : World)
    → w.db.faults ≡ []
    → w.db.locked ≡ []
    → is_zero start ≡ false
    → bucket_start_of start bucket ≡ start
    → start + bucket ≤ w.db.clock
    → run_bucket (aggregation_deps bucket backfill) start schedule w
      ≡ in_db
          (record_run (
            made start
              (start + bucket)
              (length (groups_in start (start + bucket) w.db.events))
              w.db.clock))
          (aggregated start (start + bucket) w)
unfolding run_bucket aggregation_deps in_db clock_now aggregated made
run_bucket_free bucket backfill start w up free given aligned closed =
    rw
      (
        given,
        aligned,
        ltb-false w.db.clock (start + bucket) closed,
        aggregate_free start (start + bucket) w.db up free,
      )
      refl

-- The tables take every statement, nobody holds a lock, the clock stands, and the watermark is given.
pub record IsQuiet (now : Time) (watermark : Option Time) (w : World) : Type 0 where
  pub up : w.db.faults ≡ []
  pub free : w.db.locked ≡ []
  pub clock : w.db.clock ≡ now
  pub mark : max_succeeded w.db.runs ≡ watermark

-- What a run that succeeds leaves behind.
pub record Succeeded (now start : Time) (answer : Result AggregationRun × World) : Type 0 where
  pub run : AggregationRun
  pub after : World
  pub answered : answer ≡ (ok run, after)
  pub won : run.status ≡ succeeded
  pub quiet : IsQuiet now (some start) after

module _ (m backfill now : ℕ) (mp : 0 < m) where
  -- A run of the `k`-th window, which has closed and is not before the watermark.
  pub run_bucket-Succeeded :
      (k : ℕ) (mark : Option Time) (w : World)
      → IsQuiet now mark w
      → Below mark (k * (m * 1000))
      → 0 < k
      → k * (m * 1000) + m * 1000 ≤ now
      → Succeeded now
          (k * (m * 1000))
          (run_bucket (aggregation_deps (m * 1000) backfill) (k * (m * 1000)) schedule w)
  unfolding aggregated aggregate_query made with_outcome in_db
  run_bucket-Succeeded k mark w q below kp closed =
      let start = k * (m * 1000) in
      let end' = k * (m * 1000) + m * 1000 in
      let whole = timestamptz-multiple k m in
      let next : (k + 1) * (m * 1000) ≡ end' = grind arith in
      let whole_end : timestamptz end' ≡ end' = rw (sym next) (timestamptz-multiple (k + 1) m) in
      let w1 = aggregated start end' w in
      let s =
        record_run-Stored (made start end' (length (groups_in start end' w.db.events)) w.db.clock)
          w1.db q.up (rw (whole, whole_end) (omega arith)) in
      let starts : s.row.bucket_start ≡ start = s.starts ∙ whole in
      record {
        run = s.row;
        after = record w1 { db = s.after };
        answered =
            run_bucket_free (m * 1000) backfill start w q.up q.free (start_pos k m kp mp)
              (bucket_start_of-multiple k (m * 1000)) (rw q.clock closed)
            ∙ ap (λ (r : Result AggregationRun × Db). (r.0, record w1 { db = r.1 })) s.answer;
        won = s.status;
        quiet = record {
          up = s.up;
          free = s.free ∙ q.free;
          clock = s.clock ∙ q.clock;
          mark =
              ap max_succeeded s.runs
              ∙ max_succeeded-append w.db.runs s.row (unfold has_succeeded in rw s.status) (
                  subst (λ o. Below o s.row.bucket_start) (sym q.mark)
                    (subst (Below mark) (sym starts) below))
              ∙ ap some starts;
        };
      }
