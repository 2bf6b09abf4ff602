-- ===== src/System/CatchUp.antt =====
-- The worker of internal/scheduler over the aggregation service and the tables, while nothing fails.
pub mod Run
use native.Mathlib.Nat.{mul-mod_left}
use mathlib.Core.Path.{subst}
use activity_events_api.Prelude.{
  ℕ, zero, suc, ◌+◌, ◌-◌, ◌*◌, ◌/◌, ◌%◌, ◌≡◌, ◌≤◌, ◌<◌, ◌⊎◌, refl, sym, ap, ◌∙◌, Bool, true, false,
  inl, inr, Option, none, some, List, [], ◌∷◌, ◌++◌, arith, Bool-cases, Result, ok, err, Error,
  length, any, replicate, ltb, ◌==◌, if◌then◌else◌, ltb-false, lt→ltb,
}
use activity_events_api.Go.Clock.{Time, Duration, is_zero, timestamptz}
use activity_events_api.Models.Aggregation.{AggregationRun, succeeded, schedule, bucket_start_of}
use activity_events_api.Models.Aggregation.Windows.{windows_from, bucket_start_of-multiple}
use activity_events_api.Repository.Db.{Db}
use activity_events_api.Repository.Db.Up.{statement_up}
use activity_events_api.Repository.Aggregation
use activity_events_api.Repository.Aggregation.{
  max_succeeded, has_succeeded, max_option, last_succeeded_bucket, aggregate_query, groups_in,
  insert_run, record_run, store_option, lock_key,
}
use activity_events_api.Repository.Aggregation.Replay.{aggregate_up}
use activity_events_api.Service.Aggregation.{
  pending_buckets, run_bucket, attempt_run, run_windows, run_pending, run_listed, after_run,
  is_succeeded, with_outcome, begin_run, report_run, check_closed, window_time,
}
use activity_events_api.Service.Aggregation.Pending.{Pending, pending_buckets-after}
use activity_events_api.Prelude.Int.{ℤ}
use activity_events_api.Scheduler.{Scheduler, new_scheduler, run, run_loop, run_once, ticked}
use Run.{Below, IsQuiet, Succeeded, run_bucket-Succeeded}
use activity_events_api.System.{
  World, aggregation_deps, in_db, report_finished, report_lag, clock_now,
}

module _ (m backfill now : ℕ) (mp : 0 < m) where
  bucket : Duration
  bucket = m * 1000

  after_run-IsQuiet :
      (rest : World → (List AggregationRun × Option Error) × World) (start : Time)
      (answer : Result AggregationRun × World) (s : Succeeded now start answer) (mark : Option Time)
      → IsQuiet now mark (rest s.after).1
      → IsQuiet now mark (after_run (aggregation_deps bucket backfill) rest answer.0 answer.1).1
  unfolding after_run is_succeeded
  after_run-IsQuiet rest start answer s mark q = rw (s.answered, s.won) q

  Below-next : (j b : ℕ) → Below (some (j * b)) ((j + 1) * b)
  unfolding Below
  Below-next j b = grind arith

  room : (j n b : ℕ) → (j + suc n) * b + b ≤ now → (j + 1) * b + b ≤ now
  room j n b h = let least : (j + 1) * b ≤ (j + suc n) * b = grind arith in omega arith

  -- A pass over the windows behind the watermark moves it over them.
  run_windows-IsQuiet :
      (n j : ℕ) (w : World)
      → IsQuiet now (some (j * bucket)) w
      → (n ≡ 0) ⊎ ((j + n) * bucket + bucket ≤ now)
      → IsQuiet now
          (some ((j + n) * bucket))
          (run_windows
            (aggregation_deps bucket backfill)
            (windows_from ((j + 1) * bucket) bucket n)
            w).1
  unfolding run_windows bucket
  run_windows-IsQuiet zero j w q closed =
      let same : j * bucket ≡ (j + 0) * bucket = ap (λ (i : ℕ). i * bucket) (omega arith) in
      subst (λ t. IsQuiet now (some t) w) same q
  run_windows-IsQuiet (suc n) j w q closed =
      let end' : (j + suc n) * bucket + bucket ≤ now = last_end closed in
      let first = (j + 1) * bucket in
      let s =
        run_bucket-Succeeded m backfill now mp (j + 1) (some (j * bucket)) w q (Below-next j bucket)
          (omega arith) (room j n bucket end') in
      let along : (j + 1 + n) * bucket ≡ (j + suc n) * bucket =
        ap (λ (i : ℕ). i * bucket) (omega arith) in
      let rest = run_windows-IsQuiet n (j + 1) s.after s.quiet (inr (omega (arith, along))) in
      let next : (j + 1 + 1) * bucket ≡ first + bucket = grind arith in
      after_run-IsQuiet
        (run_windows (aggregation_deps bucket backfill) (windows_from (first + bucket) bucket n))
        first (run_bucket (aggregation_deps bucket backfill) first schedule w) s
        (some ((j + suc n) * bucket)) (rw (sym along, sym next) rest)
    where
      last_end :
          (suc n ≡ 0) ⊎ ((j + suc n) * bucket + bucket ≤ now) → (j + suc n) * bucket + bucket ≤ now
      last_end (inl h) = absurd (omega arith)
      last_end (inr h) = h

  pending_buckets-IsQuiet :
      (j : ℕ) (w : World)
      → IsQuiet now (some (j * bucket)) w
      → IsQuiet now (some (j * bucket)) (pending_buckets (aggregation_deps bucket backfill) w).1
  unfolding pending_buckets aggregation_deps in_db clock_now last_succeeded_bucket report_lag
  pending_buckets-IsQuiet j w q =
      rw (statement_up w.db q.up, q.mark)
        (record { up = q.up; free = q.free; clock = q.clock; mark = q.mark })

  -- Where passes leave the watermark: at the last window that had closed, or as many windows on as the
  -- limit of each allows.
  record Passed (passes j : ℕ) (w : World) : Type 0 where
    last : ℕ
    quiet : IsQuiet now (some (last * bucket)) w
    on : j ≤ last
    far : (now < (last + 2) * bucket) ⊎ (j + passes * backfill ≤ last)

  next_start : (j b : ℕ) → (j + 1) * b ≡ j * b + b
  next_start j b = grind arith

  windows-Pending :
      (j : ℕ) (w : World)
      → m * 1000 ≤ now
      → IsQuiet now (some (j * bucket)) w
      → (windows : List Time) × ((pending_buckets (aggregation_deps bucket backfill) w).0
          ≡ ok windows)
        × Pending (j * bucket + bucket) now bucket backfill windows
  unfolding aggregation_deps bucket in_db clock_now last_succeeded_bucket
  windows-Pending j w late q =
      let (windows, listed, p) =
        pending_buckets-after (aggregation_deps bucket backfill) w (j * bucket) j w (omega arith)
          (rw q.clock late) (rw (statement_up w.db q.up, q.mark) refl) refl in
      (
        windows,
        listed,
        subst (λ t. Pending (j * bucket + bucket) t bucket backfill windows) q.clock p,
      )

  windows_closed :
      (j n : ℕ)
      → (n ≡ 0) ⊎ (j * bucket + bucket + n * bucket ≤ now)
      → (n ≡ 0) ⊎ ((j + n) * bucket + bucket ≤ now)
  windows_closed j n (inl h) = inl h
  windows_closed j n (inr h) =
      let e : (j + n) * bucket ≡ j * bucket + n * bucket = grind arith in inr (omega arith)

  windows_far :
      (j n : ℕ)
      → (n ≡ backfill) ⊎ (now < j * bucket + bucket + (n + 1) * bucket)
      → (now < (j + n + 2) * bucket) ⊎ (j + 1 * backfill ≤ j + n)
  windows_far j n (inl h) = inr (omega arith)
  windows_far j n (inr h) =
      let e : (j + n + 2) * bucket ≡ j * bucket + bucket + (n + 1) * bucket = grind arith in
      inl (omega arith)

  run_pending-Passed :
      (j : ℕ) (w : World)
      → m * 1000 ≤ now
      → IsQuiet now (some (j * bucket)) w
      → Passed 1 j (run_pending (aggregation_deps bucket backfill) w).1
  unfolding run_pending run_listed
  run_pending-Passed j w late q =
      let d = aggregation_deps bucket backfill in
      let (windows, listed, p) = windows-Pending j w late q in
      let after_listing = (pending_buckets d w).1 in
      let moved =
        run_windows-IsQuiet p.amount j after_listing (pending_buckets-IsQuiet j w q)
          (windows_closed j p.amount p.closed) in
      record {
        last = j + p.amount;
        quiet = rw (listed, p.in_a_row, sym (next_start j bucket)) moved;
        on = omega arith;
        far = windows_far j p.amount p.complete;
      }

  nothing_fits :
      (j n : ℕ)
      → (n ≡ 0) ⊎ (j * bucket + bucket + n * bucket ≤ now)
      → now < (j + 2) * bucket
      → n ≡ 0
  nothing_fits j zero h near = refl
  nothing_fits j (suc n) (inl h) near = h
  nothing_fits j (suc n) (inr h) near =
      let e : (j + 2) * bucket ≡ j * bucket + bucket + bucket = grind arith in
      let more : bucket ≤ suc n * bucket = grind arith in absurd (omega arith)

  caught_up :
      (j : ℕ) (w : World)
      → m * 1000 ≤ now
      → IsQuiet now (some (j * bucket)) w
      → now < (j + 2) * bucket
      → (pending_buckets (aggregation_deps bucket backfill) w).0 ≡ ok []
  caught_up j w late q near =
      let (windows, listed, p) = windows-Pending j w late q in
      let none_left : p.amount ≡ 0 = nothing_fits j p.amount p.closed near in
      rw (listed, p.in_a_row, none_left) refl

  further :
      (n j l last : ℕ)
      → l ≤ last
      → (now < (l + 2) * bucket) ⊎ (j + 1 * backfill ≤ l)
      → (now < (last + 2) * bucket) ⊎ (l + n * backfill ≤ last)
      → (now < (last + 2) * bucket) ⊎ (j + suc n * backfill ≤ last)
  further n j l last on (inl h) k =
      let wider : (l + 2) * bucket ≤ (last + 2) * bucket = grind arith in inl (omega arith)
  further n j l last on (inr h) (inl k) = inl k
  further n j l last on (inr h) (inr k) =
      let e : suc n * backfill ≡ n * backfill + backfill = grind arith in inr (omega arith)

  scaled : (a b n : ℕ) → a ≤ b → (a + 2) * n ≤ (b + 2) * n
  scaled a b n h = grind arith

  module _ (tick : ℤ) where
    worker : Scheduler World
    worker = new_scheduler (run_pending (aggregation_deps bucket backfill)) tick

    run_loop-Passed :
        (n j : ℕ) (w : World)
        → m * 1000 ≤ now
        → IsQuiet now (some (j * bucket)) w
        → Passed n j (run_loop worker (replicate n (ticked false)) w).1
    unfolding run_loop run_once worker new_scheduler
    run_loop-Passed zero j w late q = record {
      last = j;
      quiet = q;
      on = omega arith;
      far = inr (omega arith);
    }
    run_loop-Passed (suc n) j w late q =
        let p = run_pending-Passed j w late q in
        let r =
          run_loop-Passed n p.last (run_pending (aggregation_deps bucket backfill) w).1 late
            p.quiet in
        record {
          last = r.last;
          quiet = r.quiet;
          on = omega (arith, p.on, r.on);
          far = further n j p.last r.last r.on p.far r.far;
        }

    run-caught_up :
        (n j : ℕ) (w : World)
        → m * 1000 ≤ now
        → IsQuiet now (some (j * bucket)) w
        → now < (j + suc n * backfill + 2) * bucket
        → (pending_buckets
            (aggregation_deps bucket backfill)
            (run worker false (replicate n (ticked false)) w).1).0
          ≡ ok []
    unfolding run run_once worker new_scheduler
    run-caught_up n j w late q near =
        let p = run_loop-Passed (suc n) j w late q in
        caught_up p.last _ late p.quiet (reached p.last p.far)
      where
        reached :
            (last : ℕ)
            → (now < (last + 2) * bucket) ⊎ (j + suc n * backfill ≤ last)
            → now < (last + 2) * bucket
        reached last (inl h) = h
        reached last (inr h) = omega (arith, scaled (j + suc n * backfill) last bucket h)

-- The worker catches up: while no statement fails, nobody holds a lock and the clock stands past the first
-- window, with windows of whole microseconds and the watermark at a window's start, a loop of `passes + 1`
-- passes leaves no window pending, if the windows that have closed since the watermark are no more than the
-- passes may take.
pub run-pending_buckets :
    (m backfill passes j : ℕ) (tick : ℤ) (w : World)
    → 0 < m
    → w.db.faults ≡ []
    → w.db.locked ≡ []
    → m * 1000 ≤ w.db.clock
    → max_succeeded w.db.runs ≡ some (j * (m * 1000))
    → w.db.clock < (j + suc passes * backfill + 2) * (m * 1000)
    → (pending_buckets
        (aggregation_deps (m * 1000) backfill)
        (run
          (new_scheduler (run_pending (aggregation_deps (m * 1000) backfill)) tick)
          false
          (replicate passes (ticked false))
          w).1).0
      ≡ ok []
unfolding bucket worker
run-pending_buckets m backfill passes j tick w mp up free late mark near =
    run-caught_up m backfill w.db.clock mp tick passes j w late
      (record { up = up; free = free; clock = refl; mark = mark }) near
