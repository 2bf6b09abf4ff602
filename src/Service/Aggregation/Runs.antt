-- ===== src/Service/Aggregation/Runs.antt =====
-- One run of a window, and a pass of the worker over the pending ones.
use activity_events_api.Prelude.{
  ℕ, ◌+◌, ◌≡◌, ◌≤◌, refl, true, false, inl, inr, Option, none, some, List, [], ◌∷◌, arith,
  Bool-cases, Result, ok, err, Error, repository, bucket_locked, ltb-false,
}
use activity_events_api.Go.Clock.{Time, is_zero}
use activity_events_api.Models.Aggregation.{
  RunStatus, succeeded, failed, skipped, RunTrigger, schedule, AggregationRun, bucket_start_of,
}
use activity_events_api.Service.Aggregation.{
  AggregationDeps, begin_run, run_bucket, with_outcome, report_run, run_windows, after_run,
  is_succeeded,
}

-- How the outcome of the aggregation stands in the run that is recorded.
abbrev pub Reports : Result ℕ → AggregationRun → Type 0
Reports (ok touched) run =
    (run.status ≡ succeeded) × (run.users_touched ≡ touched) × (run.error ≡ none)
Reports (err (repository bucket_locked)) run =
    (run.status ≡ skipped) × (run.users_touched ≡ 0) × (run.error ≡ none)
Reports (err e) run = (run.status ≡ failed) × (run.users_touched ≡ 0) × (run.error ≡ some e)

with_outcome-Reports :
    (run : AggregationRun) (r : Result ℕ) (at : Option Time)
    → run.users_touched ≡ 0
    → run.error ≡ none
    → Reports r (record (with_outcome run r) { finished_at = at })
unfolding with_outcome
with_outcome-Reports run (ok n) at u e = (refl, refl, e)
with_outcome-Reports run (err (repository bucket_locked)) at u e = (refl, u, e)
with_outcome-Reports run (err x) at u e = (refl, u, refl)

with_outcome-window :
    (run : AggregationRun) (r : Result ℕ)
    → ((with_outcome run r).bucket_start ≡ run.bucket_start)
      × ((with_outcome run r).bucket_end ≡ run.bucket_end)
      × ((with_outcome run r).trigger ≡ run.trigger)
unfolding with_outcome
with_outcome-window run (ok n) = (refl, refl, refl)
with_outcome-window run (err (repository bucket_locked)) = (refl, refl, refl)
with_outcome-window run (err x) = (refl, refl, refl)

module _ {W : Type 0} (d : AggregationDeps W) (at : Time) (trigger : RunTrigger) (w : W) where
  -- What a run of a closed window records, whatever the aggregation gave: the window of `at`, closed at
  -- the time of the check, what started it, and the outcome. The answer is that of the recording.
  pub record Recorded (start : Time) : Type 0 where
    pub run : AggregationRun
    pub before_run : W
    pub before_record : W
    pub answer : run_bucket d at trigger w ≡ d.record_run run before_record
    pub starts : run.bucket_start ≡ start
    pub ends : run.bucket_end ≡ start + d.bucket
    pub closed : run.bucket_end ≤ (d.now w).0
    pub by : run.trigger ≡ trigger
    pub outcome : Reports (d.aggregate start (start + d.bucket) before_run).0 run

  -- A run of the window of a given instant (not the zero time) that has closed is recorded with that window, its trigger and the outcome of the
  -- aggregation, also if that failed or was refused for the lock, and the answer is that of the recording.
  pub run_bucket_closed :
      is_zero at ≡ false
      → bucket_start_of at d.bucket + d.bucket ≤ (d.now w).0
      → Recorded (bucket_start_of at d.bucket)
  unfolding run_bucket
  run_bucket_closed given past =
      let start = bucket_start_of at d.bucket in
      let begun = d.now (d.now w).1 in
      let outcome = d.aggregate start (start + d.bucket) begun.1 in
      let finished = d.now outcome.1 in
      let run = begin_run start (start + d.bucket) trigger begun.0 in
      let done : AggregationRun = record (with_outcome run outcome.0) {
        finished_at = some finished.0;
      } in
      let same = with_outcome-window run outcome.0 in
      record {
        run = done;
        before_run = begun.1;
        before_record = report_run d.run_finished done finished.1;
        answer = rw (given, ltb-false _ _ past);
        starts = same.0;
        ends = same.1;
        closed = omega (arith, same.1);
        by = same.2;
        outcome = with_outcome-Reports run outcome.0 (some finished.0) refl refl;
      }

-- All runs of a pass but the last succeeded.
abbrev pub AllButLast : List AggregationRun → Type 0
AllButLast [] = Unit {0}
AllButLast (r ∷ []) = Unit {0}
AllButLast (r ∷ s ∷ rs) = (r.status ≡ succeeded) × AllButLast (s ∷ rs)

AllButLast-cons :
    (r : AggregationRun) (rs : List AggregationRun)
    → r.status ≡ succeeded
    → AllButLast rs
    → AllButLast (r ∷ rs)
AllButLast-cons r [] h a = tt
AllButLast-cons r (s ∷ rs) h a = (h, a)

is_succeeded-eq : (s : RunStatus) → is_succeeded s ≡ true → s ≡ succeeded
unfolding is_succeeded
is_succeeded-eq succeeded h = refl
is_succeeded-eq failed h = absurd (cc)
is_succeeded-eq skipped h = absurd (cc)

module _ {W : Type 0} (d : AggregationDeps W) where
  after_run-AllButLast :
      (rest : W → (List AggregationRun × Option Error) × W) (r : Result AggregationRun) (w : W)
      → AllButLast (rest w).0.0
      → AllButLast (after_run d rest r w).0.0
  unfolding after_run
  after_run-AllButLast rest (err e) w a = tt
  after_run-AllButLast rest (ok run) w a = elim (Bool-cases (is_succeeded run.status)) [
    | inl c ↦ rw c (AllButLast-cons run (rest w).0.0 (is_succeeded-eq run.status c) a)
    | inr c ↦ rw c tt
  ]

  -- A pass over windows stops at the first run that did not succeed: in what it returns, every run but
  -- the last has succeeded.
  pub run_windows-AllButLast :
      (windows : List Time) (w : W) → AllButLast (run_windows d windows w).0.0
  unfolding run_windows
  run_windows-AllButLast [] w = tt
  run_windows-AllButLast (start ∷ rest) w =
      after_run-AllButLast (run_windows d rest) (run_bucket d start schedule w).0
        (run_bucket d start schedule w).1
        (run_windows-AllButLast rest (run_bucket d start schedule w).1)
