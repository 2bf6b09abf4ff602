-- ===== src/Scheduler.antt =====
-- internal/scheduler/scheduler.go. What the loop's `select` sees is a list of signals; the list ends where
-- nothing has happened yet.
use activity_events_api.Prelude.{
  ℕ, ◌*◌, Bool, true, false, Option, none, some, List, [], ◌∷◌, ◌++◌, map, Error, if◌then◌else◌,
}
use activity_events_api.Prelude.Int.{ℤ, pos, leb_zero}
use activity_events_api.Go.Clock.{Time, minute}
use activity_events_api.Models.Aggregation.{AggregationRun, RunStatus}

-- `Aggregator`
abbrev pub Aggregator : Type 0 → Type 0
Aggregator W = W → (List AggregationRun × Option Error) × W

pub record Scheduler (W : Type 0) : Type 0 where
  pub run_pending : Aggregator W
  pub tick : ℤ

unfoldable pub new_scheduler : {W : Type 0} → Aggregator W → ℤ → Scheduler W
new_scheduler aggregator tick = record {
  run_pending = aggregator;
  tick = if leb_zero tick then pos (5 * minute) else tick;
}

pub data Signal : Type 0 where
  -- `ctx.Done()`
  context_done : Signal
  -- the ticker fires; the context ends during the pass or does not
  ticked : Bool → Signal

-- The lines of the log.
pub data Entry : Type 0 where
  started : ℤ → Entry
  stopped : Entry
  pass_failed : Error → Entry
  bucket_aggregated : Time → RunStatus → ℕ → Entry

entry_of : AggregationRun → Entry
entry_of r = bucket_aggregated r.bucket_start r.status r.users_touched

pass_entries : Bool → List AggregationRun × Option Error → List Entry
unfolding entry_of
pass_entries ended (runs, none) = map entry_of runs
pass_entries true (runs, some e) = []
pass_entries false (runs, some e) = pass_failed e ∷ map entry_of runs

module _ {W : Type 0} (s : Scheduler W) where
  -- The Boolean says whether the context has ended when the pass returns.
  unfoldable pub run_once : Bool → W → List Entry × W
  unfolding pass_entries
  run_once ended w = (pass_entries ended (s.run_pending w).0, (s.run_pending w).1)

  unfoldable pub run_loop : List Signal → W → List Entry × W
  unfolding run_once
  run_loop [] w = ([], w)
  run_loop (context_done ∷ signals) w = (stopped ∷ [], w)
  run_loop (ticked ended ∷ signals) w =
      let rest = run_loop signals (run_once ended w).1 in ((run_once ended w).0 ++ rest.0, rest.1)

  -- `Run`
  unfoldable pub run : Bool → List Signal → W → List Entry × W
  unfolding run_once run_loop
  run ended signals w =
      let rest = run_loop signals (run_once ended w).1 in
      (started s.tick ∷ (run_once ended w).0 ++ rest.0, rest.1)
