-- ===== src/System/Watermark.antt =====
-- The worker's watermark is the newest window that succeeded, whoever started its run.
use mathlib.Core.Path.{subst}
use activity_events_api.Prelude.{
  ℕ, zero, suc, ◌+◌, ◌*◌, ◌≡◌, ◌<◌, ◌≤◌, sym, true, false, inl, inr, Option, none, some, List, [],
  ◌∷◌, ◌++◌, arith, Bool-cases, All, ok,
}
use activity_events_api.Go.Clock.{Time, Duration}
use activity_events_api.Models.Aggregation.{AggregationRun, succeeded}
use activity_events_api.Models.Aggregation.Windows.{windows_from}
use activity_events_api.Repository.Db.Up.{statement_up}
use activity_events_api.Repository.Aggregation.{
  max_succeeded, has_succeeded, max_option, last_succeeded_bucket,
}
use activity_events_api.Service.Aggregation.{pending_buckets}
use activity_events_api.Service.Aggregation.Pending.{pending_buckets-after}
use activity_events_api.System.{World, aggregation_deps}

-- The watermark, if there is one, is at or above the run's window if the run succeeded.
abbrev IsCovered : Option Time → AggregationRun → Type 0
IsCovered none r = ¬ (r.status ≡ succeeded)
IsCovered (some t) r = r.status ≡ succeeded → r.bucket_start ≤ t

IsCovered-more :
    (t : Time) (o : Option Time) (rs : List AggregationRun)
    → All (IsCovered o) rs
    → All (IsCovered (max_option t o)) rs
unfolding max_option
IsCovered-more t none [] a = tt
IsCovered-more t none (r ∷ rs) a = ((λ s. absurd (a.0 s)), IsCovered-more t none rs a.1)
IsCovered-more t (some u) [] a = tt
IsCovered-more t (some u) (r ∷ rs) a =
    ((λ s. omega (arith, a.0 s)), IsCovered-more t (some u) rs a.1)

covers_own : (r : AggregationRun) (o : Option Time) → IsCovered (max_option r.bucket_start o) r
unfolding max_option
covers_own r none = λ s. omega arith
covers_own r (some u) = λ s. omega arith

not_succeeded :
    (r : AggregationRun) (o : Option Time) → has_succeeded r.status ≡ false → IsCovered o r
unfolding has_succeeded
not_succeeded r none h = λ s. cc
not_succeeded r (some t) h = λ s. absurd (cc)

max_succeeded-hit :
    (r : AggregationRun) (rs : List AggregationRun)
    → has_succeeded r.status ≡ true
    → max_succeeded (r ∷ rs) ≡ max_option r.bucket_start (max_succeeded rs)
unfolding max_succeeded
max_succeeded-hit r rs h = rw h

max_succeeded-miss :
    (r : AggregationRun) (rs : List AggregationRun)
    → has_succeeded r.status ≡ false
    → max_succeeded (r ∷ rs) ≡ max_succeeded rs
unfolding max_succeeded
max_succeeded-miss r rs h = rw h

max_succeeded-covers : (rs : List AggregationRun) → All (IsCovered (max_succeeded rs)) rs
max_succeeded-covers [] = tt
max_succeeded-covers (r ∷ rs) =
    let rest = max_succeeded-covers rs in
    elim (Bool-cases (has_succeeded r.status)) [
      | inl hit ↦
          subst (λ o. All (IsCovered o) (r ∷ rs)) (sym (max_succeeded-hit r rs hit))
            (
              covers_own r (max_succeeded rs),
              IsCovered-more r.bucket_start (max_succeeded rs) rs rest,
            )
      | inr miss ↦
          subst (λ o. All (IsCovered o) (r ∷ rs)) (sym (max_succeeded-miss r rs miss))
            (not_succeeded r (max_succeeded rs) miss, rest)
    ]

IsCovered-at :
    (o : Option Time) (pre : List AggregationRun) (r : AggregationRun) (post : List AggregationRun)
    → All (IsCovered o) (pre ++ r ∷ post)
    → IsCovered o r
IsCovered-at o [] r post a = a.0
IsCovered-at o (x ∷ pre) r post a = IsCovered-at o pre r post a.1

above :
    (first : Time) (size : Duration) (n : ℕ) (t : Time)
    → t < first
    → All (λ s. t < s) (windows_from first size n)
above first size zero t h = tt
above first size (suc n) t h = (h, above (first + size) size n t (omega arith))

-- A run that succeeded, by hand or on schedule, puts its window and all before it out of the worker's
-- reach: with the database up, the clock past the first window, a positive window size and a watermark
-- that starts a window, every pending window starts after that of any run that succeeded.
pub pending-skips :
    (w : World) (bucket backfill k : ℕ) (last : Time) (pre post : List AggregationRun)
    (r : AggregationRun)
    → w.db.faults ≡ []
    → 0 < bucket
    → bucket ≤ w.db.clock
    → max_succeeded w.db.runs ≡ some last
    → last ≡ k * bucket
    → w.db.runs ≡ pre ++ r ∷ post
    → r.status ≡ succeeded
    → (windows : List Time) × ((pending_buckets (aggregation_deps bucket backfill) w).0
        ≡ ok windows)
      × All (λ s. r.bucket_start < s) windows
unfolding aggregation_deps last_succeeded_bucket
pending-skips w bucket backfill k last pre post r up pos late m e split won =
    let d = aggregation_deps bucket backfill in
    let watermark = statement_up w.db up in
    let (windows, h, p) = pending_buckets-after d w last k w pos late (rw (watermark, m)) e in
    let covered : All (IsCovered (some last)) (pre ++ r ∷ post) =
      subst (All (IsCovered (some last))) split
        (subst (λ o. All (IsCovered o) w.db.runs) m (max_succeeded-covers w.db.runs)) in
    let below = IsCovered-at (some last) pre r post covered in
    (
      windows,
      h,
      subst (All (λ s'. r.bucket_start < s')) (sym p.in_a_row)
          (above (last + bucket) bucket p.amount r.bucket_start (omega (arith, below won))),
    )
