-- ===== src/Service/Aggregation/Pending.antt =====
-- Which windows the worker still has to aggregate.
use Prim.Native.Nat.{min}
use native.Mathlib.Nat.{mul-div_cancel}
use activity_events_api.Prelude.{
  ℕ, zero, suc, ◌+◌, ◌-◌, ◌*◌, ◌/◌, ◌≡◌, ◌<◌, ◌≤◌, ◌⊎◌, refl, ap, ◌∙◌, true, false, inl, inr, none,
  some, List, ◌∷◌, arith, Bool-cases, length, take, ltb, if◌then◌else◌, ltb→lt, ltb-false→le, ok,
}
use activity_events_api.Go.Clock.{Time, Duration, after}
use activity_events_api.Models.Aggregation.{bucket_start_of, buckets_between}
use activity_events_api.Models.Aggregation.Windows.{
  windows_from, bucket_start_of-eq, bucket_start_of-multiple, bucket_start_of_bounds,
  buckets_between-windows,
}
use activity_events_api.Service.Aggregation.{
  AggregationDeps, windows_after, pending_buckets, report_with,
}

pub length-windows_from :
    (first : Time) (size : Duration) (n : ℕ) → length (windows_from first size n) ≡ n
length-windows_from first size zero = refl
length-windows_from first size (suc n) = ap suc (length-windows_from (first + size) size n)

take-windows_from :
    (m n : ℕ) (first : Time) (size : Duration)
    → m ≤ n
    → take m (windows_from first size n) ≡ windows_from first size m
take-windows_from zero n first size h = refl
take-windows_from (suc m) zero first size h = absurd (omega arith)
take-windows_from (suc m) (suc n) first size h =
    ap (λ l. first ∷ l) (take-windows_from m n (first + size) size (omega arith))

-- What is pending when the windows from `from` on are not aggregated: the next `amount` ones, which all
-- have closed; if they are fewer than the limit, none that has closed is left out.
pub record Pending (from now : Time) (bucket : Duration) (backfill : ℕ) (windows : List Time)
    : Type 0 where
  pub amount : ℕ
  pub in_a_row : windows ≡ windows_from from bucket amount
  pub limited : amount ≤ backfill
  pub closed : (amount ≡ 0) ⊎ (from + amount * bucket ≤ now)
  pub complete : (amount ≡ backfill) ⊎ (now < from + (amount + 1) * bucket)

mul_mono : (a b n : ℕ) → a ≤ b → a * n ≤ b * n
mul_mono a b n h = grind arith

mul_cancel : (a b n : ℕ) → a * n < b * n → a < b
mul_cancel a b n h = elim (Bool-cases (ltb a b)) [
  | inl lt ↦ ltb→lt a b lt
  | inr ge ↦ absurd (omega (arith, mul_mono b a n (ltb-false→le a b ge)))
]

-- The windows between two window starts.
between :
    (k m b : ℕ)
    → 0 < b
    → k ≤ m
    → buckets_between (k * b) (m * b) b ≡ windows_from (k * b) b (m - k + 1)
between k m b p h =
    buckets_between-windows (k * b) (m * b) b p (mul_mono k m b h)
    ∙ rw (bucket_start_of-multiple k b, mul-div_cancel k p, mul-div_cancel m p)

capped :
    (k n b backfill : ℕ)
    → (if ltb backfill (length (windows_from (k * b) b n))
        then take backfill (windows_from (k * b) b n)
        else windows_from (k * b) b n)
      ≡ windows_from (k * b) b (min backfill n)
capped k n b backfill =
    rw (length-windows_from (k * b) b n) (capped_at (Bool-cases (ltb backfill n)))
  where
    capped_at :
        (ltb backfill n ≡ true) ⊎ (ltb backfill n ≡ false)
        → (if ltb backfill n
            then take backfill (windows_from (k * b) b n)
            else windows_from (k * b) b n)
          ≡ windows_from (k * b) b (min backfill n)
    capped_at (inl h) =
        let least : min backfill n ≡ backfill = omega (arith, ltb→lt backfill n h) in
        rw (h, least) (take-windows_from backfill n (k * b) b (omega (arith, ltb→lt backfill n h)))
    capped_at (inr h) =
        let least : min backfill n ≡ n = omega (arith, ltb-false→le backfill n h) in rw (h, least)

-- `from` is the start of a window, here as a multiple of the size, and time is past the first window.
module _ (k now bucket backfill : ℕ) (pos : 0 < bucket) (late : bucket ≤ now) where
  started : (now / bucket * bucket ≤ now) × (now < now / bucket * bucket + bucket)
  started =
      let b = bucket_start_of_bounds now bucket pos in
      (rw bucket_start_of-eq at b.0, rw bucket_start_of-eq at b.1)

  -- The newest closed window is the `newest`-th.
  newest : ℕ
  newest = now / bucket - 1

  this_window_pos : 0 < now / bucket
  this_window_pos = elim (Bool-cases (ltb 0 (now / bucket))) [
    | inl h ↦ ltb→lt 0 (now / bucket) h
    | inr h ↦ absurd (
        omega
          (arith, mul_mono (now / bucket) 0 bucket (ltb-false→le 0 (now / bucket) h), started.1))
  ]

  newest_next : now / bucket ≡ newest + 1
  unfolding newest
  newest_next = omega (arith, this_window_pos)

  newest_start : now / bucket * bucket ≡ newest * bucket + bucket
  newest_start = omega (arith, ap (λ (q : ℕ). q * bucket) newest_next)

  newest-eq : bucket_start_of now bucket - bucket ≡ newest * bucket
  newest-eq = rw (bucket_start_of-eq now bucket) (omega (arith, newest_start))

  k_le : (k * bucket ≤ newest * bucket) → k ≤ newest
  k_le h = let lt = mul_cancel k (newest + 1) bucket (omega arith) in omega arith

  cut_short :
      (amount : ℕ)
      → amount < backfill
      → amount ≡ min backfill (newest - k + 1)
      → now < k * bucket + (amount + 1) * bucket
  cut_short amount short e = omega (
    arith,
    mul_mono (newest + 1 + 1) (k + (amount + 1)) bucket (omega arith),
    newest_start,
    started.1,
  )

  some-Pending :
      (amount : ℕ)
      → amount ≡ min backfill (newest - k + 1)
      → k ≤ newest
      → Pending (k * bucket) now bucket backfill (windows_from (k * bucket) bucket amount)
  some-Pending amount e h = record {
    amount = amount;
    in_a_row = refl;
    limited = omega arith;
    closed = inr (
        omega (
          arith,
          mul_mono (k + amount) (newest + 1) bucket (omega arith),
          newest_start,
          started.0,
        ));
    complete = elim (Bool-cases (ltb amount backfill)) [
      | inl short ↦ inr (cut_short amount (ltb→lt amount backfill short) e)
      | inr full ↦ inl (let le = ltb-false→le amount backfill full in omega arith)
    ];
  }

  none_pending : newest * bucket < k * bucket → now < k * bucket + 1 * bucket
  none_pending h =
      let lt = mul_cancel newest k bucket h in
      omega (arith, mul_mono (newest + 1) k bucket (omega arith), newest_start, started.1)

  windows_after-Pending :
      Pending
        (k * bucket)
        now
        bucket
        backfill
        (windows_after (k * bucket) (bucket_start_of now bucket - bucket) bucket backfill)
  unfolding windows_after
  windows_after-Pending = rw newest-eq (elim (Bool-cases (after (k * bucket) (newest * bucket))) [
    | inl none_closed ↦ rw none_closed (record {
      amount = 0;
      in_a_row = refl;
      limited = omega arith;
      closed = inl refl;
      complete = inr (none_pending (ltb→lt (newest * bucket) (k * bucket) none_closed));
    })
    | inr some_closed ↦
        let h = k_le (ltb-false→le (newest * bucket) (k * bucket) some_closed) in
        rw (some_closed, between k newest bucket pos h, capped k (newest - k + 1) bucket backfill)
          (some-Pending (min backfill (newest - k + 1)) refl h)
  ])

module _ {W : Type 0} (d : AggregationDeps W) (w : W) where
  -- The clock is past the first window of all, the window size is positive, and the last success was of a
  -- window. Then the pending windows are those after it, in a row, as many as have closed and the
  -- limit allows.
  pub pending_buckets-after :
      (last k : ℕ) (w' : W)
      → 0 < d.bucket
      → d.bucket ≤ (d.now w).0
      → d.last_succeeded_bucket (d.now w).1 ≡ (ok (some last), w')
      → last ≡ k * d.bucket
      → (windows : List Time) × ((pending_buckets d w).0 ≡ ok windows)
        × Pending (last + d.bucket) (d.now w).0 d.bucket d.backfill windows
  unfolding pending_buckets
  pending_buckets-after last k w' pos late h e =
      let next : last + d.bucket ≡ (k + 1) * d.bucket = omega arith in
      let p = windows_after-Pending (k + 1) (d.now w).0 d.bucket d.backfill pos late in
      (
        windows_after (last + d.bucket) (bucket_start_of (d.now w).0 d.bucket - d.bucket) d.bucket
            d.backfill,
        rw h,
        rw next p,
      )

  -- The clock is past the first window of all, the window size is positive, and no run has succeeded. Then
  -- the pending windows begin with that of the earliest event and follow in a row, as many as have closed
  -- and the limit allows.
  pub pending_buckets-first :
      (earliest : Time) (w' w'' : W)
      → 0 < d.bucket
      → d.bucket ≤ (d.now w).0
      → d.last_succeeded_bucket (d.now w).1 ≡ (ok none, w')
      → d.earliest_event (report_with d.lag 0 w') ≡ (ok (some earliest), w'')
      → (windows : List Time) × ((pending_buckets d w).0 ≡ ok windows)
        × Pending (bucket_start_of earliest d.bucket) (d.now w).0 d.bucket d.backfill windows
  unfolding pending_buckets
  pending_buckets-first earliest w' w'' pos late h e =
      let p =
        windows_after-Pending (earliest / d.bucket) (d.now w).0 d.bucket d.backfill pos late in
      (
        windows_after (bucket_start_of earliest d.bucket)
            (bucket_start_of (d.now w).0 d.bucket - d.bucket) d.bucket d.backfill,
        rw (h, e),
        rw bucket_start_of-eq p,
      )
