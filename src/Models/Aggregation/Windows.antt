-- ===== src/Models/Aggregation/Windows.antt =====
-- The windows: where an instant's window starts, and which windows lie between two instants.
use native.Mathlib.Nat.{mod-le, mod-lt, div-add-mod', mul-mod_left, mul-div_cancel}
use native.Mathlib.Numerals.{add-one}
use activity_events_api.Prelude.{
  ℕ, zero, suc, ◌+◌, ◌-◌, ◌*◌, ◌/◌, ◌≤◌, ◌<◌, ◌≡◌, refl, ap, List, [], ◌∷◌, arith,
}
use activity_events_api.Go.Clock.{Time, Duration}
use activity_events_api.Models.Aggregation.{bucket_start_of, buckets_loop, buckets_between}

-- The start as a multiple of the size.
pub bucket_start_of-eq : (t : Time) (size : Duration) → bucket_start_of t size ≡ t / size * size
unfolding bucket_start_of
bucket_start_of-eq t size = omega (arith, div-add-mod' t size)

pub bucket_start_of-multiple :
    (k : ℕ) (size : Duration) → bucket_start_of (k * size) size ≡ k * size
unfolding bucket_start_of
bucket_start_of-multiple k size = rw (mul-mod_left k size) (omega arith)

pub bucket_start_of_idem :
    (t : Time) (size : Duration)
    → bucket_start_of (bucket_start_of t size) size ≡ bucket_start_of t size
bucket_start_of_idem t size =
    rw (bucket_start_of-eq t size) (bucket_start_of-multiple (t / size) size)

-- For a positive size an instant lies in the window that starts at its bucket start, and that start
-- is the start of its own window.
pub bucket_start_of_bounds :
    (t : Time) (size : Duration)
    → 0 < size
    → (bucket_start_of t size ≤ t)
      × (t < bucket_start_of t size + size)
      × (bucket_start_of (bucket_start_of t size) size ≡ bucket_start_of t size)
bucket_start_of_bounds t size h = (
  unfold bucket_start_of in omega arith,
  unfold bucket_start_of in omega (arith, mod-lt t h, mod-le t size),
  bucket_start_of_idem t size,
)

-- `n` windows in a row.
abbrev pub windows_from : Time → Duration → ℕ → List Time
windows_from first size zero = []
windows_from first size (suc n) = first ∷ windows_from (first + size) size n

buckets_loop_past : (fuel b to size : ℕ) → to < b → buckets_loop fuel b to size ≡ []
unfolding buckets_loop
buckets_loop_past zero b to size h = refl
buckets_loop_past (suc fuel) b to size h = ground arith

-- With fuel for `k + 1` rounds the loop makes the `k + 1` windows up to the last.
buckets_loop-windows :
    (k fuel first to size : ℕ)
    → 0 < size
    → k < fuel
    → to ≡ first + k * size
    → buckets_loop fuel first to size ≡ windows_from first size (suc k)
unfolding buckets_loop
buckets_loop-windows k zero first to size h f e = elim f [ ]
buckets_loop-windows zero (suc fuel) first to size h f e =
    ground (arith, buckets_loop_past fuel (first + size) to size)
buckets_loop-windows (suc k) (suc fuel) first to size h f e =
    let later : to ≡ first + size + k * size = omega arith in
    ground (arith, buckets_loop-windows k fuel (first + size) to size h (omega arith) later)

div_mono : (a b n : ℕ) → 0 < n → a ≤ b → a / n ≤ b / n
div_mono a b n p h = grind arith

cancel : (a k n : ℕ) → 0 < n → (a + k * n - a) / n ≡ k
cancel a k n p = let e : a + k * n - a ≡ k * n = omega arith in rw e (mul-div_cancel k p)

-- For a positive size and two instants in order, the windows between are the one of the first instant,
-- the one of the second, and every one in between, each once and in order.
pub buckets_between-windows :
    (from to : Time) (size : Duration)
    → 0 < size
    → from ≤ to
    → buckets_between from to size
      ≡ windows_from (bucket_start_of from size) size (to / size - from / size + 1)
unfolding buckets_between
buckets_between-windows from to size h le =
    let k = to / size - from / size in
    let apart : to / size ≡ from / size + k = omega (arith, div_mono from to size h le) in
    let last : bucket_start_of to size ≡ bucket_start_of from size + k * size =
      rw (bucket_start_of-eq to size, bucket_start_of-eq from size)
        (omega (arith, ap (λ (q : ℕ). q * size) apart)) in
    let rounds : (bucket_start_of to size - bucket_start_of from size) / size ≡ k =
      rw last (cancel (bucket_start_of from size) k size h) in
    rw (rounds, add-one)
      (buckets_loop-windows k (k + 2) (bucket_start_of from size) (bucket_start_of to size) size h
        (omega arith) last)

-- If the second instant's window lies before the first's, there is none.
pub buckets_between-none :
    (from to : Time) (size : Duration)
    → bucket_start_of to size < bucket_start_of from size
    → buckets_between from to size ≡ []
unfolding buckets_between
buckets_between-none from to size h = buckets_loop_past _ _ _ _ h
