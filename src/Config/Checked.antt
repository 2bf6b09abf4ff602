-- ===== src/Config/Checked.antt =====
-- What settings that passed the checks of internal/config promise to the rest of the program.
use native.Mathlib.Nat.{mod-lt, div-add-mod'}
use activity_events_api.Prelude.{
  ℕ, zero, suc, ◌+◌, ◌-◌, ◌*◌, ◌/◌, ◌%◌, ◌≤◌, ◌<◌, ◌≡◌, refl, sym, ap, ◌∙◌, Bool, true, false, none,
  List, [], ◌∷◌, ◌++◌, All, arith, ◌==◌, if◌then◌else◌, ==_iff, Bool-cases, inl, inr,
}
use activity_events_api.Prelude.Int.{pos, leb_zero}
use activity_events_api.Go.Clock.{Time}
use activity_events_api.Models.Aggregation.{bucket_start_of}
use activity_events_api.Repository.Statistics.{day_of}
use activity_events_api.Config.{
  Config, Parsers, Problem, first_problem, base_checks, api_checks, runs_api, validate, day,
  leaves_rest,
}
use activity_events_api.Models.Aggregation.Windows.{bucket_start_of-eq}

-- No check of the list fails.
Passed : List (Bool × Problem) → Type 0
Passed cs = All (λ c. c.0 ≡ false) cs

first_problem-Passed : (cs : List (Bool × Problem)) → first_problem cs ≡ none → Passed cs
unfolding first_problem Passed
first_problem-Passed [] h = tt
first_problem-Passed ((true, p) ∷ cs) h = absurd (cc)
first_problem-Passed ((false, p) ∷ cs) h = (refl, first_problem-Passed cs h)

day_of-multiple : (m rest : ℕ) → rest < day → day_of (m * day + rest) ≡ m * day
unfolding day_of
day_of-multiple m rest h = omega arith

-- An instant of the `k`-th window when `q` windows make a day.
within_day :
    (k q size : ℕ) (u : Time)
    → 0 < q
    → day ≡ q * size
    → k * size ≤ u
    → u < k * size + size
    → day_of u ≡ k / q * day
within_day k q size u p e from to =
    let split : k * size ≡ k / q * day + k % q * size = rw e (expand k q size) in
    let room : k % q * size + size ≤ day = rw e (fits (k % q) q size (mod-lt k p)) in
    let at : u ≡ k / q * day + (u - k / q * day) = omega arith in
    ap day_of at ∙ day_of-multiple (k / q) (u - k / q * day) (omega arith)
  where
    expand : (k q size : ℕ) → k * size ≡ k / q * (q * size) + k % q * size
    expand k q size = let whole = div-add-mod' k q in grind arith

    fits : (r q size : ℕ) → r < q → r * size + size ≤ q * size
    fits r q size h = grind arith

factor_pos : (q n : ℕ) → day ≡ q * n → 0 < q
factor_pos zero n e = absurd (omega arith)
factor_pos (suc q) n e = omega arith

divides :
    (n : ℕ)
    → leb_zero (pos n) ≡ false
    → leaves_rest (pos n) ≡ false
    → (0 < n) × (0 < day / n) × (day ≡ day / n * n)
unfolding leaves_rest
divides zero h k = absurd (cc)
divides (suc n) h k = elim (Bool-cases (day % suc n == 0)) [
  | inl c ↦
      let whole = div-add-mod' day (suc n) in
      let none_left = (==_iff (day % suc n) 0).0 c in
      let e : day ≡ day / suc n * suc n = omega arith in
      (omega arith, factor_pos (day / suc n) (suc n) e, e)
  | inr c ↦ absurd (cc)
]

-- The checks that the bucket has passed.
checked_bucket :
    (p : Parsers) (c : Config)
    → validate p c ≡ none
    → (leb_zero c.aggregation.bucket ≡ false) × (leaves_rest c.aggregation.bucket ≡ false)
unfolding validate base_checks Passed
checked_bucket p c valid =
    let passed =
      first_problem-Passed (base_checks c ++ (if runs_api c.app.mode then api_checks p c else []))
        valid in
    (passed.1.1.1.1.0, passed.1.1.1.1.1.0)

in_window :
    (q size : ℕ) (t u : Time)
    → 0 < q
    → day ≡ q * size
    → 0 < size
    → bucket_start_of t size ≤ u
    → u < bucket_start_of t size + size
    → day_of u ≡ day_of (bucket_start_of t size)
in_window q size t u p e s from to = rw bucket_start_of-eq (
    within_day (t / size) q size u p e (rw bucket_start_of-eq at from) (rw bucket_start_of-eq at to)
    ∙ sym (within_day (t / size) q size (t / size * size) p e (omega arith) (omega arith)))

-- With settings that pass the checks, every window of the aggregation lies within one UTC day: an instant
-- of the window that holds `t` has the day of the window's start, by which the daily view sums it.
pub day_of-bucket_start_of :
    (p : Parsers) (c : Config) (size : ℕ) (t u : Time)
    → validate p c ≡ none
    → c.aggregation.bucket ≡ pos size
    → bucket_start_of t size ≤ u
    → u < bucket_start_of t size + size
    → day_of u ≡ day_of (bucket_start_of t size)
day_of-bucket_start_of p c size t u valid e from to =
    let checked = checked_bucket p c valid in
    let d = divides size (rw e at checked.0) (rw e at checked.1) in
    in_window (day / size) size t u d.1 d.2 d.0 from to
