-- ===== src/Go/Clock.antt =====
-- `time.Time` in UTC as the nanoseconds since Go's zero time (1 January of year 1), and `time.Duration`
-- as nanoseconds. Instants before the zero time are not modelled: a subtraction that would pass it stops
-- there. `Truncate` counts from the zero time too, so it is a remainder.
use activity_events_api.Prelude.{
  ℕ, ◌+◌, ◌-◌, ◌*◌, ◌%◌, ◌^◌, ◌<◌, ◌≤◌, ◌≡◌, Bool, arith, ltb, ◌==◌, Bool-cases, inl, inr, ltb→lt,
  ltb-false→le, if◌then◌else◌,
}
use activity_events_api.Prelude.Int.{ℤ, pos, negsuc, IsInt64}

abbrev pub Time : Type 0
Time = ℕ

abbrev pub Duration : Type 0
Duration = ℕ

abbrev pub second : Duration
second = 1_000_000_000

abbrev pub minute : Duration
minute = 60 * second

abbrev pub hour : Duration
hour = 60 * minute

-- The zero time.
abbrev pub is_zero : Time → Bool
is_zero t = t == 0

abbrev pub before : Time → Time → Bool
before t u = ltb t u

abbrev pub after : Time → Time → Bool
after t u = ltb u t

-- `t.Truncate(d)`
abbrev pub truncate : Time → Duration → Time
truncate t d = t - t % d

-- 1 January 1970.
abbrev pub unix_epoch : Time
unix_epoch = 62_135_596_800 * second

-- `t.UnixNano()`, which wraps around outside of int64.
unfoldable pub unix_nano : Time → ℤ
unix_nano t =
    let bits = (t + 4 * 2 ^ 64 - unix_epoch) % 2 ^ 64 in
    if ltb bits (2 ^ 63) then pos bits else negsuc (2 ^ 64 - 1 - bits)

-- `time.Unix(0, n)`
unfoldable pub unix : ℤ → Time
unix (pos n) = unix_epoch + n
unix (negsuc n) = unix_epoch - (n + 1)

-- The instants whose nanoseconds since 1970 fit int64: the years 1678 to 2261, and parts of the next.
pub record InUnixRange (t : Time) : Type 0 where
  pub from : unix_epoch ≤ t + 2 ^ 63
  pub to : t < unix_epoch + 2 ^ 63

pub unix-unix_nano : (t : Time) → InUnixRange t → unix (unix_nano t) ≡ t
unfolding unix unix_nano
unix-unix_nano t h = ground arith

pub unix_nano-IsInt64 : (t : Time) → IsInt64 (unix_nano t)
unfolding unix_nano
unix_nano-IsInt64 t = elim (Bool-cases (ltb ((t + 4 * 2 ^ 64 - unix_epoch) % 2 ^ 64) (2 ^ 63))) [
  | inl h ↦ rw h (ltb→lt _ _ h)
  | inr h ↦ rw h (omega (arith, ltb-false→le _ _ h))
]

-- `timestamptz` holds microseconds; the driver drops what is below.
abbrev pub timestamptz : Time → Time
timestamptz t = t - t % 1000
