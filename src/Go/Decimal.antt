-- ===== src/Go/Decimal.antt =====
-- `strconv.FormatInt(n, 10)` and `strconv.ParseInt(s, 10, 64)`. Both errors of `ParseInt`, syntax and
-- range, are `none`. An int64 has at most 19 digits, so 20 rounds print every one.
use native.Mathlib.Nat.{pow-suc}
use native.Mathlib.Numerals.{add-one}
use activity_events_api.Prelude.{
  ℕ, zero, suc, ◌+◌, ◌-◌, ◌*◌, ◌/◌, ◌%◌, ◌^◌, ◌<◌, ◌≤◌, ◌≡◌, refl, false, ◌||◌, Option, none, some,
  [], ◌∷◌, arith, ltb, ◌==◌, All, ◌≢◌, if◌then◌else◌, any,
}
use activity_events_api.Prelude.Int.{ℤ, pos, negsuc, IsInt64}
use activity_events_api.Go.Text.{Bytes}

-- Writes the digits of `n` in front of `out`.
emit : ℕ → ℕ → Bytes → Bytes
emit zero n out = out
emit (suc f) n out =
    let more = emit f (n / 10) ((b'0' + n % 10) ∷ out) in if n == 0 then out else more

format_magnitude : ℕ → Bytes
unfolding emit
format_magnitude n = if n == 0 then b'0' ∷ [] else emit 20 n []

unfoldable pub format_int : ℤ → Bytes
unfolding format_magnitude
format_int (pos n) = format_magnitude n
format_int (negsuc n) = b'-' ∷ format_magnitude (n + 1)

scan : Bytes → ℕ → Option ℕ
scan [] n = some n
scan (c ∷ s) n =
    let rest = scan s (n * 10 + (c - b'0')) in if ltb c b'0' || ltb b'9' c then none else rest

magnitude : Bytes → Option ℕ
unfolding scan
magnitude [] = none
magnitude (c ∷ s) = scan (c ∷ s) 0

as_positive : Option ℕ → Option ℤ
as_positive none = none
as_positive (some n) = if ltb n (2 ^ 63) then some (pos n) else none

as_negative : Option ℕ → Option ℤ
as_negative none = none
as_negative (some zero) = some (pos 0)
as_negative (some (suc n)) = if ltb n (2 ^ 63) then some (negsuc n) else none

unfoldable pub parse_int : Bytes → Option ℤ
unfolding magnitude as_positive as_negative
parse_int [] = none
parse_int (c ∷ s) =
    if c == b'-'
    then as_negative (magnitude s)
    else if c == b'+'
    then as_positive (magnitude s)
    else as_positive (magnitude (c ∷ s))

scan_last : (n : ℕ) (out : Bytes) → scan ((b'0' + n % 10) ∷ out) (n / 10) ≡ scan out n
unfolding scan
scan_last n out = ground arith

scan-emit : (f n : ℕ) (out : Bytes) → n < 10 ^ f → scan (emit f n out) 0 ≡ scan out n
unfolding emit
scan-emit zero n out h = ground arith
scan-emit (suc f) n out h =
    let smaller : n / 10 < 10 ^ f = omega (arith, pow-suc 10 f) in
    ground (arith, scan-emit f (n / 10) ((b'0' + n % 10) ∷ out), scan_last n out)

abbrev IsDigit : ℕ → Type 0
IsDigit c = (b'0' ≤ c) × (c ≤ b'9')

emit-IsDigit : (f n : ℕ) (out : Bytes) → All IsDigit out → All IsDigit (emit f n out)
unfolding emit
emit-IsDigit zero n out h = h
emit-IsDigit (suc f) n out h =
    ground (arith, emit-IsDigit f (n / 10) ((b'0' + n % 10) ∷ out) (omega arith, h))

emit-ne-nil : (f n : ℕ) (out : Bytes) → out ≢ [] → emit f n out ≢ []
unfolding emit
emit-ne-nil zero n out h = h
emit-ne-nil (suc f) n out h =
    ground (arith, emit-ne-nil f (n / 10) ((b'0' + n % 10) ∷ out) (λ e. cc))

emit_pos : (f n : ℕ) → 0 < n → emit (suc f) n [] ≢ []
unfolding emit
emit_pos f n h = ground (arith, emit-ne-nil f (n / 10) ((b'0' + n % 10) ∷ []) (λ e. cc))

format_magnitude-IsDigit : (n : ℕ) → All IsDigit (format_magnitude n)
unfolding format_magnitude
format_magnitude-IsDigit n = ground (arith, emit-IsDigit 20 n [] tt)

format_magnitude-ne-nil : (n : ℕ) → format_magnitude n ≢ []
unfolding format_magnitude
format_magnitude-ne-nil n = ground (arith, emit_pos 19 n)

magnitude-scan : (s : Bytes) → s ≢ [] → magnitude s ≡ scan s 0
unfolding magnitude
magnitude-scan [] h = absurd (h refl)
magnitude-scan (c ∷ s) h = refl

magnitude-format : (n : ℕ) → n < 10 ^ 20 → magnitude (format_magnitude n) ≡ some n
unfolding format_magnitude
magnitude-format n h =
    rw (magnitude-scan _ (format_magnitude-ne-nil n))
      (unfold format_magnitude scan in ground (arith, scan-emit 20 n []))

parse_int_digits : (s : Bytes) → s ≢ [] → All IsDigit s → parse_int s ≡ as_positive (magnitude s)
unfolding parse_int
parse_int_digits [] h d = absurd (h refl)
parse_int_digits (c ∷ s) h d = ground arith

as_negative_add_one : (n : ℕ) → n < 2 ^ 63 → as_negative (some (n + 1)) ≡ some (negsuc n)
unfolding as_negative
as_negative_add_one n h = rw add-one (ground arith)

-- Every int64 is read back from its decimal print.
pub parse_int-format_int : (i : ℤ) → IsInt64 i → parse_int (format_int i) ≡ some i
unfolding format_int
parse_int-format_int (pos n) h =
    rw
      (
        parse_int_digits _ (format_magnitude-ne-nil n) (format_magnitude-IsDigit n),
        magnitude-format n (omega arith),
      )
      (unfold as_positive in ground arith)
parse_int-format_int (negsuc n) h =
    unfold parse_int in rw (magnitude-format (n + 1) (omega arith)) (as_negative_add_one n h)

-- A decimal print consists of digits and a minus sign, which stand below the colon.
abbrev pub IsBelowColon : ℕ → Type 0
IsBelowColon c = c < b':'

digits-IsBelowColon : (s : Bytes) → All IsDigit s → All IsBelowColon s
digits-IsBelowColon [] d = tt
digits-IsBelowColon (c ∷ s) d = (omega arith, digits-IsBelowColon s d.1)

pub format_int-IsBelowColon : (i : ℤ) → All IsBelowColon (format_int i)
unfolding format_int
format_int-IsBelowColon (pos n) = digits-IsBelowColon _ (format_magnitude-IsDigit n)
format_int-IsBelowColon (negsuc n) =
    (omega arith, digits-IsBelowColon _ (format_magnitude-IsDigit (n + 1)))

pub any-colon : (s : Bytes) → All IsBelowColon s → any (λ c. c == b':') s ≡ false
any-colon [] d = refl
any-colon (c ∷ s) d = ground (arith, any-colon s d.1)

pub IsBelowColon-IsByte : (s : Bytes) → All IsBelowColon s → All (λ c. c < 256) s
IsBelowColon-IsByte [] d = tt
IsBelowColon-IsByte (c ∷ s) d = (omega arith, IsBelowColon-IsByte s d.1)
