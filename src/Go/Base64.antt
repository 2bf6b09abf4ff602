-- ===== src/Go/Base64.antt =====
-- `base64.RawURLEncoding`: six bits to a character of the URL alphabet, no padding. The decoder skips
-- line breaks and does not check the bits left over behind the last byte, as Go's does.
use activity_events_api.Prelude.{
  ℕ, ◌+◌, ◌-◌, ◌*◌, ◌/◌, ◌%◌, ◌<◌, ◌≡◌, refl, Bool, ◌&&◌, ◌||◌, Option, none, some, [], ◌∷◌, arith,
  false, ltb, leb, ◌==◌, if◌then◌else◌, All, filterb, not,
}
use activity_events_api.Go.Text.{Bytes}

encode_sextet : ℕ → ℕ
encode_sextet n =
    if ltb n 26
    then b'A' + n
    else if ltb n 52
    then b'a' + (n - 26)
    else if ltb n 62
    then b'0' + (n - 52)
    else if n == 62
    then b'-'
    else b'_'

decode_sextet : ℕ → Option ℕ
decode_sextet c =
    if leb b'A' c && leb c b'Z'
    then some (c - b'A')
    else if leb b'a' c && leb c b'z'
    then some (c - b'a' + 26)
    else if leb b'0' c && leb c b'9'
    then some (c - b'0' + 52)
    else if c == b'-'
    then some 62
    else if c == b'_'
    then some 63
    else none

unfoldable pub encode_to_string : Bytes → Bytes
unfolding encode_sextet
encode_to_string [] = []
encode_to_string (a ∷ []) = encode_sextet (a / 4) ∷ encode_sextet (a % 4 * 16) ∷ []
encode_to_string (a ∷ b ∷ []) =
    encode_sextet (a / 4) ∷ encode_sextet (a % 4 * 16 + b / 16) ∷ encode_sextet (b % 16 * 4) ∷ []
encode_to_string (a ∷ b ∷ c ∷ s) =
    encode_sextet (a / 4)
    ∷ encode_sextet (a % 4 * 16 + b / 16)
    ∷ encode_sextet (b % 16 * 4 + c / 64)
    ∷ encode_sextet (c % 64)
    ∷ encode_to_string s

two : Option ℕ → Option ℕ → Option Bytes
two (some w) (some x) = some ((w * 4 + x / 16) ∷ [])
two _ _ = none

three : Option ℕ → Option ℕ → Option ℕ → Option Bytes
three (some w) (some x) (some y) = some ((w * 4 + x / 16) ∷ (x % 16 * 16 + y / 4) ∷ [])
three _ _ _ = none

four : Option ℕ → Option ℕ → Option ℕ → Option ℕ → Option Bytes → Option Bytes
four (some w) (some x) (some y) (some z) (some s) =
    some ((w * 4 + x / 16) ∷ (x % 16 * 16 + y / 4) ∷ (y % 4 * 64 + z) ∷ s)
four _ _ _ _ _ = none

decode_quanta : Bytes → Option Bytes
unfolding decode_sextet two three four
decode_quanta [] = some []
decode_quanta (a ∷ []) = none
decode_quanta (a ∷ b ∷ []) = two (decode_sextet a) (decode_sextet b)
decode_quanta (a ∷ b ∷ c ∷ []) = three (decode_sextet a) (decode_sextet b) (decode_sextet c)
decode_quanta (a ∷ b ∷ c ∷ d ∷ s) =
    four (decode_sextet a) (decode_sextet b) (decode_sextet c) (decode_sextet d) (decode_quanta s)

is_line_break : ℕ → Bool
is_line_break c = c == 10 || c == 13

unfoldable pub decode_string : Bytes → Option Bytes
unfolding decode_quanta is_line_break
decode_string s = decode_quanta (filterb (λ c. not (is_line_break c)) s)

decode_sextet-encode_sextet : (n : ℕ) → n < 64 → decode_sextet (encode_sextet n) ≡ some n
unfolding decode_sextet encode_sextet
decode_sextet-encode_sextet n h = ground arith

is_line_break-encode_sextet : (n : ℕ) → n < 64 → is_line_break (encode_sextet n) ≡ false
unfolding is_line_break encode_sextet
is_line_break-encode_sextet n h = ground arith

abbrev pub IsByte : ℕ → Type 0
IsByte b = b < 256

strip : Bytes → Bytes
strip s = filterb (λ c. not (is_line_break c)) s

strip-encode : (s : Bytes) → All IsByte s → strip (encode_to_string s) ≡ encode_to_string s
unfolding strip encode_to_string
strip-encode [] h = refl
strip-encode (a ∷ []) h = rw (
  is_line_break-encode_sextet (a / 4) (omega arith),
  is_line_break-encode_sextet (a % 4 * 16) (omega arith),
)
strip-encode (a ∷ b ∷ []) h = rw (
  is_line_break-encode_sextet (a / 4) (omega arith),
  is_line_break-encode_sextet (a % 4 * 16 + b / 16) (omega arith),
  is_line_break-encode_sextet (b % 16 * 4) (omega arith),
)
strip-encode (a ∷ b ∷ c ∷ s) h = rw (
  is_line_break-encode_sextet (a / 4) (omega arith),
  is_line_break-encode_sextet (a % 4 * 16 + b / 16) (omega arith),
  is_line_break-encode_sextet (b % 16 * 4 + c / 64) (omega arith),
  is_line_break-encode_sextet (c % 64) (omega arith),
  strip-encode s h.1.1.1,
)

decode_quanta-encode : (s : Bytes) → All IsByte s → decode_quanta (encode_to_string s) ≡ some s
unfolding decode_quanta encode_to_string
decode_quanta-encode [] h = refl
decode_quanta-encode (a ∷ []) h =
    rw
      (
        decode_sextet-encode_sextet (a / 4) (omega arith),
        decode_sextet-encode_sextet (a % 4 * 16) (omega arith),
      )
      (ground arith)
decode_quanta-encode (a ∷ b ∷ []) h =
    rw
      (
        decode_sextet-encode_sextet (a / 4) (omega arith),
        decode_sextet-encode_sextet (a % 4 * 16 + b / 16) (omega arith),
        decode_sextet-encode_sextet (b % 16 * 4) (omega arith),
      )
      (ground arith)
decode_quanta-encode (a ∷ b ∷ c ∷ s) h =
    rw
      (
        decode_sextet-encode_sextet (a / 4) (omega arith),
        decode_sextet-encode_sextet (a % 4 * 16 + b / 16) (omega arith),
        decode_sextet-encode_sextet (b % 16 * 4 + c / 64) (omega arith),
        decode_sextet-encode_sextet (c % 64) (omega arith),
        decode_quanta-encode s h.1.1.1,
      )
      (ground arith)

-- Decoding what was encoded gives the bytes back.
pub decode-encode : (s : Bytes) → All IsByte s → decode_string (encode_to_string s) ≡ some s
unfolding decode_string strip
decode-encode s h = rw (strip-encode s h) (decode_quanta-encode s h)
