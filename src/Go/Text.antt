-- ===== src/Go/Text.antt =====
-- Go strings as lists of bytes, and the functions of package strings that the program calls.
-- `TrimSpace`, `ToLower` and `EqualFold` are those of ASCII text: bytes from 128 up stay as they are.
use Prim.Native.Char.{code}
use Prim.Native.String.{String}
use mathlib.Core.List.{reverse}
use activity_events_api.Prelude.{
  ℕ, ◌+◌, ◌≡◌, refl, ◌↔◌, Bool, true, false, ◌&&◌, ◌||◌, Option, none, some, List, [], ◌∷◌, ◌++◌,
  map, arith, leb, ◌==◌, if◌then◌else◌, any,
}

abbrev pub Bytes : Type 0
Bytes = List ℕ

-- A string literal of the source.
abbrev pub codes : String → Bytes
codes String.[] = []
codes (String.◌∷◌ c s) = code c ∷ codes s

unfoldable pub bytes_eq : Bytes → Bytes → Bool
bytes_eq [] [] = true
bytes_eq [] (b ∷ bs) = false
bytes_eq (a ∷ as') [] = false
bytes_eq (a ∷ as') (b ∷ bs) = (a == b) && bytes_eq as' bs

unfoldable pub is_space : ℕ → Bool
is_space c = c == b' ' || (leb 9 c && leb c 13)

unfoldable pub trim_left : Bytes → Bytes
unfolding is_space
trim_left [] = []
trim_left (c ∷ cs) = if is_space c then trim_left cs else c ∷ cs

unfoldable pub trim_space : Bytes → Bytes
unfolding trim_left
trim_space s = reverse (trim_left (reverse (trim_left s)))

lower : ℕ → ℕ
lower c = if leb b'A' c && leb c b'Z' then c + 32 else c

unfoldable pub to_lower : Bytes → Bytes
unfolding lower
to_lower s = map lower s

unfoldable pub has_prefix : Bytes → Bytes → Bool
has_prefix s [] = true
has_prefix [] (p ∷ ps) = false
has_prefix (c ∷ cs) (p ∷ ps) = (c == p) && has_prefix cs ps

behind : ℕ → Option (Bytes × Bytes) → Option (Bytes × Bytes)
behind c none = none
behind c (some (before, after)) = some (c ∷ before, after)

-- `strings.Cut` at one byte: what stands before and behind it, if it occurs.
unfoldable pub cut : ℕ → Bytes → Option (Bytes × Bytes)
unfolding behind
cut sep [] = none
cut sep (c ∷ cs) = if c == sep then some ([], cs) else behind c (cut sep cs)

-- `strings.Split(s, ",")`, of which the head is the part that is being read.
push_part : ℕ → List Bytes → List Bytes
push_part c [] = (c ∷ []) ∷ []
push_part c (p ∷ ps) = (c ∷ p) ∷ ps

unfoldable pub split_commas : Bytes → List Bytes
unfolding push_part
split_commas [] = [] ∷ []
split_commas (c ∷ cs) =
    let rest = split_commas cs in if c == b',' then [] ∷ rest else push_part c rest

pub bytes_eq_iff : (s t : Bytes) → (bytes_eq s t ≡ true) ↔ (s ≡ t)
unfolding bytes_eq
bytes_eq_iff [] [] = ((λ _. refl), (λ _. refl))
bytes_eq_iff [] (b ∷ bs) = ((λ h. cc), (λ h. cc))
bytes_eq_iff (a ∷ as') [] = ((λ h. cc), (λ h. cc))
bytes_eq_iff (a ∷ as') (b ∷ bs) = ground (arith, bytes_eq_iff as' bs)

pub bytes_eq_refl : (s : Bytes) → bytes_eq s s ≡ true
bytes_eq_refl s = (bytes_eq_iff s s).1 refl

-- A separator that the first part does not hold is found behind that part.
pub cut-append :
    (sep : ℕ) (s t : Bytes) → any (λ c. c == sep) s ≡ false → cut sep (s ++ sep ∷ t) ≡ some (s, t)
unfolding cut
cut-append sep [] t h = ground arith
cut-append sep (c ∷ cs) t h = ground (arith, cut-append sep cs t)

trim_example : trim_space (codes "  a b\t\n") ≡ codes "a b"
unfolding trim_space
trim_example = refl
