-- ===== src/Auth/Keys.antt =====
-- internal/auth/google.go: the cache of Google's public keys. A call reads the clock several times; the
-- readings are arguments. The two mutexes make `cached_key` and `refresh_keys` single steps.
pub mod Spaced
use activity_events_api.Prelude.{
  ℕ, zero, suc, ◌+◌, ◌-◌, ◌*◌, ◌%◌, ◌^◌, ◌≤◌, ◌<◌, ◌≡◌, Bool, true, false, not, ◌&&◌, ◌||◌, Option,
  none, some, List, [], ◌∷◌, length, ltb, ◌==◌, if◌then◌else◌, arith,
}
use mathlib.Core.List.{foldl}
use activity_events_api.Prelude.Int.{ℤ, pos, negsuc}
use activity_events_api.Go.Text.{Bytes, codes, bytes_eq, trim_space, split_commas}
use activity_events_api.Go.Decimal.{parse_int}
use activity_events_api.Go.Base64.{decode_string}
use activity_events_api.Go.Clock.{Time, Duration, second, minute, hour, before}

abbrev pub jwks_min_ttl : Duration
jwks_min_ttl = minute

abbrev pub jwks_max_ttl : Duration
jwks_max_ttl = 24 * hour

abbrev pub jwks_fallback_ttl : Duration
jwks_fallback_ttl = hour

abbrev pub jwks_min_refetch : Duration
jwks_min_refetch = minute

-- The lowest 64 bits, read as an int64.
unfoldable pub wrapped_int64 : ℕ → ℤ
wrapped_int64 n =
    let bits = n % 2 ^ 64 in if ltb bits (2 ^ 63) then pos bits else negsuc (2 ^ 64 - 1 - bits)

-- `min(max(d, jwksMinTTL), jwksMaxTTL)`
unfoldable pub clamp : ℤ → Duration
clamp (pos n) =
    if ltb n jwks_min_ttl then jwks_min_ttl else if ltb jwks_max_ttl n then jwks_max_ttl else n
clamp (negsuc n) = jwks_min_ttl

ttl_of : Option ℤ → Duration
unfolding clamp wrapped_int64
ttl_of (some (pos (suc n))) = clamp (wrapped_int64 (suc n * second))
ttl_of _ = jwks_fallback_ttl

-- `strings.CutPrefix`
unfoldable pub cut_prefix : Bytes → Bytes → Option Bytes
cut_prefix s [] = some s
cut_prefix [] (p ∷ ps) = none
cut_prefix (c ∷ cs) (p ∷ ps) = if c == p then cut_prefix cs ps else none

-- The first directive `max-age` decides, also when its value cannot be read.
first_max_age : Option Bytes → Duration → Duration
unfolding ttl_of parse_int trim_space
first_max_age none rest = rest
first_max_age (some value) rest = ttl_of (parse_int (trim_space value))

ttl_of_parts : List Bytes → Duration
unfolding first_max_age cut_prefix trim_space
ttl_of_parts [] = jwks_fallback_ttl
ttl_of_parts (p ∷ ps) =
    first_max_age (cut_prefix (trim_space p) (codes "max-age=")) (ttl_of_parts ps)

unfoldable pub jwks_ttl : Bytes → Duration
unfolding ttl_of_parts split_commas
jwks_ttl cache_control = ttl_of_parts (split_commas cache_control)

pub record PublicKey : Type 0 where
  pub n : ℕ
  pub e : ℤ

-- `big.Int.SetBytes`
unfoldable pub set_bytes : Bytes → ℕ
set_bytes bs = foldl (λ n b. n * 256 + b) 0 bs

public_key : Option Bytes → Option Bytes → Option PublicKey
unfolding set_bytes wrapped_int64
public_key (some n) (some e) =
    if (length n == 0) || (length e == 0) || ltb 8 (length e)
    then none
    else some (record { n = set_bytes n; e = wrapped_int64 (set_bytes e) })
public_key _ _ = none

pub record Jwk : Type 0 where
  pub kid : Bytes
  pub kty : Bytes
  pub alg : Bytes
  pub n : Bytes
  pub e : Bytes

-- What a request for the keys gives.
pub data Fetch : Type 0 where
  not_sent : Fetch
  -- no response, a status but 200, or a body that is no JSON
  no_document : Fetch
  document : List Jwk → Bytes → Fetch

-- The readings of the clock in `refreshKeys`, in their order.
pub record Readings : Type 0 where
  pub checked : Time
  pub scheduled : Time
  pub stored : Time

-- `requests` is the history of the times at which `nextFetch` was set, the newest first.
pub record Verifier : Type 0 where
  pub keys : List (Bytes × PublicKey)
  pub fresh_till : Time
  pub next_fetch : Time
  pub requests : List Time

unfoldable pub new_verifier : Verifier
new_verifier = record { keys = []; fresh_till = 0; next_fetch = 0; requests = [] }

unfoldable pub lookup_key : Bytes → List (Bytes × PublicKey) → Option PublicKey
unfolding bytes_eq
lookup_key kid [] = none
lookup_key kid ((k, key) ∷ rest) = if bytes_eq k kid then some key else lookup_key kid rest

-- The key, if there is one, and whether it is fresh.
unfoldable pub cached_key : Bytes → Time → Verifier → Option PublicKey × Bool
unfolding lookup_key
cached_key kid now v = elim (lookup_key kid v.keys) [
  | none ↦ (none, false)
  | some key ↦ (some key, before now v.fresh_till)
]

-- `padded` is `base64.URLEncoding`.
module _ (padded : Bytes → Option Bytes) where
  unfoldable pub decode_base64_url : Bytes → Option Bytes
  unfolding decode_string
  decode_base64_url s = elim (decode_string s) [ none ↦ padded s | some b ↦ some b ]

  unfoldable pub rsa_public_key : Bytes → Bytes → Option PublicKey
  unfolding public_key decode_base64_url
  rsa_public_key n e = public_key (decode_base64_url n) (decode_base64_url e)

  unfoldable pub usable : Jwk → Bool
  unfolding bytes_eq
  usable k =
      not (length k.kid == 0)
      && bytes_eq k.kty (codes "RSA")
      && ((length k.alg == 0) || bytes_eq k.alg (codes "RS256"))

  stored_key : Bool → Bytes → Option PublicKey → List (Bytes × PublicKey) → List (Bytes × PublicKey)
  stored_key true kid (some key) keys = (kid, key) ∷ keys
  stored_key true kid none keys = keys
  stored_key false kid key keys = keys

  -- A later key of the same id stands before an earlier one.
  unfoldable pub collect : List Jwk → List (Bytes × PublicKey) → List (Bytes × PublicKey)
  unfolding stored_key usable rsa_public_key
  collect [] keys = keys
  collect (k ∷ ks) keys = collect ks (stored_key (usable k) k.kid (rsa_public_key k.n k.e) keys)

  store_keys : List (Bytes × PublicKey) → Time → Verifier → Bool × Verifier
  store_keys [] till v = (false, v)
  store_keys (k ∷ ks) till v = (true, record v { keys = k ∷ ks; fresh_till = till })

  store : Fetch → Time → Verifier → Bool × Verifier
  unfolding store_keys collect jwks_ttl
  store (document ks cache_control) now v =
      store_keys (collect ks []) (now + jwks_ttl cache_control) v
  store fetch now v = (false, v)

  -- Whether the keys were refreshed.
  unfoldable pub refresh_keys : Readings → Fetch → Verifier → Bool × Verifier
  unfolding store
  refresh_keys r fetch v =
      if before r.checked v.next_fetch
      then (false, v)
      else store fetch r.stored (record v {
        next_fetch = r.scheduled + jwks_min_refetch;
        requests = r.scheduled ∷ v.requests;
      })

  after_refresh : Bool → Option PublicKey → Option PublicKey × Bool → Option PublicKey
  after_refresh done old (new, true) = new
  after_refresh true old (new, false) = none
  after_refresh false old (new, false) = old

  -- `kid` is the header of the token, the empty text if it has none.
  unfoldable pub key_for_token :
      Bytes → Time → Readings → Fetch → Time → Verifier → Option PublicKey × Verifier
  unfolding cached_key refresh_keys after_refresh
  key_for_token kid first r fetch last v =
      if length kid == 0
      then (none, v)
      else if (cached_key kid first v).1
      then ((cached_key kid first v).0, v)
      else (
        after_refresh (refresh_keys r fetch v).0 (cached_key kid first v).0
            (cached_key kid last (refresh_keys r fetch v).1),
        (refresh_keys r fetch v).1,
      )
