-- ===== src/Auth/Keys/Spaced.antt =====
-- How often internal/auth/google.go asks for the keys, and how long it keeps them.
use activity_events_api.Prelude.{
  suc, ◌+◌, ◌*◌, ◌≤◌, inl, inr, Bool-cases, Option, none, some, List, [], ◌∷◌, arith, ltb-false→le,
  length, ◌==◌,
}
use activity_events_api.Prelude.Int.{ℤ, pos, negsuc}
use activity_events_api.Go.Text.{Bytes, codes, trim_space, split_commas}
use activity_events_api.Go.Decimal.{parse_int}
use activity_events_api.Go.Clock.{Time, Duration, minute, hour, before, second}
use activity_events_api.Auth.Keys.{
  jwks_ttl, ttl_of_parts, first_max_age, ttl_of, clamp, wrapped_int64, cut_prefix, jwks_min_ttl,
  jwks_max_ttl, Verifier, new_verifier, Readings, Fetch, document, refresh_keys, store, store_keys,
  collect, PublicKey, key_for_token, cached_key,
}

InBounds : Duration → Type 0
InBounds d = (jwks_min_ttl ≤ d) × (d ≤ jwks_max_ttl)

clamp-InBounds : (i : ℤ) → InBounds (clamp i)
unfolding clamp InBounds
clamp-InBounds (pos n) = ground arith
clamp-InBounds (negsuc n) = (omega arith, omega arith)

ttl_of-InBounds : (i : Option ℤ) → InBounds (ttl_of i)
unfolding ttl_of InBounds
ttl_of-InBounds (some (pos (suc n))) =
    unfold InBounds in clamp-InBounds (wrapped_int64 (suc n * second))
ttl_of-InBounds i = (omega arith, omega arith)

first_max_age-InBounds :
    (o : Option Bytes) (rest : Duration) → InBounds rest → InBounds (first_max_age o rest)
unfolding first_max_age
first_max_age-InBounds none rest h = h
first_max_age-InBounds (some value) rest h = ttl_of-InBounds (parse_int (trim_space value))

ttl_of_parts-InBounds : (ps : List Bytes) → InBounds (ttl_of_parts ps)
unfolding ttl_of_parts
ttl_of_parts-InBounds [] = unfold InBounds in (omega arith, omega arith)
ttl_of_parts-InBounds (p ∷ ps) =
    first_max_age-InBounds (cut_prefix (trim_space p) (codes "max-age=")) (ttl_of_parts ps)
      (ttl_of_parts-InBounds ps)

-- Whatever the header Cache-Control says, keys are kept fresh for at least one minute and at most 24 hours,
-- also when the seconds of max-age overflow an int64 as nanoseconds.
pub jwks_ttl_bounds :
    (cache_control : Bytes)
    → (minute ≤ jwks_ttl cache_control) × (jwks_ttl cache_control ≤ 24 * hour)
unfolding jwks_ttl
jwks_ttl_bounds cache_control =
    unfold InBounds in ttl_of_parts-InBounds (split_commas cache_control)

-- Each request was sent at least a minute after the one before; the newest is first.
abbrev pub Spaced : List Time → Type 0
Spaced [] = Unit {0}
Spaced (t ∷ []) = Unit {0}
Spaced (t ∷ u ∷ ts) = (u + minute ≤ t) × Spaced (u ∷ ts)

abbrev Ended : List Time → Time → Type 0
Ended [] next = Unit {0}
Ended (t ∷ ts) next = t + minute ≤ next

-- The states that calls lead to, whatever they were answered. The clock does not go back within a call.
pub data Reachable (padded : Bytes → Option Bytes) : Verifier → Type 0 where
  started : Reachable padded new_verifier
  refreshed :
      (v : Verifier) (r : Readings) (fetch : Fetch)
      → r.checked ≤ r.scheduled
      → Reachable padded v
      → Reachable padded (refresh_keys padded r fetch v).1

record IsPaced (v : Verifier) : Type 0 where
  spaced : Spaced v.requests
  ended : Ended v.requests v.next_fetch

Spaced-cons :
    (t next : Time) (ts : List Time) → Ended ts next → next ≤ t → Spaced ts → Spaced (t ∷ ts)
Spaced-cons t next [] e h s = tt
Spaced-cons t next (u ∷ ts) e h s = (omega arith, s)

module _ (padded : Bytes → Option Bytes) where
  store-IsPaced :
      (fetch : Fetch) (now : Time) (v : Verifier) → IsPaced v → IsPaced (store padded fetch now v).1
  unfolding store
  store-IsPaced (document ks control) now v h =
      stored (collect padded ks []) (now + jwks_ttl control)
    where
      stored :
          (keys : List (Bytes × PublicKey)) (till : Time)
          → IsPaced (store_keys padded keys till v).1
      stored [] till = h
      stored (k ∷ ks) till = record { spaced = h.spaced; ended = h.ended }
  store-IsPaced fetch now v h = h

  refresh_keys-IsPaced :
      (r : Readings) (fetch : Fetch) (v : Verifier)
      → r.checked ≤ r.scheduled
      → IsPaced v
      → IsPaced (refresh_keys padded r fetch v).1
  unfolding refresh_keys
  refresh_keys-IsPaced r fetch v forward h = elim (Bool-cases (before r.checked v.next_fetch)) [
    | inl early ↦ rw early h
    | inr due ↦
        let past = ltb-false→le r.checked v.next_fetch due in
        rw due (
          store-IsPaced fetch r.stored _ (record {
            spaced = Spaced-cons r.scheduled v.next_fetch v.requests h.ended (omega arith) h.spaced;
            ended = omega arith;
          }))
  ]

  Reachable-IsPaced : (v : Verifier) → Reachable padded v → IsPaced v
  unfolding new_verifier
  Reachable-IsPaced v started = record { spaced = tt; ended = tt }
  Reachable-IsPaced v (refreshed u r fetch forward reached) =
      refresh_keys-IsPaced r fetch u forward (Reachable-IsPaced u reached)

  -- In every state that calls lead to, the requests for the keys were each sent at least a minute after the
  -- one before, whatever key ids the tokens named and however the requests ended.
  pub Reachable-Spaced : (v : Verifier) → Reachable padded v → Spaced v.requests
  Reachable-Spaced v reached = (Reachable-IsPaced v reached).spaced

  -- A call for a token's key is such a step, or none.
  pub key_for_token-Reachable :
      (kid : Bytes) (first : Time) (r : Readings) (fetch : Fetch) (last : Time) (v : Verifier)
      → r.checked ≤ r.scheduled
      → Reachable padded v
      → Reachable padded (key_for_token padded kid first r fetch last v).1
  unfolding key_for_token
  key_for_token-Reachable kid first r fetch last v forward reached =
      elim (Bool-cases (length kid == 0)) [
        | inl missing ↦ rw missing reached
        | inr named ↦ elim (Bool-cases (cached_key kid first v).1) [
          | inl fresh ↦ rw (named, fresh) reached
          | inr stale ↦ rw (named, stale) (refreshed v r fetch forward reached)
        ]
      ]
