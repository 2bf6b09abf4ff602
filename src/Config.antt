-- ===== src/Config.antt =====
-- internal/config/config.go. The environment is a function from names to texts (the empty text where a
-- variable is not set). `time.ParseDuration` and the parsers of package netip and url stand in `Parsers`.
-- A duration is an integer number of nanoseconds here, as settings may be negative.
pub mod Checked
pub mod Load
use Prim.Native.String.{String}
use mathlib.Core.List.{reverse}
use activity_events_api.Prelude.{
  ℕ, suc, ◌+◌, ◌*◌, ◌%◌, ◌^◌, ◌-◌, Bool, true, false, not, ◌&&◌, ◌||◌, Option, none, some, List, [],
  ◌∷◌, ◌++◌, all, length, ltb, leb, ◌==◌, if◌then◌else◌,
}
use activity_events_api.Prelude.Int.{ℤ, pos, negsuc, ltb_ℤ, leb_zero}
use activity_events_api.Go.Text.{Bytes, codes, bytes_eq, trim_space, to_lower, cut}
use activity_events_api.Go.Decimal.{parse_int}
use activity_events_api.Go.Clock.{hour, minute, second}

pub data Mode : Type 0 where
  api worker all_modes : Mode
  unknown : Bytes → Mode

unfoldable pub runs_api : Mode → Bool
runs_api api = true
runs_api all_modes = true
runs_api worker = false
runs_api (unknown m) = false

unfoldable pub runs_worker : Mode → Bool
runs_worker worker = true
runs_worker all_modes = true
runs_worker api = false
runs_worker (unknown m) = false

pub record AggregationConfig : Type 0 where
  pub bucket : ℤ
  pub tick : ℤ
  pub backfill : ℤ

pub record AppConfig : Type 0 where
  pub env : Bytes
  pub mode : Mode
  pub frontend_url : Bytes

unfoldable pub is_production : AppConfig → Bool
unfolding bytes_eq
is_production a = bytes_eq a.env (codes "production")

pub record HttpConfig : Type 0 where
  pub port : Bytes
  pub read_timeout : ℤ
  pub write_timeout : ℤ
  pub shutdown_timeout : ℤ
  pub max_body_bytes : ℤ
  pub trusted_proxies : List Bytes

unfoldable pub addr : HttpConfig → Bytes
addr h = b':' ∷ h.port

pub record LogConfig : Type 0 where
  pub level : Bytes
  pub format : Bytes

pub record DbConfig : Type 0 where
  pub url : Bytes
  pub max_conns : ℤ
  pub min_conns : ℤ
  pub migrations_dir : Bytes
  pub connect_retries : ℤ
  pub connect_backoff : ℤ

pub record AuthConfig : Type 0 where
  pub jwt_secret : Bytes
  pub min_secret_len : ℤ
  pub issuer : Bytes
  pub access_ttl : ℤ
  pub refresh_ttl : ℤ
  pub bcrypt_cost : ℤ

pub record GoogleConfig : Type 0 where
  pub client_id : Bytes
  pub client_secret : Bytes
  pub redirect_url : Bytes
  pub auth_url : Bytes
  pub token_url : Bytes
  pub jwks_url : Bytes

is_set : Bytes → Bool
is_set s = not (length s == 0)

unfoldable pub enabled : GoogleConfig → Bool
unfolding is_set
enabled g = is_set g.client_id

unfoldable pub code_flow_enabled : GoogleConfig → Bool
unfolding enabled is_set
code_flow_enabled g = enabled g && is_set g.client_secret && is_set g.redirect_url

pub record Config : Type 0 where
  pub app : AppConfig
  pub http : HttpConfig
  pub log : LogConfig
  pub db : DbConfig
  -- `CORS.AllowedOrigins`
  pub allowed_origins : List Bytes
  pub auth : AuthConfig
  pub google : GoogleConfig
  pub aggregation : AggregationConfig

pub record Parsers : Type 0 where
  pub parse_duration : Bytes → Option ℤ
  pub is_prefix : Bytes → Bool
  pub is_addr : Bytes → Bool
  pub is_request_uri : Bytes → Bool

abbrev pub day : ℕ
day = 24 * hour

abbrev pub default_min_jwt_secret_len : ℕ
default_min_jwt_secret_len = 32

-- What is wrong, one constructor for each message of `validate`.
pub data Problem : Type 0 where
  unknown_mode no_database_url min_conns_above_max shutdown_timeout_not_positive : Problem
  bucket_not_positive bucket_does_not_divide_day tick_not_positive backfill_not_positive : Problem
  max_body_bytes_not_positive bad_trusted_proxy bad_frontend_url : Problem
  no_google_redirect_url no_google_client_secret bad_google_redirect_url : Problem
  min_secret_len_too_low jwt_secret_too_short access_ttl_not_positive refresh_ttl_too_short :
      Problem
  bcrypt_cost_out_of_range : Problem

-- The first check that fails, in the order of the list.
unfoldable pub first_problem : List (Bool × Problem) → Option Problem
first_problem [] = none
first_problem ((bad, p) ∷ rest) = if bad then some p else first_problem rest

unfoldable pub is_unknown : Mode → Bool
is_unknown api = false
is_unknown worker = false
is_unknown all_modes = false
is_unknown (unknown m) = true

-- `day % bucket != 0`, asked of a positive bucket only.
unfoldable pub leaves_rest : ℤ → Bool
leaves_rest (pos n) = not (day % n == 0)
leaves_rest (negsuc n) = false

unfoldable pub base_checks : Config → List (Bool × Problem)
unfolding is_unknown is_set leaves_rest
base_checks c =
    (is_unknown c.app.mode, unknown_mode)
    ∷ (not (is_set c.db.url), no_database_url)
    ∷ (ltb_ℤ c.db.max_conns c.db.min_conns, min_conns_above_max)
    ∷ (leb_zero c.http.shutdown_timeout, shutdown_timeout_not_positive)
    ∷ (leb_zero c.aggregation.bucket, bucket_not_positive)
    ∷ (leaves_rest c.aggregation.bucket, bucket_does_not_divide_day)
    ∷ (leb_zero c.aggregation.tick, tick_not_positive)
    ∷ (leb_zero c.aggregation.backfill, backfill_not_positive)
    ∷ []

module _ (p : Parsers) where
  unfoldable pub is_proxy : Bytes → Bool
  is_proxy cidr = p.is_prefix cidr || p.is_addr cidr

  unfoldable pub api_checks : Config → List (Bool × Problem)
  unfolding is_proxy is_set code_flow_enabled
  api_checks c =
      (leb_zero c.http.max_body_bytes, max_body_bytes_not_positive)
      ∷ (not (all is_proxy c.http.trusted_proxies), bad_trusted_proxy)
      ∷ (not (p.is_request_uri c.app.frontend_url), bad_frontend_url)
      ∷ (
        is_set c.google.client_secret && not (is_set c.google.redirect_url),
        no_google_redirect_url,
      )
      ∷ (
        is_set c.google.redirect_url && not (is_set c.google.client_secret),
        no_google_client_secret,
      )
      ∷ (
        code_flow_enabled c.google && not (p.is_request_uri c.google.redirect_url),
        bad_google_redirect_url,
      )
      ∷ (ltb_ℤ c.auth.min_secret_len (pos default_min_jwt_secret_len), min_secret_len_too_low)
      ∷ (ltb_ℤ (pos (length c.auth.jwt_secret)) c.auth.min_secret_len, jwt_secret_too_short)
      ∷ (leb_zero c.auth.access_ttl, access_ttl_not_positive)
      ∷ (not (ltb_ℤ c.auth.access_ttl c.auth.refresh_ttl), refresh_ttl_too_short)
      ∷ (
        ltb_ℤ c.auth.bcrypt_cost (pos 4) || ltb_ℤ (pos 31) c.auth.bcrypt_cost,
        bcrypt_cost_out_of_range,
      )
      ∷ []

  -- The worker needs the first checks only.
  unfoldable pub validate : Config → Option Problem
  unfolding first_problem base_checks api_checks runs_api
  validate c = first_problem (base_checks c ++ (if runs_api c.app.mode then api_checks c else []))
