-- ===== src/Config/Load.antt =====
-- The readers of internal/config/config.go. A variable that cannot be read takes its default.
use mathlib.Core.List.{reverse}
use activity_events_api.Prelude.{
  ℕ, ◌*◌, ◌%◌, ◌^◌, ◌-◌, Option, none, some, List, [], ◌∷◌, length, ltb, ◌==◌, if◌then◌else◌,
}
use activity_events_api.Prelude.Int.{ℤ, pos, negsuc}
use activity_events_api.Go.Text.{Bytes, codes, bytes_eq, trim_space, to_lower, split_commas}
use activity_events_api.Go.Decimal.{parse_int}
use activity_events_api.Go.Clock.{hour, minute, second}
use activity_events_api.Config.{
  Mode, api, worker, all_modes, unknown, Config, LogConfig, DbConfig, Parsers, Problem,
  no_database_url, validate, default_min_jwt_secret_len, day,
}

-- `strings.TrimRight(s, "/")`
drop_slashes : Bytes → Bytes
drop_slashes [] = []
drop_slashes (c ∷ cs) = if c == b'/' then drop_slashes cs else c ∷ cs

unfoldable pub trim_slashes : Bytes → Bytes
unfolding drop_slashes
trim_slashes s = reverse (drop_slashes (reverse s))

unfoldable pub trimmed_parts : List Bytes → List Bytes
unfolding trim_space
trimmed_parts [] = []
trimmed_parts (p ∷ ps) =
    let rest = trimmed_parts ps in if length (trim_space p) == 0 then rest else trim_space p ∷ rest

-- The conversion of an int to an int32, which keeps the lowest 32 bits.
signed32 : ℕ → ℤ
signed32 r = if ltb r (2 ^ 31) then pos r else negsuc (2 ^ 32 - 1 - r)

unfoldable pub to_int32 : ℤ → ℤ
unfolding signed32
to_int32 (pos n) = signed32 (n % 2 ^ 32)
to_int32 (negsuc n) = signed32 (2 ^ 32 - 1 - n % 2 ^ 32)

abbrev or_else {ℓ} : {A : Type ℓ} → Option A → A → A
or_else none d = d
or_else (some a) d = a

unfoldable pub mode_of : Bytes → Mode
unfolding bytes_eq
mode_of s =
    if bytes_eq s (codes "api")
    then api
    else if bytes_eq s (codes "worker")
    then worker
    else if bytes_eq s (codes "all")
    then all_modes
    else unknown s

module _ (p : Parsers) (getenv : Bytes → Bytes) where
  unfoldable pub env : Bytes → Bytes → Bytes
  unfolding trim_space
  env key def = let v = trim_space (getenv key) in if length v == 0 then def else v

  unfoldable pub env_int : Bytes → ℤ → ℤ
  unfolding env
  env_int key def = or_else (parse_int (env key [])) def

  unfoldable pub env_duration : Bytes → ℤ → ℤ
  unfolding env
  env_duration key def = or_else (p.parse_duration (env key [])) def

  unfoldable pub env_list : Bytes → List Bytes → List Bytes
  unfolding env trimmed_parts split_commas
  env_list key def =
      let out = trimmed_parts (split_commas (env key [])) in
      if length (env key []) == 0 then def else if length out == 0 then def else out

  unfoldable pub load_log : LogConfig
  unfolding env to_lower
  load_log = record {
    level = to_lower (env (codes "LOG_LEVEL") (codes "info"));
    format = to_lower (env (codes "LOG_FORMAT") (codes "json"));
  }

  unfoldable pub load_db : DbConfig
  unfolding env env_int env_duration to_int32
  load_db = record {
    url = env (codes "DATABASE_URL") [];
    max_conns = to_int32 (env_int (codes "DB_MAX_CONNS") (pos 10));
    min_conns = to_int32 (env_int (codes "DB_MIN_CONNS") (pos 2));
    migrations_dir = env (codes "MIGRATIONS_DIR") (codes "migrations");
    connect_retries = env_int (codes "DB_CONNECT_RETRIES") (pos 10);
    connect_backoff = env_duration (codes "DB_CONNECT_BACKOFF") (pos second);
  }

  unfoldable pub settings : Config
  unfolding env env_int env_duration env_list load_log load_db mode_of to_lower trim_slashes
  settings = record {
    app = record {
      env = env (codes "APP_ENV") (codes "development");
      mode = mode_of (to_lower (env (codes "APP_MODE") (codes "all")));
      frontend_url = trim_slashes (env (codes "FRONTEND_URL") (codes "http://localhost:5173"));
    };
    http = record {
      port = env (codes "PORT") (env (codes "HTTP_PORT") (codes "8080"));
      read_timeout = env_duration (codes "HTTP_READ_TIMEOUT") (pos (15 * second));
      write_timeout = env_duration (codes "HTTP_WRITE_TIMEOUT") (pos (30 * second));
      shutdown_timeout = env_duration (codes "SHUTDOWN_TIMEOUT") (pos (15 * second));
      max_body_bytes = env_int (codes "MAX_BODY_BYTES") (pos (64 * 1024));
      trusted_proxies = env_list (codes "TRUSTED_PROXIES") [];
    };
    log = load_log;
    db = load_db;
    allowed_origins = env_list (codes "CORS_ALLOWED_ORIGINS") (codes "http://localhost:5173" ∷ []);
    auth = record {
      jwt_secret = env (codes "JWT_SECRET") [];
      min_secret_len = env_int (codes "JWT_SECRET_MIN_LEN") (pos default_min_jwt_secret_len);
      issuer = env (codes "JWT_ISSUER") (codes "activity-events-api");
      access_ttl = env_duration (codes "JWT_ACCESS_TTL") (pos (15 * minute));
      refresh_ttl = env_duration (codes "JWT_REFRESH_TTL") (pos (30 * day));
      bcrypt_cost = env_int (codes "BCRYPT_COST") (pos 12);
    };
    google = record {
      client_id = env (codes "GOOGLE_CLIENT_ID") [];
      client_secret = env (codes "GOOGLE_CLIENT_SECRET") [];
      redirect_url = env (codes "GOOGLE_REDIRECT_URL") [];
      auth_url =
          env (codes "GOOGLE_AUTH_URL") (codes "https://accounts.google.com/o/oauth2/v2/auth");
      token_url = env (codes "GOOGLE_TOKEN_URL") (codes "https://oauth2.googleapis.com/token");
      jwks_url = env (codes "GOOGLE_JWKS_URL") (codes "https://www.googleapis.com/oauth2/v3/certs");
    };
    aggregation = record {
      bucket = env_duration (codes "AGGREGATION_BUCKET") (pos (4 * hour));
      tick = env_duration (codes "AGGREGATION_TICK") (pos (5 * minute));
      backfill = env_int (codes "AGGREGATION_BACKFILL") (pos 12);
    };
  }

  -- The settings with what is wrong with them, if anything is.
  unfoldable pub load : Config × Option Problem
  unfolding settings validate
  load = (settings, validate p settings)

  unfoldable pub load_migrations : (LogConfig × DbConfig) × Option Problem
  unfolding load_log load_db
  load_migrations =
      ((load_log, load_db), if length (load_db).url == 0 then some no_database_url else none)
