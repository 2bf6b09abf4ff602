-- ===== src/Middleware/Cors.antt =====
-- internal/middleware/cors.go.
use activity_events_api.Prelude.{
  Bool, not, ◌||◌, List, [], ◌∷◌, ◌++◌, any, length, ◌==◌, if◌then◌else◌,
}
use activity_events_api.Go.Text.{Bytes, codes, bytes_eq, trim_space}
use activity_events_api.Handler.Reply.{Response, json, value_of, empty}
use activity_events_api.Middleware.{Handler}

unfoldable pub allows_all : List Bytes → Bool
unfolding trim_space bytes_eq
allows_all origins = any (λ o. bytes_eq (trim_space o) (codes "*")) origins

unfoldable pub allows : List Bytes → Bytes → Bool
unfolding trim_space bytes_eq allows_all
allows origins origin = any (λ o. bytes_eq (trim_space o) origin) origins || allows_all origins

unfoldable pub cors_headers : Bytes → List (Bytes × Bytes)
cors_headers origin =
    (codes "Access-Control-Allow-Origin", origin)
    ∷ (codes "Access-Control-Allow-Credentials", codes "true")
    ∷ (codes "Access-Control-Allow-Methods", codes "GET, POST, PATCH, DELETE, OPTIONS")
    ∷ (
      codes "Access-Control-Allow-Headers",
      codes "Authorization, Content-Type, Idempotency-Key, X-Request-ID",
    )
    ∷ (codes "Access-Control-Expose-Headers", codes "X-Request-ID")
    ∷ (codes "Access-Control-Max-Age", codes "600")
    ∷ (codes "Vary", codes "Origin")
    ∷ []

unfoldable pub with_headers : List (Bytes × Bytes) → Response → Response
with_headers hs r = record r { headers = hs ++ r.headers }

module _ {W : Type 0} where
  -- A preflight request ends here.
  answer_allowed : Bytes → Handler W → Handler W
  unfolding with_headers cors_headers json bytes_eq
  answer_allowed origin next c w =
      if bytes_eq c.method (codes "OPTIONS")
      then (with_headers (cors_headers origin) (json 204 empty), w)
      else (with_headers (cors_headers origin) (next c w).0, (next c w).1)

  unfoldable pub cors : List Bytes → Handler W → Handler W
  unfolding answer_allowed allows value_of
  cors origins next c w =
      let origin = value_of (codes "Origin") c.headers in
      if length origin == 0
      then next c w
      else if not (allows origins origin)
      then next c w
      else answer_allowed origin next c w
