-- ===== src/Middleware/Auth.antt =====
-- internal/middleware/auth.go: who calls, and with which role.
use activity_events_api.Prelude.{
  ℕ, Bool, true, false, not, Option, none, some, List, any, Result, ok, err, Exec, length, ◌==◌,
  if◌then◌else◌,
}
use activity_events_api.Go.Text.{Bytes, codes, bytes_eq, trim_space, to_lower, cut}
use activity_events_api.Models.User.{Role, user, admin}
use activity_events_api.Handler.Reply.{Request, Response, Code, reply_error, value_of}
use activity_events_api.Middleware.{Handler}

token_of : Option (Bytes × Bytes) → Option Bytes
unfolding to_lower bytes_eq trim_space
token_of none = none
token_of (some (scheme, token)) =
    if not (bytes_eq (to_lower scheme) (codes "bearer"))
    then none
    else if length (trim_space token) == 0
    then none
    else some (trim_space token)

-- The token of a header `Bearer …`; the word is compared without regard to case.
unfoldable pub bearer_token : Bytes → Option Bytes
unfolding token_of cut trim_space
bearer_token header = token_of (cut b' ' (trim_space header))

-- What the guard takes from the claims of an access token.
pub record Identity : Type 0 where
  pub user_id : ℕ
  pub role : Role

unfoldable pub same_role : Role → Role → Bool
same_role user user = true
same_role user admin = false
same_role admin user = false
same_role admin admin = true

module _ {W : Type 0} (parse : Bytes → Exec W Identity) where
  unfoldable pub with_identity : Handler W → Request → Result Identity × W → Response × W
  unfolding reply_error
  with_identity next c (err e, w) =
      (reply_error 401 Code.invalid_token "Access token is invalid or expired", w)
  with_identity next c (ok i, w) = next (record c { caller = some i.user_id; role = some i.role }) w

  unfoldable pub with_token : Handler W → Request → Option Bytes → W → Response × W
  unfolding with_identity reply_error
  with_token next c none w =
      (reply_error 401 Code.unauthorized "Authorization header with a bearer token is required", w)
  with_token next c (some raw) w = with_identity next c (parse raw w)

  unfoldable pub require_auth : Handler W → Handler W
  unfolding with_token bearer_token value_of
  require_auth next c =
      with_token next c (bearer_token (value_of (codes "Authorization") c.headers))

module _ {W : Type 0} where
  unfoldable pub checked_role : List Role → Handler W → Request → Option Role → W → Response × W
  unfolding reply_error same_role
  checked_role allowed next c none w =
      (reply_error 401 Code.unauthorized "Authorization header with a bearer token is required", w)
  checked_role allowed next c (some r) w =
      if any (same_role r) allowed
      then next c w
      else (reply_error 403 Code.forbidden "This action requires a different role", w)

  unfoldable pub require_role : List Role → Handler W → Handler W
  unfolding checked_role
  require_role allowed next c = checked_role allowed next c c.role
