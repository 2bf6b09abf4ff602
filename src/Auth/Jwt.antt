-- ===== src/Auth/Jwt.antt =====
-- internal/auth/jwt.go: access tokens. The library that signs and verifies them is a parameter: `sign`,
-- and `verify`, which stands for `ParseWithClaims` with the method, the issuer and a required expiry.
pub mod RoundTrip
use activity_events_api.Prelude.{
  ℕ, zero, suc, ◌+◌, ◌*◌, ◌/◌, ◌≤◌, ◌<◌, ◌≡◌, Bool, Option, none, some, List, [], ◌∷◌, Result, ok,
  err, auth, invalid_token, crypto, length, ◌==◌, if◌then◌else◌,
}
use activity_events_api.Prelude.Int.{ℤ, pos, negsuc}
use activity_events_api.Go.Text.{Bytes, codes, bytes_eq}
use activity_events_api.Go.Decimal.{format_int, parse_int}
use activity_events_api.Go.Clock.{Time, Duration, second}
use activity_events_api.Models.User.{Role, user, admin}
use activity_events_api.Service.Auth.{Access}
use activity_events_api.Middleware.Auth.{Identity}

-- The claims as they are written into a token; a role and a subject are texts there.
pub record Claims : Type 0 where
  pub role : Bytes
  pub subject : Bytes
  pub issuer : Bytes
  pub id : Bytes
  pub issued_at : Time
  pub not_before : Time
  pub expires_at : Time

pub record Manager : Type 0 where
  pub secret : Bytes
  pub issuer : Bytes
  pub access_ttl : Duration

pub record Library : Type 0 where
  pub sign : Bytes → Claims → Option Bytes
  -- the secret, the issuer, the time of the check and the token
  pub verify : Bytes → Bytes → Time → Bytes → Option Claims

-- What the library documents: a token that it signed gives its claims back under the same secret and
-- issuer, from `nbf` on until before `exp`.
pub record IsFaithful (l : Library) : Type 0 where
  pub verifies :
      (secret : Bytes) (c : Claims) (raw : Bytes) (now : Time)
      → l.sign secret c ≡ some raw
      → c.not_before ≤ now
      → now < c.expires_at
      → l.verify secret c.issuer now raw ≡ some c

-- `NewNumericDate` keeps whole seconds.
unfoldable pub numeric_date : Time → Time
numeric_date t = t / second * second

unfoldable pub role_text : Role → Bytes
role_text user = codes "user"
role_text admin = codes "admin"

-- `Role.Valid`, with the role that the text names.
unfoldable pub role_of : Bytes → Option Role
unfolding bytes_eq
role_of s =
    if bytes_eq s (codes "user")
    then some user
    else if bytes_eq s (codes "admin")
    then some admin
    else none

positive : Option ℤ → Option ℕ
positive (some (pos (suc n))) = some (suc n)
positive other = none

-- `Claims.UserID`
unfoldable pub user_id_of : Claims → Option ℕ
unfolding positive
user_id_of c = positive (parse_int c.subject)

-- `NewManager`
unfoldable pub new_manager : Bytes → Bytes → Duration → Option Manager
new_manager secret issuer access_ttl =
    if length secret == 0
    then none
    else if access_ttl == 0
    then none
    else some (record { secret = secret; issuer = issuer; access_ttl = access_ttl })

unfoldable pub claims_for : Manager → ℕ → Role → Bytes → Time → Claims
unfolding role_text numeric_date
claims_for m user_id role id now = record {
  role = role_text role;
  subject = format_int (pos user_id);
  issuer = m.issuer;
  id = id;
  issued_at = numeric_date now;
  not_before = numeric_date now;
  expires_at = numeric_date (now + m.access_ttl);
}

signed : Time → Option Bytes → Result Access
signed expires_at none = err (auth crypto)
signed expires_at (some raw) = ok (record { token = raw; expires_at = expires_at })

identity : Option Role → Option ℕ → Result Identity
identity (some role) (some user_id) = ok (record { user_id = user_id; role = role })
identity role user_id = err (auth invalid_token)

accepted : Option Claims → Result Identity
unfolding identity role_of user_id_of
accepted none = err (auth invalid_token)
accepted (some c) = identity (role_of c.role) (user_id_of c)

module _ (l : Library) (m : Manager) where
  -- `id` is what `uuid.NewString` gives.
  unfoldable pub issue : ℕ → Role → Bytes → Time → Result Access
  unfolding claims_for signed
  issue user_id role id now =
      signed (now + m.access_ttl) (l.sign m.secret (claims_for m user_id role id now))

  -- The claims, as far as the callers read them.
  unfoldable pub parse : Bytes → Time → Result Identity
  unfolding accepted
  parse raw now = accepted (l.verify m.secret m.issuer now raw)
