-- ===== src/Auth/Google.antt =====
-- internal/auth/google.go and google_code.go: the checks of an id token, and the requests of the
-- authorization code flow. The library that verifies signatures, audience and expiry is the parameter
-- `parse`; sending a request is the parameter `post`.
use activity_events_api.Prelude.{
  ℕ, Bool, true, false, not, ◌||◌, Option, none, some, List, [], ◌∷◌, ◌++◌, any, length, ◌==◌,
  if◌then◌else◌,
}
use mathlib.Core.List.{reverse}
use activity_events_api.Go.Text.{Bytes, codes, bytes_eq, trim_space}
use activity_events_api.Go.Base64.{encode_to_string}
use activity_events_api.Service.Auth.{GoogleClaims}

pub record IdTokenClaims : Type 0 where
  pub issuer : Bytes
  pub subject : Bytes
  pub email : Bytes
  pub email_verified : Bool
  pub name : Bytes

unfoldable pub google_issuers : List Bytes
google_issuers = codes "accounts.google.com" ∷ codes "https://accounts.google.com" ∷ []

trim_quotes_left : Bytes → Bytes
trim_quotes_left [] = []
trim_quotes_left (c ∷ cs) = if c == b'"' then trim_quotes_left cs else c ∷ cs

-- `strings.Trim(s, "\"")`
unfoldable pub trim_quotes : Bytes → Bytes
unfolding trim_quotes_left
trim_quotes s = reverse (trim_quotes_left (reverse (trim_quotes_left s)))

-- `flexBool.UnmarshalJSON`
unfoldable pub flex_bool : Bytes → Option Bool
unfolding trim_quotes bytes_eq
flex_bool data' =
    let s = trim_quotes data' in
    if bytes_eq s (codes "true")
    then some true
    else if bytes_eq s (codes "false") || bytes_eq s (codes "null") || (length s == 0)
    then some false
    else none

-- Every refusal is `ErrInvalidGoogleToken`, here `none`.
checked_claims : Option IdTokenClaims → Option GoogleClaims
unfolding google_issuers bytes_eq trim_space
checked_claims none = none
checked_claims (some c) =
    if not (any (bytes_eq c.issuer) google_issuers)
    then none
    else if length c.subject == 0
    then none
    else some (record {
      subject = c.subject;
      email = trim_space c.email;
      email_verified = c.email_verified;
      name = trim_space c.name;
    })

unfoldable pub verify : (Bytes → Option IdTokenClaims) → Bytes → Option GoogleClaims
unfolding checked_claims
verify parse raw = checked_claims (parse raw)

unfoldable pub pkce_challenge : (Bytes → Bytes) → Bytes → Bytes
unfolding encode_to_string
pkce_challenge sha256 verifier = encode_to_string (sha256 verifier)

pub record GoogleExchanger : Type 0 where
  pub client_id : Bytes
  pub client_secret : Bytes
  pub redirect_url : Bytes
  pub auth_url : Bytes
  pub token_url : Bytes

-- The answer of the token endpoint, with its JSON body if that can be read.
pub record TokenBody : Type 0 where
  pub id_token : Bytes
  pub failure : Bytes

pub record TokenResponse : Type 0 where
  pub status : ℕ
  pub body : Option TokenBody

pub data Exchanged : Type 0 where
  id_token : Bytes → Exchanged
  -- an error that wraps `ErrInvalidGoogleToken`
  refused : Exchanged
  -- any other error
  broken : Exchanged

read_token : ℕ → Option TokenBody → Exchanged
read_token status none = broken
read_token status (some body) =
    if not (status == 200) || not (length body.failure == 0)
    then refused
    else if length body.id_token == 0
    then refused
    else id_token body.id_token

read_response : Option TokenResponse → Exchanged
unfolding read_token
read_response none = broken
read_response (some r) = read_token r.status r.body

-- `encode` is `url.Values.Encode`.
module _ (encode : List (Bytes × Bytes) → Bytes) (e : GoogleExchanger) where
  unfoldable pub auth_code_url : Bytes → Bytes → Bytes
  auth_code_url state challenge =
      e.auth_url
      ++ codes "?"
      ++ encode (
          (codes "client_id", e.client_id)
          ∷ (codes "redirect_uri", e.redirect_url)
          ∷ (codes "response_type", codes "code")
          ∷ (codes "scope", codes "openid email profile")
          ∷ (codes "state", state)
          ∷ (codes "code_challenge", challenge)
          ∷ (codes "code_challenge_method", codes "S256")
          ∷ (codes "access_type", codes "online")
          ∷ (codes "prompt", codes "select_account")
          ∷ [])

  -- `post` sends a form to a URL; it gives nothing when no response came.
  unfoldable pub exchange : (Bytes → Bytes → Option TokenResponse) → Bytes → Bytes → Exchanged
  unfolding read_response
  exchange post code verifier = read_response (
      post e.token_url (
        encode (
          (codes "client_id", e.client_id)
          ∷ (codes "client_secret", e.client_secret)
          ∷ (codes "code", code)
          ∷ (codes "code_verifier", verifier)
          ∷ (codes "grant_type", codes "authorization_code")
          ∷ (codes "redirect_uri", e.redirect_url)
          ∷ [])))
