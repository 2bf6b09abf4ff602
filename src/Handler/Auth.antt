-- ===== src/Handler/Auth.antt =====
-- internal/handler/auth.go and google_oauth.go.
use activity_events_api.Prelude.{
  ℕ, Bool, true, not, List, [], ◌∷◌, ◌++◌, Result, ok, err, Error, service, auth, registered_email,
  invalid_email, invalid_credentials, password_login_unavailable, invalid_refresh_token,
  invalid_google_token, google_disabled, google_email_unverified, invalid_oauth_state,
  invalid_exchange_code, user_not_found, password_too_short, password_too_long, Exec, length, ◌==◌,
  if◌then◌else◌,
}
use activity_events_api.Prelude.Int.{ℤ}
use activity_events_api.Go.Text.{Bytes, codes}
use activity_events_api.Models.User.{User, UserSummary}
use activity_events_api.Service.Auth.{Session, ClientMeta}
use activity_events_api.Service.Auth.Google.{GoogleCallback}
use activity_events_api.Handler.Dto.{
  RegisterRequest, LoginRequest, RefreshRequest, ExchangeRequest, new_accounts_response,
  new_session_response, new_user_response, email_field,
}
use activity_events_api.Handler.Reply.{
  Request, Response, Binding, Code, proceed, json, reply_error, bind_json, current_user,
  limit_query, value_of, client_meta, empty, accounts, methods, session, account, location,
}

-- `AuthService`
pub record AuthApi (W : Type 0) : Type 0 where
  pub register : Bytes → Bytes → ClientMeta → Exec W Session
  pub login : Bytes → Bytes → ClientMeta → Exec W Session
  pub start_google_flow : Bytes → Exec W Bytes
  pub complete_google_flow : Bytes → Bytes → Exec W GoogleCallback
  pub exchange_google_code : Bytes → ClientMeta → Exec W Session
  pub refresh : Bytes → ClientMeta → Exec W Session
  pub logout : Bytes → Exec W (Unit {0})
  pub user_of : ℕ → Exec W User
  pub accounts : ℤ → Exec W (List UserSummary)

unfoldable pub fail : Error → Response
unfolding reply_error
fail (service registered_email) =
    reply_error 409 Code.email_taken "This email is already registered"
fail (service invalid_credentials) =
    reply_error 401 Code.invalid_credentials "Invalid email or password"
fail (service password_login_unavailable) =
    reply_error 409 Code.password_login_unavailable
      "This account was created with Google, sign in with Google"
fail (service invalid_refresh_token) =
    reply_error 401 Code.invalid_token "Refresh token is invalid or expired, sign in again"
fail (service invalid_google_token) =
    reply_error 401 Code.invalid_token "Google id-token is invalid"
fail (service google_email_unverified) =
    reply_error 403 Code.google_email_unverified "Google has not verified this email address"
fail (service google_disabled) =
    reply_error 501 Code.google_disabled "Google sign-in is not configured on this server"
fail (service invalid_oauth_state) =
    reply_error 400 Code.invalid_oauth_state "Sign-in request is invalid or expired, start again"
fail (service invalid_exchange_code) =
    reply_error 401 Code.invalid_token "Exchange code is invalid, expired or already used"
fail (service user_not_found) = reply_error 404 Code.not_found "User not found"
fail (auth password_too_short) =
    reply_error 400 Code.validation_failed "Password must be at least 8 characters long"
fail (auth password_too_long) =
    reply_error 400 Code.validation_failed "Password must be at most 72 bytes long"
fail (service invalid_email) = reply_error 400 Code.validation_failed "Email is empty or too long"
fail _ = reply_error 500 Code.internal_error "Internal server error"

unfoldable pub answer : {W A : Type 0} → (A → Response) → Result A × W → Response × W
unfolding fail
answer f (ok a, w) = (f a, w)
answer f (err e, w) = (fail e, w)

-- The listing of accounts knows no error of its own.
unfoldable pub answer_accounts : {W : Type 0} → Result (List UserSummary) × W → Response × W
unfolding json reply_error new_accounts_response
answer_accounts (ok users, w) = (json 200 (accounts (new_accounts_response users)), w)
answer_accounts (err e, w) = (reply_error 500 Code.internal_error "Internal server error", w)

unfoldable pub callback_error : Error → Bytes
callback_error (service invalid_oauth_state) = codes "invalid_state"
callback_error (service google_email_unverified) = codes "email_unverified"
callback_error (service invalid_google_token) = codes "invalid_token"
callback_error (service google_disabled) = codes "google_disabled"
callback_error _ = codes "internal_error"

-- The parameters of the way back to the frontend.
unfoldable pub callback_values : Bytes → Bytes → Bytes → List (Bytes × Bytes)
callback_values code redirect_to failure =
    if not (length failure == 0)
    then (codes "error", failure) ∷ []
    else if not (length redirect_to == 0)
    then (codes "code", code) ∷ (codes "redirect_to", redirect_to) ∷ []
    else (codes "code", code) ∷ []

-- `encode` is `url.Values.Encode`; `google` says whether the code flow is configured.
module _ {W : Type 0} (api : AuthApi W) (frontend_url : Bytes) (google : Bool)
    (encode : List (Bytes × Bytes) → Bytes) where
  unfoldable pub list_accounts : Request → W → Response × W
  unfolding limit_query answer_accounts
  list_accounts c = proceed (limit_query c) λ limit w. answer_accounts (api.accounts limit w)

  unfoldable pub show_methods : Request → W → Response × W
  unfolding json
  show_methods c w = (json 200 (methods (record { password = true; google = google })), w)

  unfoldable pub register : Request → Binding RegisterRequest → W → Response × W
  unfolding bind_json client_meta email_field answer json new_session_response
  register c body = proceed (bind_json body) λ req w.
      answer (λ s. json 201 (session (new_session_response s)))
        (api.register (email_field req.email) req.password (client_meta c) w)

  unfoldable pub login : Request → Binding LoginRequest → W → Response × W
  unfolding bind_json client_meta email_field answer json new_session_response
  login c body = proceed (bind_json body) λ req w.
      answer (λ s. json 200 (session (new_session_response s)))
        (api.login (email_field req.email) req.password (client_meta c) w)

  unfoldable pub refresh : Request → Binding RefreshRequest → W → Response × W
  unfolding bind_json client_meta answer json new_session_response
  refresh c body = proceed (bind_json body) λ req w.
      answer (λ s. json 200 (session (new_session_response s)))
        (api.refresh req.refresh_token (client_meta c) w)

  unfoldable pub logout : Request → Binding RefreshRequest → W → Response × W
  unfolding bind_json answer json
  logout c body =
      proceed (bind_json body)
        λ req w. answer (λ _. json 204 empty) (api.logout req.refresh_token w)

  unfoldable pub me : Request → W → Response × W
  unfolding current_user answer json new_user_response
  me c =
      proceed (current_user c)
        λ user_id w. answer (λ u. json 200 (account (new_user_response u))) (api.user_of user_id w)

  unfoldable pub google_start : Request → W → Response × W
  unfolding value_of answer json
  google_start c w =
      answer (λ target. json 302 (location target))
        (api.start_google_flow (value_of (codes "redirect_to") c.query) w)

  unfoldable pub redirect_to_frontend : Bytes → Bytes → Bytes → Response
  unfolding callback_values json
  redirect_to_frontend code redirect_to failure = json 302 (
      location (
        frontend_url
        ++ codes "/auth/callback?"
        ++ encode (callback_values code redirect_to failure)))

  unfoldable pub after_flow : Result GoogleCallback × W → Response × W
  unfolding redirect_to_frontend callback_error
  after_flow (ok result, w) = (redirect_to_frontend result.code result.redirect_to [], w)
  after_flow (err e, w) = (redirect_to_frontend [] [] (callback_error e), w)

  unfoldable pub google_callback : Request → W → Response × W
  unfolding value_of after_flow redirect_to_frontend
  google_callback c w =
      let reason = value_of (codes "error") c.query in
      if not (length reason == 0)
      then (redirect_to_frontend [] [] reason, w)
      else after_flow (
          api.complete_google_flow (value_of (codes "code") c.query)
            (value_of (codes "state") c.query) w)

  unfoldable pub google_exchange : Request → Binding ExchangeRequest → W → Response × W
  unfolding bind_json client_meta answer json new_session_response
  google_exchange c body = proceed (bind_json body) λ req w.
      answer (λ s. json 200 (session (new_session_response s)))
        (api.exchange_google_code req.code (client_meta c) w)
