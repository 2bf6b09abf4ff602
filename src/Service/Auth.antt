-- ===== src/Service/Auth.antt =====
-- internal/service/auth.go with internal/auth/password.go: accounts, sessions and refresh tokens. What
-- draws random values, hashes and signs is not the program's own and stands in `AuthDeps`; so do the
-- parser of IP addresses and the settings. Log lines are left out.
pub mod Google
pub mod Soundness
pub mod Renewal
use activity_events_api.Prelude.{
  ℕ, ◌+◌, ◌/◌, Bool, true, false, not, ◌&&◌, ◌||◌, Option, none, some, Result, ok, err, Error,
  repository, service, auth, not_found, email_taken, google_sub_taken, token_already_rotated,
  registered_email, invalid_email, invalid_credentials, password_login_unavailable,
  invalid_refresh_token, invalid_google_token, google_email_unverified, user_not_found,
  password_too_short, password_too_long, Exec, ◌>>=◌, ◌>>◌, raise, pure, lift, catch, effect,
  reading, length, ltb, ◌==◌, if◌then◌else◌, List,
}
use activity_events_api.Prelude.Int.{ℤ, pos, negsuc}
use activity_events_api.Go.Text.{Bytes, bytes_eq}
use activity_events_api.Go.Clock.{Time, Duration, second}
use activity_events_api.Models.User.{
  User, UserSummary, Role, user, RefreshToken, revoked, expired, has_password, has_google,
  normalize_email, max_email_len,
}

pub record Access : Type 0 where
  pub token : Bytes
  pub expires_at : Time

pub record GoogleClaims : Type 0 where
  pub subject : Bytes
  pub email : Bytes
  pub email_verified : Bool
  pub name : Bytes

pub record ClientMeta : Type 0 where
  pub user_agent : Bytes
  pub ip : Bytes

pub record Session : Type 0 where
  pub user : User
  pub access_token : Bytes
  pub refresh_token : Bytes
  pub expires_at : Time
  pub expires_in : ℕ

pub record AuthDeps (W : Type 0) : Type 0 where
  pub create_user : User → Exec W User
  pub list_users : ℕ → Exec W (List UserSummary)
  pub by_id : ℕ → Exec W User
  pub by_email : Bytes → Exec W User
  pub by_google_sub : Bytes → Exec W User
  pub attach_google : ℕ → Bytes → Option Bytes → Bool → Exec W User
  pub create_token : RefreshToken → Exec W (Unit {0})
  pub by_hash : Bytes → Exec W RefreshToken
  pub rotate : ℕ → RefreshToken → Exec W (Unit {0})
  pub revoke_family : ℕ → Exec W ℕ
  -- the random source, `uuid.New`, SHA-256, bcrypt and the signing of access tokens
  pub random_token : Exec W Bytes
  pub new_uuid : W → ℕ × W
  pub hash_token : Bytes → Bytes
  pub generate_from_password : Bytes → Exec W Bytes
  pub compare_hash_and_password : Bytes → Bytes → Bool
  pub issue : ℕ → Role → Time → Result Access
  pub parse_ip : Bytes → Option Bytes
  pub now : W → Time × W
  pub refresh_ttl : Duration
  pub access_ttl : Duration

abbrev pub min_password_len : ℕ
min_password_len = 8

abbrev pub max_password_len : ℕ
max_password_len = 72

abbrev pub default_accounts_limit : ℕ
default_accounts_limit = 50

abbrev pub max_accounts_limit : ℕ
max_accounts_limit = 200

unfoldable pub check_email : Bytes → Result Bytes
unfolding normalize_email
check_email email =
    let normalized = normalize_email email in
    if (length normalized == 0) || ltb max_email_len (length normalized)
    then err (service invalid_email)
    else ok normalized

unfoldable pub text_ptr : Bytes → Option Bytes
text_ptr s = if length s == 0 then none else some s

unfoldable pub or_empty : Option Bytes → Bytes
or_empty none = List.[]
or_empty (some s) = s

unfoldable pub accounts_limit : ℤ → ℕ
accounts_limit (pos n) =
    if n == 0
    then default_accounts_limit
    else if ltb max_accounts_limit n
    then max_accounts_limit
    else n
accounts_limit (negsuc n) = default_accounts_limit

-- `errors.Is(err, repository.ErrNotFound)` becomes the service's own error.
unfoldable pub when_missing : Error → Error → Error
when_missing e (repository not_found) = e
when_missing e other = other

unfoldable pub when_taken : Error → Error
when_taken (repository email_taken) = service registered_email
when_taken e = e

unfoldable pub when_unlinked : Error → Error
when_unlinked (repository google_sub_taken) = service invalid_google_token
when_unlinked (repository not_found) = service invalid_google_token
when_unlinked e = e

-- A user to be inserted: what the statement does not send is left at its zero value.
unfoldable pub new_user : Bytes → Option Bytes → Option Bytes → Option Bytes → Bool → User
new_user email hash sub name verified = record {
  id = 0;
  email = email;
  password_hash = hash;
  role = user;
  google_sub = sub;
  name = name;
  email_verified = verified;
  created_at = 0;
  updated_at = 0;
}

module _ {W : Type 0} (d : AuthDeps W) where
  unfoldable pub hash_password : Bytes → Exec W Bytes
  hash_password plain =
      if ltb (length plain) min_password_len
      then raise (auth password_too_short)
      else if ltb max_password_len (length plain)
      then raise (auth password_too_long)
      else d.generate_from_password plain

  unfoldable pub check_password : Bytes → Bytes → Bool
  check_password hash plain =
      if (length hash == 0) || ltb max_password_len (length plain)
      then false
      else d.compare_hash_and_password hash plain

  unfoldable pub accounts : ℤ → Exec W (List UserSummary)
  unfolding accounts_limit
  accounts limit = d.list_users (accounts_limit limit)

  unfoldable pub new_refresh_token : ℕ → ℕ → ClientMeta → Time → Exec W (RefreshToken × Bytes)
  unfolding text_ptr
  new_refresh_token uid family meta now = do
    raw ← d.random_token
    id ← reading d.new_uuid
    pure (
      record {
        id = id;
        family_id = family;
        user_id = uid;
        token_hash = d.hash_token raw;
        user_agent = text_ptr meta.user_agent;
        ip = d.parse_ip meta.ip;
        created_at = 0;
        expires_at = now + d.refresh_ttl;
        revoked_at = none;
        replaced_by = none;
      },
      raw,
    )

  unfoldable pub session_of : User → Bytes → Access → Session
  session_of u raw access = record {
    user = u;
    access_token = access.token;
    refresh_token = raw;
    expires_at = access.expires_at;
    expires_in = d.access_ttl / second;
  }

  unfoldable pub issue_session : User → Bytes → Time → Exec W Session
  unfolding session_of
  issue_session u raw now = do
    access ← lift (d.issue u.id u.role now)
    pure (session_of u raw access)

  unfoldable pub start_session : User → ClientMeta → Exec W Session
  unfolding new_refresh_token issue_session
  start_session u meta = do
    now ← reading d.now
    family ← reading d.new_uuid
    made ← new_refresh_token u.id family meta now
    d.create_token made.0
    issue_session u made.1 now

  unfoldable pub register : Bytes → Bytes → ClientMeta → Exec W Session
  unfolding check_email hash_password new_user when_taken start_session
  register email password meta = do
    normalized ← lift (check_email email)
    hash ← hash_password password
    catch (d.create_user (new_user normalized (some hash) none none false))
        (λ u. start_session u meta) (λ e. raise (when_taken e))

  -- With a password that matches, a session; the check of the decoy hash for an unknown email has no
  -- effect but time.
  unfoldable pub log_in_user : Bytes → ClientMeta → User → Exec W Session
  unfolding check_password or_empty has_password start_session
  log_in_user password meta u =
      if not (has_password u)
      then raise (service password_login_unavailable)
      else if not (check_password (or_empty u.password_hash) password)
      then raise (service invalid_credentials)
      else start_session u meta

  unfoldable pub login_normalized : Result Bytes → Bytes → ClientMeta → Exec W Session
  unfolding log_in_user when_missing
  login_normalized (err e) password meta = raise (service invalid_credentials)
  login_normalized (ok normalized) password meta =
      catch (d.by_email normalized) (log_in_user password meta)
        (λ e. raise (when_missing (service invalid_credentials) e))

  unfoldable pub login : Bytes → Bytes → ClientMeta → Exec W Session
  unfolding login_normalized check_email
  login email password meta = login_normalized (check_email email) password meta

  -- The outcome is only logged.
  unfoldable pub revoke_compromised : RefreshToken → Exec W (Unit {0})
  revoke_compromised t = catch (d.revoke_family t.family_id) (λ n. pure tt) (λ e. pure tt)

  unfoldable pub after_rotation : RefreshToken → Error → Exec W Session
  unfolding revoke_compromised
  after_rotation stored (repository token_already_rotated) = do
    revoke_compromised stored
    raise (service invalid_refresh_token)
  after_rotation stored e = raise e

  unfoldable pub renew : RefreshToken → ClientMeta → Time → User → Exec W Session
  unfolding new_refresh_token after_rotation issue_session
  renew stored meta now u = do
    made ← new_refresh_token u.id stored.family_id meta now
    catch (d.rotate stored.id made.0) (λ _. issue_session u made.1 now) (after_rotation stored)

  unfoldable pub refresh_stored : ClientMeta → RefreshToken → Time → Exec W Session
  unfolding renew when_missing revoke_compromised revoked expired
  refresh_stored meta stored now =
      if revoked stored
      then (do revoke_compromised stored; raise (service invalid_refresh_token))
      else if expired stored now
      then raise (service invalid_refresh_token)
      else catch (d.by_id stored.user_id) (renew stored meta now)
          (λ e. raise (when_missing (service invalid_refresh_token) e))

  unfoldable pub refresh : Bytes → ClientMeta → Exec W Session
  unfolding refresh_stored when_missing
  refresh raw meta =
      catch (d.by_hash (d.hash_token raw)) (λ stored. reading d.now >>= refresh_stored meta stored)
        (λ e. raise (when_missing (service invalid_refresh_token) e))

  unfoldable pub unless_missing : Error → Exec W (Unit {0})
  unless_missing (repository not_found) = pure tt
  unless_missing e = raise e

  unfoldable pub logout : Bytes → Exec W (Unit {0})
  unfolding unless_missing
  logout raw =
      catch (d.by_hash (d.hash_token raw))
        (λ stored. d.revoke_family stored.family_id >>= λ n. pure tt) unless_missing

  unfoldable pub user_of : ℕ → Exec W User
  unfolding when_missing
  user_of id = catch (d.by_id id) pure (λ e. raise (when_missing (service user_not_found) e))
