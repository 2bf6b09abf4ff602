-- ===== src/Service/Auth/Google.antt =====
-- Sign-in with Google: the second half of internal/service/auth.go's users, and
-- internal/service/google_oauth.go. Google's servers and the verifier of id tokens stand in `GoogleDeps`.
use activity_events_api.Prelude.{
  ℕ, ◌+◌, ◌*◌, true, not, ◌||◌, Option, none, some, [], Result, ok, err, Error, repository, service,
  not_found, email_taken, google_sub_taken, invalid_google_token, google_disabled,
  google_email_unverified, invalid_oauth_state, invalid_exchange_code, Exec, ◌>>=◌, ◌>>◌, raise,
  pure, catch, reading, length, ◌==◌, if◌then◌else◌,
}
use activity_events_api.Go.Text.{Bytes, codes, bytes_eq, trim_space, has_prefix}
use activity_events_api.Go.Clock.{Time, Duration, minute}
use activity_events_api.Models.Oauth.{GoogleOauthState, GoogleOauthCode}
use activity_events_api.Models.User.{User, has_google}
use activity_events_api.Service.Auth.{
  AuthDeps, GoogleClaims, ClientMeta, Session, check_email, text_ptr, or_empty, when_missing,
  when_unlinked, new_user, start_session,
}

pub record GoogleCallback : Type 0 where
  pub code : Bytes
  pub redirect_to : Bytes

pub record OauthRepository (W : Type 0) : Type 0 where
  pub create_state : GoogleOauthState → Exec W (Unit {0})
  pub take_state : Bytes → Time → Exec W GoogleOauthState
  pub create_code : GoogleOauthCode → Exec W (Unit {0})
  pub take_code : Bytes → Time → Exec W ℕ

pub record Exchanger (W : Type 0) : Type 0 where
  pub auth_code_url : Bytes → Bytes → Bytes
  pub exchange : Bytes → Bytes → Exec W Bytes

pub record GoogleDeps (W : Type 0) : Type 0 where
  pub oauth : Option (OauthRepository W)
  pub exchanger : Option (Exchanger W)
  pub verify : Bytes → Exec W GoogleClaims
  pub pkce_challenge : Bytes → Bytes

abbrev pub google_state_ttl : Duration
google_state_ttl = 10 * minute

abbrev pub google_code_ttl : Duration
google_code_ttl = minute

unfoldable pub safe_redirect : Bytes → Bytes
unfolding trim_space has_prefix
safe_redirect path =
    let trimmed = trim_space path in
    if not (has_prefix trimmed (codes "/")) || has_prefix trimmed (codes "//") then [] else trimmed

-- Both must be there for the code flow.
both : {A B : Type 0} → Option A → Option B → Option (A × B)
both (some a) (some b) = some (a, b)
both _ _ = none

module _ {W : Type 0} (d : AuthDeps W) where
  unfoldable pub attach_to : User → GoogleClaims → Exec W User
  unfolding has_google or_empty text_ptr when_unlinked
  attach_to u claims =
      if has_google u
      then (if bytes_eq (or_empty u.google_sub) claims.subject
          then pure u
          else raise (service invalid_google_token))
      else catch (d.attach_google u.id claims.subject (text_ptr claims.name) true) pure
          (λ e. raise (when_unlinked e))

  unfoldable pub after_create : Bytes → GoogleClaims → Error → Exec W User
  unfolding attach_to
  after_create email claims (repository google_sub_taken) = raise (service invalid_google_token)
  after_create email claims (repository email_taken) =
      d.by_email email >>= λ existing. attach_to existing claims
  after_create email claims e = raise e

  unfoldable pub after_email : Bytes → GoogleClaims → Error → Exec W User
  unfolding after_create new_user text_ptr
  after_email email claims (repository not_found) =
      catch (d.create_user (new_user email none (some claims.subject) (text_ptr claims.name) true))
        pure (after_create email claims)
  after_email email claims e = raise e

  unfoldable pub link_normalized : Result Bytes → GoogleClaims → Exec W User
  unfolding after_email attach_to
  link_normalized (err e) claims = raise (service invalid_google_token)
  link_normalized (ok email) claims =
      catch (d.by_email email) (λ existing. attach_to existing claims) (after_email email claims)

  unfoldable pub after_sub : GoogleClaims → Error → Exec W User
  unfolding link_normalized check_email
  after_sub claims (repository not_found) = link_normalized (check_email claims.email) claims
  after_sub claims e = raise e

  unfoldable pub resolve_google_user : GoogleClaims → Exec W User
  unfolding after_sub
  resolve_google_user claims =
      if not claims.email_verified || (length claims.email == 0)
      then raise (service google_email_unverified)
      else catch (d.by_google_sub claims.subject) pure (after_sub claims)

  module _ (g : GoogleDeps W) where
    begin_flow : Option (Exchanger W × OauthRepository W) → Bytes → Exec W Bytes
    unfolding safe_redirect text_ptr
    begin_flow none redirect_to = raise (service google_disabled)
    begin_flow (some (exchanger, oauth)) redirect_to = do
      state ← d.random_token
      verifier ← d.random_token
      now ← reading d.now
      oauth.create_state (record {
        state_hash = d.hash_token state;
        code_verifier = verifier;
        redirect_to = text_ptr (safe_redirect redirect_to);
        created_at = 0;
        expires_at = now + google_state_ttl;
      })
      pure (exchanger.auth_code_url state (g.pkce_challenge verifier))

    unfoldable pub start_google_flow : Bytes → Exec W Bytes
    unfolding begin_flow both
    start_google_flow redirect_to = begin_flow (both g.exchanger g.oauth) redirect_to

    -- Whatever goes wrong at Google, the token is invalid.
    unfoldable pub claims_of : Exchanger W → Bytes → Bytes → Exec W GoogleClaims
    claims_of exchanger code verifier =
        catch (exchanger.exchange code verifier)
          (λ id_token. catch (g.verify id_token) pure (λ e. raise (service invalid_google_token)))
          (λ e. raise (service invalid_google_token))

    end_flow :
        Exchanger W → OauthRepository W → Bytes → Time → GoogleOauthState → Exec W GoogleCallback
    unfolding claims_of resolve_google_user or_empty
    end_flow exchanger oauth code now stored = do
      claims ← claims_of exchanger code stored.code_verifier
      u ← resolve_google_user claims
      one_time ← d.random_token
      oauth.create_code (record {
        code_hash = d.hash_token one_time;
        user_id = u.id;
        created_at = 0;
        expires_at = now + google_code_ttl;
        used_at = none;
      })
      pure (record { code = one_time; redirect_to = or_empty stored.redirect_to })

    take_flow : Option (Exchanger W × OauthRepository W) → Bytes → Bytes → Exec W GoogleCallback
    unfolding end_flow when_missing
    take_flow none code state = raise (service google_disabled)
    take_flow (some (exchanger, oauth)) code state =
        if (length code == 0) || (length state == 0)
        then raise (service invalid_oauth_state)
        else (reading d.now >>= λ now.
            catch (oauth.take_state (d.hash_token state) now) (end_flow exchanger oauth code now)
              (λ e. raise (when_missing (service invalid_oauth_state) e)))

    unfoldable pub complete_google_flow : Bytes → Bytes → Exec W GoogleCallback
    unfolding take_flow both
    complete_google_flow code state = take_flow (both g.exchanger g.oauth) code state

    take_exchange : Option (OauthRepository W) → Bytes → ClientMeta → Exec W Session
    unfolding when_missing start_session
    take_exchange none code meta = raise (service google_disabled)
    take_exchange (some oauth) code meta = reading d.now >>= λ now.
        catch (oauth.take_code (d.hash_token code) now)
          (λ id.
            catch (d.by_id id) (λ u. start_session d u meta)
              (λ e. raise (when_missing (service invalid_exchange_code) e)))
          (λ e. raise (when_missing (service invalid_exchange_code) e))

    unfoldable pub exchange_google_code : Bytes → ClientMeta → Exec W Session
    unfolding take_exchange
    exchange_google_code code meta = take_exchange g.oauth code meta
