-- ===== src/Tests/Accounts.antt =====
-- Sessions of one user, with hashes and signatures that keep their input.
use activity_events_api.Prelude.{
  true, false, ℕ, ◌+◌, ◌*◌, ◌≡◌, refl, none, some, List, [], ◌∷◌, arith, ok, err, repository,
  service, database, not_found, token_already_rotated, invalid_refresh_token, pure, raise, length,
  ◌==◌, if◌then◌else◌,
}
use activity_events_api.Go.Text.{Bytes, codes, bytes_eq}
use activity_events_api.Go.Clock.{hour}
use activity_events_api.Models.Oauth.{GoogleOauthState, GoogleOauthCode}
use activity_events_api.Models.User.{RefreshToken, expired, revoked}
use activity_events_api.Repository.Db.{Db}
use activity_events_api.Repository.Oauth.{take_state, take_code}
use activity_events_api.Repository.Oauth.Once.{take_state_twice, take_code_twice}
use activity_events_api.Repository.Token.{rotate, revoke_family, token_clash}
use activity_events_api.Repository.Token
use activity_events_api.Repository.User.{by_email, by_id}
use activity_events_api.Repository.Token.Families.{
  rotates_to, write, effect_of, if_done, write-effect_of,
}
use activity_events_api.Repository.Token.Rotation.{live, rotate_twice}
use activity_events_api.Service.Auth.{AuthDeps, ClientMeta, Session, login, refresh}
use activity_events_api.Service.Auth.Renewal.{Refreshed, refresh-Refreshed}
use activity_events_api.Service.Auth.Soundness.{LoggedIn, login-LoggedIn}
use activity_events_api.System.{World, auth_deps}
use activity_events_api.System.Sessions.{refresh_reused}
use activity_events_api.Tests.Events.{noon, ann, one_click}
use activity_events_api.Tests.Pages.{resting}

abbrev pub token : ℕ → Bytes → RefreshToken
token id hash = record {
  id = id;
  family_id = 3;
  user_id = 7;
  token_hash = hash;
  user_agent = none;
  ip = none;
  created_at = noon;
  expires_at = noon + hour;
  revoked_at = none;
  replaced_by = none;
}

abbrev pub used : RefreshToken
used = record (token 1 (codes "first")) { revoked_at = some noon; replaced_by = some 2 }

abbrev state : GoogleOauthState
state = record {
  state_hash = codes "s";
  code_verifier = codes "v";
  redirect_to = none;
  created_at = noon;
  expires_at = noon + hour;
}

abbrev code : GoogleOauthCode
code = record {
  code_hash = codes "c";
  user_id = 7;
  created_at = noon;
  expires_at = noon + hour;
  used_at = none;
}

abbrev pub signed_in : List RefreshToken → Db
signed_in ts = record (one_click []) {
  tokens = ts;
  oauth_states = state ∷ [];
  oauth_codes = code ∷ [];
  users = record ann { password_hash = some (codes "correct horse") } ∷ [];
}

abbrev plain : AuthDeps World
plain = record {
  create_user = λ u. raise (repository database);
  list_users = λ limit. raise (repository database);
  by_id = λ id. raise (repository database);
  by_email = λ email. raise (repository database);
  by_google_sub = λ sub. raise (repository database);
  attach_google = λ id sub name verified. raise (repository database);
  create_token = λ t. raise (repository database);
  by_hash = λ hash. raise (repository database);
  rotate = λ old next. raise (repository database);
  revoke_family = λ family. raise (repository database);
  random_token = pure (codes "third");
  new_uuid = λ w. (length w.db.tokens + 10, w);
  hash_token = λ raw. raw;
  generate_from_password = λ password. pure password;
  compare_hash_and_password = bytes_eq;
  issue = λ id role now. ok (record { token = codes "access"; expires_at = now + hour });
  parse_ip = λ ip. none;
  now = λ w. (w.db.clock, w);
  refresh_ttl = 24 * hour;
  access_ttl = hour;
}

abbrev browser : ClientMeta
browser = record { user_agent = codes "browser"; ip = [] }

take_state_twice_example :
    (take_state (codes "s") noon (take_state (codes "s") noon (signed_in [])).1).0
    ≡ err (repository not_found)
take_state_twice_example = take_state_twice (codes "s") noon noon (signed_in []) refl (omega arith)

take_code_twice_example :
    (take_code (codes "c") noon (take_code (codes "c") noon (signed_in [])).1).0
    ≡ err (repository not_found)
take_code_twice_example = take_code_twice (codes "c") noon noon (signed_in []) refl (omega arith)

refresh_reused_example :
    ((refresh
        (auth_deps plain)
        (codes "first")
        browser
        (resting (signed_in (used ∷ token 2 (codes "second") ∷ [])))).0
      ≡ err (service invalid_refresh_token))
    × (live 3
          (refresh
            (auth_deps plain)
            (codes "first")
            browser
            (resting (signed_in (used ∷ token 2 (codes "second") ∷ [])))).1.db.tokens
        ≡ (if 3 == 3 then 0 else live 3 (used ∷ token 2 (codes "second") ∷ [])))
unfolding bytes_eq revoked
refresh_reused_example =
    refresh_reused plain (codes "first") browser
      (resting (signed_in (used ∷ token 2 (codes "second") ∷ []))) used 3 refl refl refl

rotate_twice_example :
    rotate 2
      (token 5 (codes "fifth"))
      (rotate 2 (token 4 (codes "fourth")) (signed_in (token 2 (codes "second") ∷ []))).1
    ≡ (
      err (repository token_already_rotated),
      (rotate 2 (token 4 (codes "fourth")) (signed_in (token 2 (codes "second") ∷ []))).1,
    )
unfolding token_clash bytes_eq rotate
rotate_twice_example =
    rotate_twice 2 (token 4 (codes "fourth")) (token 5 (codes "fifth"))
      (signed_in (token 2 (codes "second") ∷ [])) refl refl refl refl (omega arith) refl refl

abbrev ann_session : Session
ann_session = record {
  user = record ann { password_hash = some (codes "correct horse") };
  access_token = codes "access";
  refresh_token = codes "third";
  expires_at = noon + 1000000000 + hour;
  expires_in = 3600;
}

login-LoggedIn_example :
    LoggedIn
      (auth_deps plain)
      (codes " Ann@Example.com ")
      (codes "correct horse")
      (resting (signed_in []))
      ann_session
unfolding login auth_deps by_email bytes_eq Token.create
login-LoggedIn_example =
    login-LoggedIn (auth_deps plain) (codes " Ann@Example.com ") (codes "correct horse") browser
      (resting (signed_in []))
      (login (auth_deps plain) (codes " Ann@Example.com ") (codes "correct horse") browser
        (resting (signed_in []))).1
      ann_session refl

refresh-Refreshed_example :
    Refreshed
      (auth_deps plain)
      (codes "second")
      (resting (signed_in (used ∷ token 2 (codes "second") ∷ [])))
      ann_session
unfolding refresh auth_deps by_id Token.by_hash Token.rotate bytes_eq revoked expired token_clash
refresh-Refreshed_example =
    refresh-Refreshed (auth_deps plain) (codes "second") browser
      (resting (signed_in (used ∷ token 2 (codes "second") ∷ [])))
      (refresh (auth_deps plain) (codes "second") browser
        (resting (signed_in (used ∷ token 2 (codes "second") ∷ [])))).1
      ann_session refl

-- The third statement of the rotation fails.
abbrev failing : Db
failing = record (signed_in (token 2 (codes "second") ∷ [])) { faults = false ∷ false ∷ true ∷ [] }

write-effect_of_example :
    live 3 (write (rotates_to 2 (token 4 (codes "fourth"))) failing).1.tokens
    ≡ if_done
        (write (rotates_to 2 (token 4 (codes "fourth"))) failing).0
        (effect_of (rotates_to 2 (token 4 (codes "fourth"))) (λ g. live g failing.tokens) 3)
        (live 3 failing.tokens)
write-effect_of_example =
    write-effect_of (rotates_to 2 (token 4 (codes "fourth"))) failing 3 (record {
      stored = token 2 (codes "second");
      only = refl;
      family = refl;
      fresh = omega arith;
    })
