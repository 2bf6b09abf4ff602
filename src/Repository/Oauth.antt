-- ===== src/Repository/Oauth.antt =====
-- internal/repository/google_oauth.go and the tables of migrations/00003_google_oauth.sql.
pub mod Once
use activity_events_api.Prelude.{
  ℕ, ◌+◌, Bool, true, false, not, ◌&&◌, ◌||◌, Option, none, some, List, [], ◌∷◌, ◌++◌, map, Result,
  ok, err, repository, database, not_found, Exec, ◌>>=◌, ◌>>◌, raise, pure, gets, effect, length,
  find, any, filterb, ltb, ◌==◌, if◌then◌else◌,
}
use activity_events_api.Go.Text.{Bytes, bytes_eq}
use activity_events_api.Go.Clock.{Time, timestamptz}
use activity_events_api.Models.Oauth.{GoogleOauthState, GoogleOauthCode}
use activity_events_api.Models.User.{is_set}
use activity_events_api.Repository.Db.{Db, statement}

insert_state : GoogleOauthState → Db → Result (Unit {0}) × Db
insert_state s db =
    if any (λ r. bytes_eq r.state_hash s.state_hash) db.oauth_states
    then (err (repository database), db)
    else (
      ok tt,
      record db {
        oauth_states =
            db.oauth_states
            ++ record s { created_at = timestamptz db.clock; expires_at = timestamptz s.expires_at }
              ∷ [];
      },
    )

unfoldable pub create_state : GoogleOauthState → Exec Db (Unit {0})
unfolding insert_state statement
create_state s = do statement; insert_state s

-- WHERE state_hash = $1 AND expires_at > $2
unfoldable pub open_state : Bytes → Time → GoogleOauthState → Bool
open_state hash now s = bytes_eq s.state_hash hash && ltb (timestamptz now) s.expires_at

unfoldable pub taken_state : Option GoogleOauthState → Exec Db GoogleOauthState
taken_state none = raise (repository not_found)
taken_state (some s) = pure s

unfoldable pub delete_state : Bytes → Time → Db → Db
unfolding open_state
delete_state hash now db = record db {
  oauth_states = filterb (λ s. not (open_state hash now s)) db.oauth_states;
}

unfoldable pub take_state : Bytes → Time → Exec Db GoogleOauthState
unfolding taken_state delete_state statement
take_state hash now = do
  statement
  row ← gets (λ db. find (open_state hash now) db.oauth_states)
  effect (delete_state hash now)
  taken_state row

insert_code : GoogleOauthCode → Db → Result (Unit {0}) × Db
insert_code c db =
    if any (λ r. bytes_eq r.code_hash c.code_hash) db.oauth_codes
      || not (any (λ u. u.id == c.user_id) db.users)
    then (err (repository database), db)
    else (
      ok tt,
      record db {
        oauth_codes =
            db.oauth_codes
            ++ record c {
              created_at = timestamptz db.clock;
              expires_at = timestamptz c.expires_at;
              used_at = none;
            }
              ∷ [];
      },
    )

unfoldable pub create_code : GoogleOauthCode → Exec Db (Unit {0})
unfolding insert_code statement
create_code c = do statement; insert_code c

-- WHERE code_hash = $1 AND used_at IS NULL AND expires_at > $2
unfoldable pub open_code : Bytes → Time → GoogleOauthCode → Bool
unfolding is_set
open_code hash now c =
    bytes_eq c.code_hash hash && not (is_set c.used_at) && ltb (timestamptz now) c.expires_at

unfoldable pub taken_code : Option GoogleOauthCode → Exec Db ℕ
taken_code none = raise (repository not_found)
taken_code (some c) = pure c.user_id

unfoldable pub use_code : Bytes → Time → GoogleOauthCode → GoogleOauthCode
unfolding open_code
use_code hash now c =
    if open_code hash now c then record c { used_at = some (timestamptz now) } else c

unfoldable pub mark_codes : Bytes → Time → Db → Db
unfolding use_code
mark_codes hash now db = record db { oauth_codes = map (use_code hash now) db.oauth_codes }

unfoldable pub take_code : Bytes → Time → Exec Db ℕ
unfolding taken_code mark_codes statement
take_code hash now = do
  statement
  row ← gets (λ db. find (open_code hash now) db.oauth_codes)
  effect (mark_codes hash now)
  taken_code row

unfoldable pub delete_expired : Time → Exec Db ℕ
unfolding statement
delete_expired older_than = do
  statement
  states ←
      gets (λ db. length (filterb (λ s. ltb s.expires_at (timestamptz older_than)) db.oauth_states))
  effect (λ db. record db {
    oauth_states = filterb (λ s. not (ltb s.expires_at (timestamptz older_than))) db.oauth_states;
  })
  statement
  codes ←
      gets (λ db. length (filterb (λ c. ltb c.expires_at (timestamptz older_than)) db.oauth_codes))
  effect (λ db. record db {
    oauth_codes = filterb (λ c. not (ltb c.expires_at (timestamptz older_than))) db.oauth_codes;
  })
  pure (states + codes)
