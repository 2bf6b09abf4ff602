-- ===== src/Repository/Token.antt =====
-- internal/repository/refresh_token.go and the table refresh_tokens of migrations/00002_auth.sql. The
-- advisory lock of a family orders the transactions; here each is one step.
pub mod Families
pub mod Rotation
pub mod Links
pub mod Upkeep
pub mod Sweep
use activity_events_api.Prelude.{
  ℕ, suc, ◌+◌, Bool, true, false, not, ◌&&◌, ◌||◌, Option, none, some, List, [], ◌∷◌, ◌++◌, map,
  Result, ok, err, repository, database, not_found, token_already_rotated, Exec, ◌>>=◌, ◌>>◌, raise,
  pure, gets, effect, length, find, any, filterb, ltb, ◌==◌, if◌then◌else◌,
}
use activity_events_api.Go.Text.{Bytes, bytes_eq}
use activity_events_api.Go.Clock.{Time, timestamptz}
use activity_events_api.Models.User.{User, RefreshToken, revoked}
use activity_events_api.Repository.Db.{Db, statement, transaction}

-- The primary key, the unique hash and the user's foreign key.
unfoldable pub token_clash : RefreshToken → RefreshToken → Bool
token_clash t row = (row.id == t.id) || bytes_eq row.token_hash t.token_hash

unfoldable pub token_row : RefreshToken → Time → RefreshToken
token_row t now = record t {
  created_at = timestamptz now;
  expires_at = timestamptz t.expires_at;
  revoked_at = none;
  replaced_by = none;
}

unfoldable pub insert_token_row : RefreshToken → Db → Result (Unit {0}) × Db
unfolding token_clash token_row
insert_token_row t db =
    if any (token_clash t) db.tokens || not (any (λ u. u.id == t.user_id) db.users)
    then (err (repository database), db)
    else (ok tt, record db { tokens = db.tokens ++ token_row t db.clock ∷ [] })

unfoldable pub insert_token : RefreshToken → Exec Db (Unit {0})
unfolding insert_token_row statement
insert_token t = do statement; insert_token_row t

unfoldable pub create : RefreshToken → Exec Db (Unit {0})
unfolding insert_token
create = insert_token

unfoldable pub found_token : Option RefreshToken → Exec Db RefreshToken
found_token none = raise (repository not_found)
found_token (some t) = pure t

unfoldable pub by_hash : Bytes → Exec Db RefreshToken
unfolding found_token statement
by_hash hash = do
  statement
  row ← gets (λ db. find (λ t. bytes_eq t.token_hash hash) db.tokens)
  found_token row

-- WHERE id = $1 AND revoked_at IS NULL
unfoldable pub rotates : ℕ → RefreshToken → Bool
unfolding revoked
rotates old t = (t.id == old) && not (revoked t)

unfoldable pub rotate_row : ℕ → ℕ → Time → RefreshToken → RefreshToken
unfolding rotates
rotate_row old next now t =
    if rotates old t
    then record t { revoked_at = some (timestamptz now); replaced_by = some next }
    else t

unfoldable pub rotate_all : ℕ → ℕ → Db → Db
unfolding rotate_row
rotate_all old next db = record db { tokens = map (rotate_row old next db.clock) db.tokens }

unfoldable pub require_rotated : ℕ → Exec Db (Unit {0})
require_rotated rows = if rows == 0 then raise (repository token_already_rotated) else pure tt

unfoldable pub rotate_body : ℕ → RefreshToken → Exec Db (Unit {0})
unfolding insert_token rotate_all require_rotated rotates statement
rotate_body old next = do
  statement
  insert_token next
  statement
  rows ← gets (λ db. length (filterb (rotates old) db.tokens))
  effect (rotate_all old next.id)
  require_rotated rows

-- The first statement of the body takes the family's lock.
unfoldable pub rotate : ℕ → RefreshToken → Exec Db (Unit {0})
unfolding rotate_body transaction
rotate old next = transaction (rotate_body old next)

-- WHERE family_id = $1 AND revoked_at IS NULL
unfoldable pub live_in : ℕ → RefreshToken → Bool
unfolding revoked
live_in family t = (t.family_id == family) && not (revoked t)

unfoldable pub revoke_row : ℕ → Time → RefreshToken → RefreshToken
unfolding live_in
revoke_row family now t =
    if live_in family t then record t { revoked_at = some (timestamptz now) } else t

unfoldable pub revoke_rows : ℕ → Db → Db
unfolding revoke_row
revoke_rows family db = record db { tokens = map (revoke_row family db.clock) db.tokens }

unfoldable pub revoke_body : ℕ → Exec Db ℕ
unfolding revoke_rows live_in statement
revoke_body family = do
  statement
  statement
  rows ← gets (λ db. length (filterb (live_in family) db.tokens))
  effect (revoke_rows family)
  pure rows

unfoldable pub revoke_family : ℕ → Exec Db ℕ
unfolding revoke_body transaction
revoke_family family = transaction (revoke_body family)

-- expires_at < $1
unfoldable pub past_expiry : Time → RefreshToken → Bool
past_expiry older_than t = ltb t.expires_at (timestamptz older_than)

-- ON DELETE SET NULL
unfoldable pub set_null : List RefreshToken → Option ℕ → Option ℕ
set_null deleted none = none
set_null deleted (some n) = if any (λ r. r.id == n) deleted then none else some n

unfoldable pub unlink : List RefreshToken → RefreshToken → RefreshToken
unfolding set_null
unlink deleted t = record t { replaced_by = set_null deleted t.replaced_by }

unfoldable pub delete_rows : Time → Db → Db
unfolding past_expiry unlink
delete_rows older_than db = record db {
  tokens =
      map (unlink (filterb (past_expiry older_than) db.tokens))
        (filterb (λ t. not (past_expiry older_than t)) db.tokens);
}

unfoldable pub delete_expired : Time → Exec Db ℕ
unfolding statement past_expiry delete_rows
delete_expired older_than = do
  statement
  rows ← gets (λ db. length (filterb (past_expiry older_than) db.tokens))
  effect (delete_rows older_than)
  pure rows
