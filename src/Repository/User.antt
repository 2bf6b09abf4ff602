-- ===== src/Repository/User.antt =====
-- internal/repository/user.go and the table users of migrations/00001_init.sql and 00002_auth.sql.
pub mod Linking
pub mod Unique
pub mod Writes
use mathlib.Core.List.{foldr}
use activity_events_api.Prelude.{
  ℕ, suc, ◌+◌, Bool, true, false, not, ◌&&◌, ◌||◌, Option, none, some, List, [], ◌∷◌, ◌++◌, map,
  Result, ok, err, repository, database, not_found, email_taken, google_sub_taken, Exec, ◌>>=◌,
  ◌>>◌, raise, pure, gets, effect, find, any, take, ltb, ◌==◌, if◌then◌else◌,
}
use activity_events_api.Go.Text.{Bytes, bytes_eq, to_lower}
use activity_events_api.Go.Clock.{Time, timestamptz}
use activity_events_api.Models.Aggregation.{ActivityBucket}
use activity_events_api.Models.User.{User, UserSummary, RefreshToken, revoked, is_set}
use activity_events_api.Repository.Db.{Db, statement, transaction}
use activity_events_api.Repository.Aggregation.{max_option}

-- users_email_lower_key
unfoldable pub same_email : Bytes → User → Bool
unfolding to_lower
same_email email u = bytes_eq (to_lower u.email) (to_lower email)

same_text : Option Bytes → Option Bytes → Bool
same_text (some s) (some t) = bytes_eq s t
same_text _ _ = false

-- users_google_sub_key
unfoldable pub same_sub : Option Bytes → User → Bool
unfolding same_text
same_sub sub u = same_text u.google_sub sub

present : Option Bytes → Bool
present none = false
present (some s) = true

-- users_login_method_check
unfoldable pub can_log_in : User → Bool
unfolding present
can_log_in u = present u.password_hash || present u.google_sub

unfoldable pub user_row : User → Db → User
user_row u db = record u {
  id = db.next_user_id;
  created_at = timestamptz db.clock;
  updated_at = timestamptz db.clock;
}

drawn : Db → Db
drawn db = record db { next_user_id = suc db.next_user_id }

-- Violations are told apart by the name of the index, as `translateUniqueViolation` does.
unfoldable pub insert_user : User → Db → Result User × Db
unfolding user_row can_log_in same_email same_sub drawn
insert_user u db =
    if not (can_log_in u)
    then (err (repository database), drawn db)
    else if any (same_email u.email) db.users
    then (err (repository email_taken), drawn db)
    else if any (same_sub u.google_sub) db.users
    then (err (repository google_sub_taken), drawn db)
    else (ok (user_row u db), record (drawn db) { users = db.users ++ user_row u db ∷ [] })

unfoldable pub create : User → Exec Db User
unfolding insert_user statement
create u = do statement; insert_user u

unfoldable pub scan_user : Option User → Exec Db User
scan_user none = raise (repository not_found)
scan_user (some u) = pure u

unfoldable pub by_id : ℕ → Exec Db User
unfolding scan_user statement
by_id id = do statement; row ← gets (λ db. find (λ u. u.id == id) db.users); scan_user row

unfoldable pub by_email : Bytes → Exec Db User
unfolding scan_user statement same_email
by_email email = do statement; row ← gets (λ db. find (same_email email) db.users); scan_user row

unfoldable pub by_google_sub : Bytes → Exec Db User
unfolding scan_user statement same_sub
by_google_sub sub = do
  statement
  row ← gets (λ db. find (same_sub (some sub)) db.users)
  scan_user row

-- The sum and the latest of a user's windows.
unfoldable pub summarize : User → List ActivityBucket → UserSummary
unfolding max_option
summarize u [] = record {
  id = u.id;
  email = u.email;
  role = u.role;
  event_count = 0;
  last_event_at = none;
}
summarize u (b ∷ bs) =
    let rest = summarize u bs in
    if b.user_id == u.id
    then record rest {
      event_count = b.event_count + rest.event_count;
      last_event_at = max_option b.last_event_at rest.last_event_at;
    }
    else rest

-- ORDER BY event_count DESC, u.id
busier : UserSummary → UserSummary → Bool
busier a b = ltb b.event_count a.event_count || (a.event_count == b.event_count && ltb a.id b.id)

insert_summary : UserSummary → List UserSummary → List UserSummary
unfolding busier
insert_summary s [] = s ∷ []
insert_summary s (x ∷ xs) =
    let rest = insert_summary s xs in if busier x s then x ∷ rest else s ∷ x ∷ xs

unfoldable pub select_summaries : ℕ → Db → List UserSummary
unfolding insert_summary summarize
select_summaries limit db =
    take limit (foldr insert_summary [] (map (λ u. summarize u db.buckets) db.users))

unfoldable pub list_users : ℕ → Exec Db (List UserSummary)
unfolding select_summaries statement
list_users limit = do statement; gets (select_summaries limit)

coalesce : Option Bytes → Option Bytes → Option Bytes
coalesce none t = t
coalesce (some s) t = some s

unfoldable pub link_row : Bytes → Option Bytes → Bool → Time → User → User
unfolding coalesce
link_row sub name verified now u = record u {
  google_sub = some sub;
  name = coalesce u.name name;
  password_hash = if u.email_verified then u.password_hash else none;
  email_verified = u.email_verified || verified;
  updated_at = timestamptz now;
}

-- WHERE id = $1 AND (google_sub IS NULL OR google_sub = $2)
unfoldable pub linkable : ℕ → Bytes → User → Bool
unfolding present same_sub
linkable id sub u = (u.id == id) && (not (present u.google_sub) || same_sub (some sub) u)

unfoldable pub link_all : ℕ → Bytes → Option Bytes → Bool → Db → Db
unfolding link_row
link_all id sub name verified db = record db {
  users = map (λ u. if u.id == id then link_row sub name verified db.clock u else u) db.users;
}

unfoldable pub store_link : ℕ → Bytes → Option Bytes → Bool → Option User → Db → Result User × Db
unfolding link_all link_row same_sub
store_link id sub name verified none db = (err (repository not_found), db)
store_link id sub name verified (some u) db =
    if any (λ v. not (v.id == id) && same_sub (some sub) v) db.users
    then (err (repository google_sub_taken), db)
    else (ok (link_row sub name verified db.clock u), link_all id sub name verified db)

unfoldable pub update_link : ℕ → Bytes → Option Bytes → Bool → Db → Result User × Db
unfolding store_link linkable
update_link id sub name verified db =
    store_link id sub name verified (find (linkable id sub) db.users) db

unfoldable pub revoke_user_row : ℕ → Time → RefreshToken → RefreshToken
unfolding revoked is_set
revoke_user_row id now t =
    if (t.user_id == id) && not (revoked t)
    then record t { revoked_at = some (timestamptz now) }
    else t

unfoldable pub revoke_user : ℕ → Db → Db
unfolding revoke_user_row
revoke_user id db = record db { tokens = map (revoke_user_row id db.clock) db.tokens }

unfoldable pub revoke_unless : Bool → ℕ → Exec Db (Unit {0})
unfolding revoke_user statement
revoke_unless true id = pure tt
revoke_unless false id = do statement; effect (revoke_user id)

unfoldable pub attach_body : ℕ → Bytes → Option Bytes → Bool → Exec Db User
unfolding scan_user update_link revoke_unless statement
attach_body id sub name verified = do
  statement
  row ← gets (λ db. find (λ u. u.id == id) db.users)
  current ← scan_user row
  statement
  updated ← update_link id sub name verified
  revoke_unless current.email_verified id
  pure updated

unfoldable pub attach_google : ℕ → Bytes → Option Bytes → Bool → Exec Db User
unfolding attach_body transaction
attach_google id sub name verified = transaction (attach_body id sub name verified)
