-- ===== src/Repository/User/Linking.antt =====
-- What linking a Google account does to an account whose email nobody had verified: its password and its
-- sessions go, for whoever registered it may not own the address.
use activity_events_api.Prelude.{
  ℕ, ◌≡◌, true, not, ◌&&◌, Option, none, some, List, ok, find, filterb, length, ◌==◌,
}
use activity_events_api.Go.Text.{Bytes}
use activity_events_api.Models.User.{User, RefreshToken, revoked}
use activity_events_api.Repository.Db.{Db}
use activity_events_api.Repository.User.{attach_google}

-- The tokens of a user that are not revoked.
abbrev pub live_of : ℕ → List RefreshToken → ℕ
live_of id ts = length (filterb (λ t. (t.user_id == id) && not (revoked t)) ts)

-- The rows of the other users.
abbrev pub others : ℕ → List User → List User
others id us = filterb (λ v. not (v.id == id)) us

-- The row of an option, or another.
held : User → Option User → User
held v none = v
held v (some u) = u

-- What linking leaves: the account, as answered and as stored, answers to Google only, nobody is signed
-- in to it, and the other users' rows are the same.
pub record TakenOver (id : ℕ) (sub : Bytes) (name : Option Bytes) (db : Db) : Type 0 where
  pub linked : User
  pub after : Db
  pub answer : attach_google id sub name true db ≡ (ok linked, after)
  pub stored : find (λ v. v.id == id) after.users ≡ some linked
  pub others_kept : others id after.users ≡ others id db.users
  pub google : linked.google_sub ≡ some sub
  pub no_password : linked.password_hash ≡ none
  pub verified : linked.email_verified ≡ true
  pub signed_out : live_of id after.tokens ≡ 0
