-- ===== src/Repository/Oauth/Once.antt =====
-- A state of the sign-in flow and its code work once.
use activity_events_api.Prelude.{
  ◌≡◌, ◌≤◌, refl, not, Option, none, some, List, [], ◌∷◌, map, arith, err, repository, not_found,
  find, filterb,
}
use activity_events_api.Go.Text.{Bytes}
use activity_events_api.Go.Clock.{Time, timestamptz}
use activity_events_api.Models.Oauth.{GoogleOauthState, GoogleOauthCode}
use activity_events_api.Models.User.{is_set}
use activity_events_api.Repository.Db.{Db}
use activity_events_api.Repository.Db.Up.{statement_up}
use activity_events_api.Repository.Oauth.{
  open_state, taken_state, delete_state, take_state, open_code, use_code, taken_code, mark_codes,
  take_code,
}

find-open_state :
    (hash : Bytes) (now later : Time) (ss : List GoogleOauthState)
    → timestamptz now ≤ timestamptz later
    → find (open_state hash later) (filterb (λ s. not (open_state hash now s)) ss) ≡ none
unfolding open_state
find-open_state hash now later [] h = refl
find-open_state hash now later (s ∷ ss) h = ground (arith, find-open_state hash now later ss)

find-open_code :
    (hash : Bytes) (now later : Time) (cs : List GoogleOauthCode)
    → timestamptz now ≤ timestamptz later
    → find (open_code hash later) (map (use_code hash now) cs) ≡ none
unfolding open_code use_code is_set
find-open_code hash now later [] h = refl
find-open_code hash now later (c ∷ cs) h = ground (arith, find-open_code hash now later cs)

taken_state-after : (o : Option GoogleOauthState) (db : Db) → (taken_state o db).1 ≡ db
unfolding taken_state
taken_state-after none db = refl
taken_state-after (some s) db = refl

take_state_up :
    (hash : Bytes) (now : Time) (db : Db)
    → db.faults ≡ []
    → take_state hash now db
      ≡ taken_state (find (open_state hash now) db.oauth_states) (delete_state hash now db)
unfolding take_state
take_state_up hash now db up = rw (statement_up db up) (unfold delete_state in refl)

taken_code-after : (o : Option GoogleOauthCode) (db : Db) → (taken_code o db).1 ≡ db
unfolding taken_code
taken_code-after none db = refl
taken_code-after (some c) db = refl

take_code_up :
    (hash : Bytes) (now : Time) (db : Db)
    → db.faults ≡ []
    → take_code hash now db
      ≡ taken_code (find (open_code hash now) db.oauth_codes) (mark_codes hash now db)
unfolding take_code
take_code_up hash now db up = rw (statement_up db up) (unfold mark_codes in refl)

-- With the database up, whatever taking a state gave, taking it again at the same time or later finds
-- none.
pub take_state_twice :
    (hash : Bytes) (now later : Time) (db : Db)
    → db.faults ≡ []
    → timestamptz now ≤ timestamptz later
    → (take_state hash later (take_state hash now db).1).0 ≡ err (repository not_found)
unfolding taken_state delete_state
take_state_twice hash now later db up h = rw (
  take_state_up hash now db up,
  taken_state-after (find (open_state hash now) db.oauth_states) (delete_state hash now db),
  take_state_up hash later (delete_state hash now db) up,
  find-open_state hash now later db.oauth_states h,
)

-- With the database up, whatever taking a code gave, taking it again at the same time or later finds
-- none.
pub take_code_twice :
    (hash : Bytes) (now later : Time) (db : Db)
    → db.faults ≡ []
    → timestamptz now ≤ timestamptz later
    → (take_code hash later (take_code hash now db).1).0 ≡ err (repository not_found)
unfolding taken_code mark_codes
take_code_twice hash now later db up h = rw (
  take_code_up hash now db up,
  taken_code-after (find (open_code hash now) db.oauth_codes) (mark_codes hash now db),
  take_code_up hash later (mark_codes hash now db) up,
  find-open_code hash now later db.oauth_codes h,
)
