-- ===== src/Repository/Db.antt =====
-- The database behind internal/repository: its tables (migrations/*.sql), its clock `now()`, and what a
-- connection does. `faults` says for each statement to come, also BEGIN and COMMIT, whether it fails; when
-- the list is used up, none does. A transaction that fails leaves the tables as they were, but values
-- drawn from a sequence stay drawn.
pub mod Up
pub mod Stable
use activity_events_api.Prelude.{
  ℕ, Bool, true, false, List, [], ◌∷◌, Result, ok, err, repository, database, Exec, ◌>>◌,
}
use activity_events_api.Go.Clock.{Time}
use activity_events_api.Models.Event.{Event}
use activity_events_api.Models.Oauth.{GoogleOauthState, GoogleOauthCode}
use activity_events_api.Models.User.{User, RefreshToken}
use activity_events_api.Models.Aggregation.{ActivityBucket, AggregationRun}

pub record Db : Type 0 where
  pub faults : List Bool
  pub clock : Time
  pub users : List User
  pub next_user_id : ℕ
  pub tokens : List RefreshToken
  pub oauth_states : List GoogleOauthState
  pub oauth_codes : List GoogleOauthCode
  pub events : List Event
  pub next_event_id : ℕ
  pub buckets : List ActivityBucket
  pub runs : List AggregationRun
  pub next_run_id : ℕ
  -- the windows whose advisory lock another transaction holds
  pub locked : List Time

unfoldable pub take_fault : List Bool → Db → Result (Unit {0}) × Db
take_fault [] db = (ok tt, db)
take_fault (true ∷ rest) db = (err (repository database), record db { faults = rest })
take_fault (false ∷ rest) db = (ok tt, record db { faults = rest })

-- One exchange with the server.
unfoldable pub statement : Exec Db (Unit {0})
unfolding take_fault
statement db = take_fault db.faults db

-- What ROLLBACK leaves: the tables from before, the faults and sequences from after.
unfoldable pub rolled_back : Db → Db → Db
rolled_back old new = record old {
  faults = new.faults;
  next_user_id = new.next_user_id;
  next_event_id = new.next_event_id;
  next_run_id = new.next_run_id;
}

unfoldable pub close : {A : Type 0} → Db → A → Result (Unit {0}) × Db → Result A × Db
close old a (ok _, db) = (ok a, db)
close old a (err e, db) = (err e, rolled_back old db)

unfoldable pub settle_tx : {A : Type 0} → Db → Result A × Db → Result A × Db
unfolding close
settle_tx old (ok a, db) = close old a (statement db)
settle_tx old (err e, db) = (err e, rolled_back old db)

-- `Begin`, the body, `Commit`, and the deferred `Rollback` on every early return.
unfoldable pub transaction : {A : Type 0} → Exec Db A → Exec Db A
unfolding settle_tx
transaction body = statement >> λ db. settle_tx db (body db)
