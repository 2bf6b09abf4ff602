-- ===== src/Repository/Db/Up.antt =====
-- Statements and transactions while no fault is to come.
use activity_events_api.Prelude.{◌≡◌, [], ok, err, Error, Exec}
use activity_events_api.Repository.Db.{
  Db, statement, take_fault, transaction, settle_tx, close, rolled_back,
}

pub statement_up : (db : Db) → db.faults ≡ [] → statement db ≡ (ok tt, db)
unfolding statement take_fault
statement_up db h = rw h

module _ {A : Type 0} (body : Exec Db A) (db db' : Db) (up : db.faults ≡ []) where
  pub transaction-ok :
      (a : A) → body db ≡ (ok a, db') → db'.faults ≡ [] → transaction body db ≡ (ok a, db')
  unfolding transaction settle_tx close
  transaction-ok a h up' = rw (statement_up db up, h, statement_up db' up')

  pub transaction-err :
      (e : Error) → body db ≡ (err e, db') → transaction body db ≡ (err e, rolled_back db db')
  unfolding transaction settle_tx
  transaction-err e h = rw (statement_up db up, h)
