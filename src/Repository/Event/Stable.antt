-- ===== src/Repository/Event/Stable.antt =====
-- Storing an event keeps the table events consistent, whatever statement fails: `create` of
-- internal/repository/event.go by the rules of Db/Stable.
use activity_events_api.Prelude.{
  ℕ, Option, none, some, true, false, Error, repository, not_found, arith,
}
use activity_events_api.Go.Text.{Bytes}
use activity_events_api.Models.Event.{Event}
use activity_events_api.Repository.Db.{Db, rolled_back}
use activity_events_api.Repository.Db.Stable.{
  Contract, Stable, Stable-pure, Stable-raise, Stable-gets, Stable-bind, Stable-catch,
  Stable-statement,
}
use activity_events_api.Repository.Event.{
  scan_event, by_idempotency_key, existing_event, insert_event, create,
}
use activity_events_api.Repository.Event.Keys.{IsConsistent, Keeps, Ascends-mono, insert_row-Keeps}

events_contract : Contract
unfolding rolled_back
events_contract = record {
  IsGood = IsConsistent;
  Keeps = Keeps;
  good = λ a b k. k.consistent;
  same = λ a c. record { consistent = c; drawn = omega arith };
  follow = λ a b c h k. record { consistent = k.consistent; drawn = omega arith };
  fault = λ a fs c. record {
    consistent = record { ids = c.ids; keys = c.keys; types = c.types };
    drawn = omega arith;
  };
  back = λ a b c k. record {
    consistent = record {
      ids = Ascends-mono 0 a.next_event_id b.next_event_id a.events k.drawn c.ids;
      keys = c.keys;
      types = c.types;
    };
    drawn = k.drawn;
  };
}

Stable-scan_event : (row : Option Event) → Stable events_contract (scan_event row)
unfolding scan_event
Stable-scan_event none = Stable-raise events_contract (repository not_found)
Stable-scan_event (some e) = Stable-pure events_contract e

Stable-by_idempotency_key :
    (uid : ℕ) (key : Bytes) → Stable events_contract (by_idempotency_key uid key)
unfolding by_idempotency_key
Stable-by_idempotency_key uid key =
    Stable-bind events_contract _ _ (Stable-statement events_contract) λ _.
      Stable-bind events_contract _ _ (Stable-gets events_contract _) λ row. Stable-scan_event row

Stable-existing_event :
    (uid : ℕ) (key : Option Bytes) (e : Error) → Stable events_contract (existing_event uid key e)
unfolding existing_event
Stable-existing_event uid (some key) (repository not_found) =
    Stable-bind events_contract _ _ (Stable-by_idempotency_key uid key)
      λ x. Stable-pure events_contract (x, false)
Stable-existing_event uid key e = Stable-raise events_contract e

module _ (jsonb_object : Bytes → Option Bytes) where
  Stable-insert_event : (e : Event) → Stable events_contract (insert_event jsonb_object e)
  unfolding insert_event events_contract
  Stable-insert_event e = Stable-bind events_contract _ _ (Stable-statement events_contract) λ _.
      Stable-bind events_contract _ _ (record { at = insert_row-Keeps e (jsonb_object e.payload) })
        λ row. Stable-scan_event row

  -- Whatever statements fail, storing an event keeps the ids of the table distinct and rising below the
  -- next id, no key stands twice for one user, every type passes the check, and no id is given back.
  pub create-Keeps : (e : Event) (db : Db) → IsConsistent db → Keeps db (create jsonb_object e db).1
  unfolding create events_contract
  create-Keeps e =
      (Stable-catch events_contract _ _ _ (Stable-insert_event e)
        (λ created. Stable-pure events_contract (created, true))
        (Stable-existing_event e.user_id e.idempotency_key)).at
