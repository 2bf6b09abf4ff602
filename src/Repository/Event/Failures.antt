-- ===== src/Repository/Event/Failures.antt =====
-- Which errors storing an event may end in: those of the repository alone.
use activity_events_api.Prelude.{
  ℕ, ◌≡◌, refl, Bool, true, false, not, Option, none, some, List, [], ◌∷◌, Result, ok, err, Error,
  repository, database, not_found, Exec, ◌>>=◌, ◌>>◌, pure, gets, settle, continue, find, any,
  if◌then◌else◌, ◌==◌,
}
use activity_events_api.Go.Text.{Bytes}
use activity_events_api.Models.Event.{Event}
use activity_events_api.Repository.Db.{Db, statement, take_fault}
use activity_events_api.Repository.Event
use activity_events_api.Repository.Event.{
  insert_event, insert_row, scan_event, by_idempotency_key, existing_event, insert_all,
  after_refusal, type_check, conflicts, draw_id, row_of,
}

unfoldable pub from_repository : Error → Bool
from_repository (repository e) = true
from_repository _ = false

-- A result that is a value, or an error of the repository.
unfoldable pub Clean : {A : Type 0} → Result A → Type 0
Clean (ok a) = Unit {0}
Clean (err e) = from_repository e ≡ true

continue-Clean :
    {W A B : Type 0} (r : Result A) (f : A → Exec W B) (w : W)
    → Clean r
    → ((a : A) → Clean (f a w).0)
    → Clean (continue r f w).0
unfolding Clean
continue-Clean (ok a) f w h k = k a
continue-Clean (err e) f w h k = h

statement-Clean : (fs : List Bool) (db : Db) → Clean (take_fault fs db).0
unfolding take_fault Clean from_repository
statement-Clean [] db = tt
statement-Clean (true ∷ fs) db = refl
statement-Clean (false ∷ fs) db = tt

after_statement-Clean :
    {A : Type 0} (m : Exec Db A) (db : Db)
    → ((db : Db) → Clean (m db).0)
    → Clean ((statement >> m) db).0
unfolding statement
after_statement-Clean m db h =
    continue-Clean (take_fault db.faults db).0 (λ _. m) _ (statement-Clean db.faults db) (λ _. h _)

scan_event-Clean : (row : Option Event) (db : Db) → Clean (scan_event row db).0
unfolding scan_event Clean from_repository
scan_event-Clean none db = refl
scan_event-Clean (some e) db = tt

abbrev CleanRow : Result (Option Event) × Db → Type 0
CleanRow p = Clean p.0

insert_row-Clean :
    (e : Event) (payload : Option Bytes) (db : Db) → CleanRow (insert_row e payload db)
unfolding insert_row Clean from_repository
insert_row-Clean e none db = refl
insert_row-Clean e (some payload) db =
    chosen (not (type_check e.type)) (any (conflicts e.user_id e.idempotency_key) db.events)
      (not (any (λ u. u.id == e.user_id) db.users)) (draw_id db) (draw_id db) _
      (row_of e payload db)
  where
    chosen :
        (a b c : Bool) (x z y : Db) (row : Event)
        → CleanRow (
            if a
            then (err (repository database), x)
            else if b
            then (ok none, x)
            else if c
            then (err (repository database), z)
            else (ok (some row), y))
    chosen true b c x z y row = refl
    chosen false true c x z y row = tt
    chosen false false true x z y row = refl
    chosen false false false x z y row = tt

by_idempotency_key-Clean : (u : ℕ) (key : Bytes) (db : Db) → Clean (by_idempotency_key u key db).0
unfolding by_idempotency_key
by_idempotency_key-Clean u key db =
    after_statement-Clean
      (gets (λ db. find (conflicts u (some key)) db.events) >>= λ row. scan_event row) db
      (λ db. scan_event-Clean (find (conflicts u (some key)) db.events) db)

existing_event-Clean :
    (u : ℕ) (key : Option Bytes) (e : Error) (db : Db)
    → from_repository e ≡ true
    → Clean (existing_event u key e db).0
unfolding existing_event Clean
existing_event-Clean u (some key) (repository not_found) db h =
    continue-Clean (by_idempotency_key u key db).0 (λ e. pure (e, false)) _
      (by_idempotency_key-Clean u key db) (λ _. tt)
existing_event-Clean u key e db h = h

insert_event-Clean :
    (jsonb : Bytes → Option Bytes) (e : Event) (db : Db) → Clean (insert_event jsonb e db).0
unfolding insert_event
insert_event-Clean jsonb e db =
    after_statement-Clean (insert_row e (jsonb e.payload) >>= λ row. scan_event row) db λ db.
      continue-Clean (insert_row e (jsonb e.payload) db).0 (λ row. scan_event row) _
        (insert_row-Clean e (jsonb e.payload) db) (λ row. scan_event-Clean row _)

pub create-Clean :
    (jsonb : Bytes → Option Bytes) (e : Event) (db : Db) → Clean (Event.create jsonb e db).0
unfolding Event.create Clean
create-Clean jsonb e db =
    caught (insert_event jsonb e db).0 (insert_event jsonb e db).1 (insert_event-Clean jsonb e db)
  where
    caught :
        (r : Result Event) (db : Db)
        → Clean r
        → Clean
            (settle r
              (λ created. pure (created, true))
              (existing_event e.user_id e.idempotency_key)
              db).0
    caught (ok created) db h = tt
    caught (err x) db h = existing_event-Clean e.user_id e.idempotency_key x db h
