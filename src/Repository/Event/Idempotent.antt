-- ===== src/Repository/Event/Idempotent.antt =====
-- Storing an event a second time under its idempotency key gives back the row of the first time.
use activity_events_api.Prelude.{
  ◌≡◌, refl, ◌∙◌, Bool, true, false, not, inl, inr, Option, none, some, List, [], ◌∷◌, ◌++◌, arith,
  Bool-cases, ok, err, repository, not_found, find, any, ◌==◌, find-append,
}
use activity_events_api.Go.Text.{Bytes, bytes_eq_refl}
use activity_events_api.Models.Event.{Event}
use activity_events_api.Repository.Db.{Db, statement, take_fault}
use activity_events_api.Repository.Event.{
  conflicts, same_key, type_check, row_of, draw_id, scan_event, insert_row, insert_event,
  by_idempotency_key, existing_event, create,
}

find-none : (p : Event → Bool) (es : List Event) → any p es ≡ false → find p es ≡ none
find-none p [] h = refl
find-none p (e ∷ es) h = ground (arith, find-none p es)

find-some :
    (p : Event → Bool) (es : List Event) → any p es ≡ true → (e : Event) × (find p es ≡ some e)
find-some p [] h = absurd (cc)
find-some p (e ∷ es) h = elim (Bool-cases (p e)) [
  | inl c ↦ (e, rw c)
  | inr c ↦ let (x, q) = find-some p es (ground arith) in (x, rw c q)
]

any-find : (p : Event → Bool) (es : List Event) (e : Event) → find p es ≡ some e → any p es ≡ true
any-find p [] e h = absurd (cc)
any-find p (x ∷ es) e h = ground (arith, any-find p es e)

conflicts_own :
    (e : Event) (p : Bytes) (db : Db) (k : Bytes)
    → e.idempotency_key ≡ some k
    → conflicts e.user_id (some k) (row_of e p db) ≡ true
unfolding conflicts same_key row_of
conflicts_own e p db k h = ground (arith, bytes_eq_refl k)

statement_up : (db : Db) → db.faults ≡ [] → statement db ≡ (ok tt, db)
unfolding statement take_fault
statement_up db h = rw h

module _ (jsonb_object : Bytes → Option Bytes) where
  -- A key that the user has not used: the row is stored and can be found by its key.
  insert_event_new :
      (e : Event) (p : Bytes) (db : Db)
      → db.faults ≡ []
      → jsonb_object e.payload ≡ some p
      → type_check e.type ≡ true
      → any (conflicts e.user_id e.idempotency_key) db.events ≡ false
      → any (λ u. u.id == e.user_id) db.users ≡ true
      → insert_event jsonb_object e db
        ≡ (ok (row_of e p db), record (draw_id db) { events = db.events ++ row_of e p db ∷ [] })
  unfolding insert_event insert_row scan_event statement take_fault
  insert_event_new e p db f j t a u = rw (f, j, t, a, u)

  insert_event_conflict :
      (e : Event) (p : Bytes) (db : Db)
      → db.faults ≡ []
      → jsonb_object e.payload ≡ some p
      → type_check e.type ≡ true
      → any (conflicts e.user_id e.idempotency_key) db.events ≡ true
      → insert_event jsonb_object e db ≡ (err (repository not_found), draw_id db)
  unfolding insert_event insert_row scan_event statement take_fault
  insert_event_conflict e p db f j t a = rw (f, j, t, a)

  create_new :
      (e : Event) (p : Bytes) (db : Db)
      → db.faults ≡ []
      → jsonb_object e.payload ≡ some p
      → type_check e.type ≡ true
      → any (conflicts e.user_id e.idempotency_key) db.events ≡ false
      → any (λ u. u.id == e.user_id) db.users ≡ true
      → create jsonb_object e db ≡ (
        ok (row_of e p db, true),
        record (draw_id db) { events = db.events ++ row_of e p db ∷ [] },
      )
  unfolding create
  create_new e p db f j t a u = rw (insert_event_new e p db f j t a u)

  create_conflict :
      (e : Event) (p : Bytes) (db : Db) (k : Bytes) (x : Event)
      → db.faults ≡ []
      → jsonb_object e.payload ≡ some p
      → type_check e.type ≡ true
      → e.idempotency_key ≡ some k
      → find (conflicts e.user_id (some k)) db.events ≡ some x
      → create jsonb_object e db ≡ (ok (x, false), draw_id db)
  unfolding create existing_event by_idempotency_key draw_id scan_event
  create_conflict e p db k x f j t key found =
      let clash : any (conflicts e.user_id e.idempotency_key) db.events ≡ true =
        rw key (any-find (conflicts e.user_id (some k)) db.events x found) in
      rw (insert_event_conflict e p db f j t clash, key, statement_up (draw_id db) f, found)

  -- What two writes under one key give.
  pub record Retry (e e2 : Event) (db : Db) : Type 0 where
    pub stored : Event
    pub fresh : Bool
    pub first : (create jsonb_object e db).0 ≡ ok (stored, fresh)
    pub second : (create jsonb_object e2 (create jsonb_object e db).1).0 ≡ ok (stored, false)
    pub events :
        (create jsonb_object e2 (create jsonb_object e db).1).1.events
        ≡ (create jsonb_object e db).1.events
    pub new_key : fresh ≡ not (any (conflicts e.user_id e.idempotency_key) db.events)

  Retry-after :
      (e e2 : Event) (p2 k : Bytes) (x : Event) (db db' : Db) (fresh : Bool)
      → create jsonb_object e db ≡ (ok (x, fresh), db')
      → db'.faults ≡ []
      → find (conflicts e.user_id (some k)) db'.events ≡ some x
      → jsonb_object e2.payload ≡ some p2
      → type_check e2.type ≡ true
      → e2.idempotency_key ≡ some k
      → e2.user_id ≡ e.user_id
      → fresh ≡ not (any (conflicts e.user_id e.idempotency_key) db.events)
      → Retry e e2 db
  Retry-after e e2 p2 k x db db' fresh h f found j t key user n =
      let again = create_conflict e2 p2 db' k x f j t key (rw user found) in
      record {
        stored = x;
        fresh = fresh;
        first = rw h;
        second = rw (h, again);
        events = rw (h, again) (unfold draw_id in refl);
        new_key = n;
      }

  -- With the database up, two writes of one user of the table under one key, both with a payload that is a
  -- JSON object and a type that passes the check, whatever else they say, store one row at most: both give back the row that stands under the key, the first says that it is new exactly
  -- if the key was not there before, the second never, and the second leaves the table as it is.
  pub create_twice :
      (e e2 : Event) (p p2 k : Bytes) (db : Db)
      → db.faults ≡ []
      → jsonb_object e.payload ≡ some p
      → jsonb_object e2.payload ≡ some p2
      → type_check e.type ≡ true
      → type_check e2.type ≡ true
      → any (λ u. u.id == e.user_id) db.users ≡ true
      → e.idempotency_key ≡ some k
      → e2.idempotency_key ≡ some k
      → e2.user_id ≡ e.user_id
      → Retry e e2 db
  create_twice e e2 p p2 k db f j j2 t t2 u key key2 user =
      elim (Bool-cases (any (conflicts e.user_id e.idempotency_key) db.events)) [
        | inl old ↦
            let (x, found) = find-some (conflicts e.user_id (some k)) db.events (rw key at old) in
            Retry-after e e2 p2 k x db (draw_id db) false
              (create_conflict e p db k x f j t key found) (unfold draw_id in f)
              (unfold draw_id in found) j2 t2 key2 user (rw old)
        | inr new ↦
            Retry-after e e2 p2 k (row_of e p db) db
              (record (draw_id db) { events = db.events ++ row_of e p db ∷ [] }) true
              (create_new e p db f j t new u) (unfold draw_id in f)
              (find-append (conflicts e.user_id (some k)) db.events (row_of e p db ∷ [])
                  (find-none (conflicts e.user_id (some k)) db.events (rw key at new))
                ∙ rw (conflicts_own e p db k key))
              j2 t2 key2 user (rw new)
      ]
