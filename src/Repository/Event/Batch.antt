-- ===== src/Repository/Event/Batch.antt =====
-- A batch is stored whole or not at all, and every event of it is accounted for.
use mathlib.Core.List.{append_assoc, append-nil}
use activity_events_api.Prelude.{
  ℕ, suc, ◌+◌, ◌≡◌, refl, sym, ap, ◌∙◌, Bool, true, false, inl, inr, Option, none, some, List, [],
  ◌∷◌, ◌++◌, arith, Bool-cases, Result, ok, err, Error, repository, not_found, length, ◌>>=◌,
  settle, Exec, any, ◌==◌, continue,
}
use activity_events_api.Go.Text.{Bytes}
use activity_events_api.Models.Event.{Event}
use activity_events_api.Repository.Db.{
  Db, statement, take_fault, transaction, settle_tx, close, rolled_back,
}
use activity_events_api.Repository.Event.{
  draw_id, scan_event, insert_row, type_check, conflicts, insert_event, insert_all, after_refusal,
  create_batch,
}

-- What a statement leaves of the table, by its result.
abbrev Grown : Result Event → Db → Db → Type 0
Grown (ok x) old new = new.events ≡ old.events ++ x ∷ []
Grown (err e) old new = new.events ≡ old.events

take_fault-events : (fs : List Bool) (db : Db) → (take_fault fs db).1.events ≡ db.events
unfolding take_fault
take_fault-events [] db = refl
take_fault-events (true ∷ fs) db = refl
take_fault-events (false ∷ fs) db = refl

statement-events : (db : Db) → (statement db).1.events ≡ db.events
unfolding statement
statement-events db = take_fault-events db.faults db

insert_row-Grown :
    (e : Event) (p : Option Bytes) (db : Db)
    → Grown ((insert_row e p >>= scan_event) db).0 db ((insert_row e p >>= scan_event) db).1
unfolding insert_row scan_event draw_id
insert_row-Grown e none db = refl
insert_row-Grown e (some p) db = elim (Bool-cases (type_check e.type)) [
  | inr t ↦ rw t
  | inl t ↦ elim (Bool-cases (any (conflicts e.user_id e.idempotency_key) db.events)) [
    | inl c ↦ rw (t, c)
    | inr c ↦ elim (Bool-cases (any (λ u. u.id == e.user_id) db.users)) [
      | inl u ↦ rw (t, c, u)
      | inr u ↦ rw (t, c, u)
    ]
  ]
]

Grown-from : (r : Result Event) (a b c : Db) → b.events ≡ a.events → Grown r b c → Grown r a c
Grown-from (ok x) a b c h g = g ∙ ap (λ l. l ++ x ∷ []) h
Grown-from (err e) a b c h g = g ∙ h

-- What the loop over a batch leaves, by its result.
abbrev Counted : List Event → List Event → ℕ → Result (List Event × ℕ) → Db → Db → Type 0
Counted es stored n (ok (s, m)) old new =
    (rows : List Event) × (s ≡ stored ++ rows)
    × (new.events ≡ old.events ++ rows)
    × (length rows + m ≡ length es + n)
Counted es stored n (err e) old new = Unit {0}

Counted-stored :
    (r : Result (List Event × ℕ)) (es stored : List Event) (n : ℕ) (e x : Event) (db new last : Db)
    → new.events ≡ db.events ++ x ∷ []
    → Counted es (stored ++ x ∷ []) n r new last
    → Counted (e ∷ es) stored n r db last
Counted-stored (ok (s, m)) es stored n e x db new last g (rows, hs, he, hc) = (
  x ∷ rows,
  hs ∙ append_assoc stored (x ∷ []) rows,
  he ∙ ap (λ l. l ++ rows) g ∙ append_assoc db.events (x ∷ []) rows,
  omega arith,
)
Counted-stored (err y) es stored n e x db new last g c = tt

Counted-skipped :
    (r : Result (List Event × ℕ)) (es stored : List Event) (n : ℕ) (e : Event) (db new last : Db)
    → new.events ≡ db.events
    → Counted es stored (suc n) r new last
    → Counted (e ∷ es) stored n r db last
Counted-skipped (ok (s, m)) es stored n e db new last g (rows, hs, he, hc) =
    (rows, hs, he ∙ ap (λ l. l ++ rows) g, omega arith)
Counted-skipped (err y) es stored n e db new last g c = tt

after_statement :
    (r : Result (Unit {0})) (k : Exec Db Event) (db new : Db)
    → new.events ≡ db.events
    → Grown (k new).0 new (k new).1
    → Grown (continue r (λ _. k) new).0 db (continue r (λ _. k) new).1
after_statement (ok _) k db new h g = Grown-from (k new).0 db new (k new).1 h g
after_statement (err e) k db new h g = h

module _ (jsonb_object : Bytes → Option Bytes) where
  insert_event-Grown :
      (e : Event) (db : Db)
      → Grown (insert_event jsonb_object e db).0 db (insert_event jsonb_object e db).1
  unfolding insert_event
  insert_event-Grown e db =
      after_statement (statement db).0 (insert_row e (jsonb_object e.payload) >>= scan_event) db
        (statement db).1 (statement-events db)
        (insert_row-Grown e (jsonb_object e.payload) (statement db).1)

  refused :
      (es stored : List Event) (n : ℕ) (e : Event) (x : Error) (db new : Db)
      → new.events ≡ db.events
      → ((n' : ℕ)
          → Counted es stored n'
              (insert_all jsonb_object es stored n' new).0
              new
              (insert_all jsonb_object es stored n' new).1)
      → Counted
          (e ∷ es)
          stored
          n
          (after_refusal x (insert_all jsonb_object es stored (suc n)) new).0
          db
          (after_refusal x (insert_all jsonb_object es stored (suc n)) new).1
  unfolding after_refusal
  refused es stored n e (repository not_found) db new g ih =
      Counted-skipped (insert_all jsonb_object es stored (suc n) new).0 es stored n e db new
        (insert_all jsonb_object es stored (suc n) new).1 g (ih (suc n))
  refused es stored n e x db new g ih = tt

  one_round :
      (es stored : List Event) (n : ℕ) (e : Event) (r : Result Event) (db new : Db)
      → Grown r db new
      → ((stored' : List Event) (n' : ℕ)
          → Counted es stored' n'
              (insert_all jsonb_object es stored' n' new).0
              new
              (insert_all jsonb_object es stored' n' new).1)
      → Counted
          (e ∷ es)
          stored
          n
          (settle r
            (λ created. insert_all jsonb_object es (stored ++ created ∷ []) n)
            (λ x. after_refusal x (insert_all jsonb_object es stored (suc n)))
            new).0
          db
          (settle r
            (λ created. insert_all jsonb_object es (stored ++ created ∷ []) n)
            (λ x. after_refusal x (insert_all jsonb_object es stored (suc n)))
            new).1
  one_round es stored n e (ok x) db new g ih =
      Counted-stored (insert_all jsonb_object es (stored ++ x ∷ []) n new).0 es stored n e x db new
        (insert_all jsonb_object es (stored ++ x ∷ []) n new).1 g (ih (stored ++ x ∷ []) n)
  one_round es stored n e (err x) db new g ih = refused es stored n e x db new g (ih stored)

  insert_all-Counted :
      (es stored : List Event) (n : ℕ) (db : Db)
      → Counted es stored n
          (insert_all jsonb_object es stored n db).0
          db
          (insert_all jsonb_object es stored n db).1
  unfolding insert_all
  insert_all-Counted [] stored n db =
      ([], sym (append-nil stored), sym (append-nil db.events), refl)
  insert_all-Counted (e ∷ es) stored n db =
      one_round es stored n e (insert_event jsonb_object e db).0 db
        (insert_event jsonb_object e db).1 (insert_event-Grown e db)
        (λ stored' n'. insert_all-Counted es stored' n' (insert_event jsonb_object e db).1)

-- What a whole batch leaves: every event of it stored or counted, or nothing written.
abbrev pub Whole : List Event → Result (List Event × ℕ) → Db → Db → Type 0
Whole es (ok (stored, duplicates)) old new =
    (new.events ≡ old.events ++ stored) × (length stored + duplicates ≡ length es)
Whole es (err e) old new = new.events ≡ old.events

close-Whole :
    (es s : List Event) (m : ℕ) (r : Result (Unit {0})) (old new : Db)
    → new.events ≡ old.events ++ s
    → length s + m ≡ length es
    → Whole es
        (close {A = List Event × ℕ} old (s, m) (r, new)).0
        old
        (close {A = List Event × ℕ} old (s, m) (r, new)).1
unfolding close rolled_back
close-Whole es s m (ok _) old new h c = (h, c)
close-Whole es s m (err e) old new h c = refl

settle_tx-Whole :
    (es : List Event) (r : Result (List Event × ℕ)) (old start new : Db)
    → start.events ≡ old.events
    → Counted es [] 0 r start new
    → Whole es (settle_tx old (r, new)).0 old (settle_tx old (r, new)).1
unfolding settle_tx rolled_back
settle_tx-Whole es (ok (s, m)) old start new h (rows, hs, he, hc) =
    close-Whole es s m (statement new).0 old (statement new).1
      (statement-events new ∙ he ∙ ap (λ l. l ++ rows) h ∙ ap (λ l. old.events ++ l) (sym hs))
      (omega (arith, ap length hs))
settle_tx-Whole es (err e) old start new h c = refl

Whole-from :
    (r : Result (List Event × ℕ)) (es : List Event) (a b c : Db)
    → b.events ≡ a.events
    → Whole es r b c
    → Whole es r a c
Whole-from (ok (s, m)) es a b c h w = (w.0 ∙ ap (λ l. l ++ s) h, w.1)
Whole-from (err e) es a b c h w = w ∙ h

begin-Whole :
    (es : List Event) (r : Result (Unit {0})) (body : Exec Db (List Event × ℕ)) (db new : Db)
    → new.events ≡ db.events
    → Whole es (settle_tx new (body new)).0 new (settle_tx new (body new)).1
    → Whole es
        (continue r (λ _ start. settle_tx start (body start)) new).0
        db
        (continue r (λ _ start. settle_tx start (body start)) new).1
begin-Whole es (ok _) body db new h w = Whole-from _ es db new _ h w
begin-Whole es (err e) body db new h w = h

module _ (jsonb_object : Bytes → Option Bytes) where
  -- Whatever statements fail: if the batch is accepted, the rows that it reports are added at the end of
  -- the table and nothing else, and with the duplicates they are as many as the events given; if it is
  -- refused, the table is as it was.
  pub create_batch-Whole :
      (es : List Event) (db : Db)
      → Whole es (create_batch jsonb_object es db).0 db (create_batch jsonb_object es db).1
  unfolding create_batch transaction
  create_batch-Whole [] db = (sym (append-nil db.events), refl)
  create_batch-Whole (e ∷ es) db =
      let start = (statement db).1 in
      begin-Whole (e ∷ es) (statement db).0 (insert_all jsonb_object (e ∷ es) [] 0) db start
        (statement-events db)
        (settle_tx-Whole (e ∷ es) (insert_all jsonb_object (e ∷ es) [] 0 start).0 start start
          (insert_all jsonb_object (e ∷ es) [] 0 start).1 refl
          (insert_all-Counted jsonb_object (e ∷ es) [] 0 start))
