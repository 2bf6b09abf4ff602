-- ===== src/Repository/Aggregation/Replay.antt =====
-- The UPSERT of the aggregation query: which rows of activity_buckets it writes, and with what.
use mathlib.Core.Path.{subst}
use activity_events_api.Prelude.{
  ℕ, ◌≡◌, ◌≢◌, ◌⊎◌, refl, ◌∙◌, Bool, true, false, ◌&&◌, ◌||◌, inl, inr, Option, none, some, List,
  [], ◌∷◌, arith, Bool-cases, length, filterb, find, any, ◌==◌, if◌then◌else◌, ==_iff, ok, err,
  repository, bucket_locked,
}
use activity_events_api.Go.Text.{Bytes}
use activity_events_api.Go.Clock.{Time, timestamptz}
use activity_events_api.Models.Event.{Event}
use activity_events_api.Models.Aggregation.{ActivityBucket}
use activity_events_api.Repository.Db.Up.{statement_up, transaction-ok, transaction-err}
use activity_events_api.Repository.Db.{Db, rolled_back}
use activity_events_api.Repository.Aggregation.{
  TypeGroup, UserGroup, add_group, rolled, per_type, groups_in, in_window, upsert, upsert_all,
  bucket_of, aggregate_query, aggregate, aggregate_body, try_lock_bucket, require_lock, lock_key,
}
use activity_events_api.Repository.Aggregation.Rollup.{
  group_of, Counts, groups-Counts, count, of_user, of_type, type_total,
}

abbrev pub bucket_at : ℕ → Time → List ActivityBucket → Option ActivityBucket
bucket_at u s bs = find (λ b. (b.user_id == u) && (b.bucket_start == s)) bs

abbrev UsersUnique : List UserGroup → Type 0
UsersUnique [] = Unit {0}
UsersUnique (x ∷ us) = (any (λ g. g.user_id == x.user_id) us ≡ false) × UsersUnique us

any-add_group :
    (v : ℕ) (g : TypeGroup) (us : List UserGroup)
    → any (λ x. x.user_id == v) (add_group g us)
      ≡ ((g.user_id == v) || any (λ x. x.user_id == v) us)
unfolding add_group
any-add_group v g [] = refl
any-add_group v g (x ∷ us) = ground (arith, any-add_group v g us)

add_group-UsersUnique :
    (g : TypeGroup) (us : List UserGroup) → UsersUnique us → UsersUnique (add_group g us)
unfolding add_group
add_group-UsersUnique g [] h = (refl, tt)
add_group-UsersUnique g (x ∷ us) h =
    ground (arith, any-add_group x.user_id g us, add_group-UsersUnique g us h.1)

rolled-UsersUnique : (gs : List TypeGroup) → UsersUnique (rolled gs)
unfolding rolled
rolled-UsersUnique [] = tt
rolled-UsersUnique (g ∷ gs) = add_group-UsersUnique g (rolled gs) (rolled-UsersUnique gs)

bucket_at-upsert :
    (u : ℕ) (s : Time) (b : ActivityBucket) (bs : List ActivityBucket)
    → bucket_at u s (upsert b bs)
      ≡ (if (b.user_id == u) && (b.bucket_start == s) then some b else bucket_at u s bs)
unfolding upsert
bucket_at-upsert u s b [] = ground arith
bucket_at-upsert u s b (c ∷ cs) = ground (arith, bucket_at-upsert u s b cs)

-- The row of a group where there is one, and the old row otherwise.
abbrev pub overlay : Time → Time → Option UserGroup → Option ActivityBucket → Option ActivityBucket
overlay start now none old = old
overlay start now (some g) old = some (bucket_of start now g)

absent : (u : ℕ) (us : List UserGroup) → any (λ g. g.user_id == u) us ≡ false → group_of u us ≡ none
absent u [] h = refl
absent u (x ∷ us) h = ground (arith, absent u us)

bucket_at-upsert_all :
    (u : ℕ) (s start now : Time) (us : List UserGroup) (bs : List ActivityBucket)
    → UsersUnique us
    → bucket_at u s (upsert_all start now us bs) ≡ (
        if timestamptz start == s
        then overlay start now (group_of u us) (bucket_at u s bs)
        else bucket_at u s bs)
unfolding upsert_all bucket_of
bucket_at-upsert_all u s start now [] bs h = ground arith
bucket_at-upsert_all u s start now (x ∷ us) bs h = elim (Bool-cases (x.user_id == u)) [
  | inl e ↦
      let gone : group_of u us ≡ none =
        absent u us
          (subst (λ v. any (λ g. g.user_id == v) us ≡ false) ((==_iff x.user_id u).0 e) h.0) in
      ground (
        arith,
        gone,
        bucket_at-upsert_all u s start now us (upsert (bucket_of start now x) bs) h.1,
        bucket_at-upsert u s (bucket_of start now x) bs,
      )
  | inr e ↦ ground (
    arith,
    bucket_at-upsert_all u s start now us (upsert (bucket_of start now x) bs) h.1,
    bucket_at-upsert u s (bucket_of start now x) bs,
  )
]

-- A row as counting the window's events describes it; `old` is the row from before.
abbrev pub Recomputed :
    ℕ → Time → Time → List Event → Option ActivityBucket → Option ActivityBucket → Type 0
Recomputed u start now window old none = (count (of_user u) window ≡ 0) × (old ≡ none)
Recomputed u start now window old (some b) =
    ((count (of_user u) window ≡ 0) × (old ≡ some b))
    ⊎ ((b.event_count ≡ count (of_user u) window)
        × ((t : Bytes) → type_total t b.type_counts ≡ count (of_type u t) window)
        × (b.computed_at ≡ timestamptz now))

overlay-Recomputed :
    (u : ℕ) (start now : Time) (window : List Event) (g : Option UserGroup)
    (old : Option ActivityBucket)
    → Counts u window g
    → Recomputed u start now window old (overlay start now g old)
unfolding bucket_of
overlay-Recomputed u start now window none none c = (c, refl)
overlay-Recomputed u start now window none (some b) c = inl (c, refl)
overlay-Recomputed u start now window (some g) old c = inr (c.0, c.1, refl)

module _ (start end' : Time) (db : Db) where
  window_rows : List Event
  window_rows = filterb (in_window start end') db.events

  query_at :
      (u : ℕ) (s : Time)
      → bucket_at u s (aggregate_query start end' db).buckets ≡ (
          if timestamptz start == s
          then overlay start db.clock
              (group_of u (groups_in start end' db.events))
              (bucket_at u s db.buckets)
          else bucket_at u s db.buckets)
  unfolding aggregate_query groups_in
  query_at u s =
      bucket_at-upsert_all u s start db.clock
        (rolled (per_type (filterb (in_window start end') db.events))) db.buckets
        (rolled-UsersUnique (per_type (filterb (in_window start end') db.events)))

  -- After the query, a user's row of the window counts exactly the events that the table holds for that
  -- user in the window, in all and by type, and is marked with the present time; a user with no event
  -- there keeps the old row, or has none.
  pub aggregate_query-counts :
      (u : ℕ)
      → Recomputed u start db.clock
          (filterb (in_window start end') db.events)
          (bucket_at u (timestamptz start) db.buckets)
          (bucket_at u (timestamptz start) (aggregate_query start end' db).buckets)
  aggregate_query-counts u =
      rw (query_at u (timestamptz start), (==_iff (timestamptz start) (timestamptz start)).1 refl)
        (unfold groups_in in
          overlay-Recomputed u start db.clock (filterb (in_window start end') db.events) _ _
            (groups-Counts u (filterb (in_window start end') db.events)))

  -- Rows of other windows than the aggregated one are left alone by the query.
  pub aggregate_query-other :
      (u : ℕ) (s : Time)
      → timestamptz start ≢ s
      → bucket_at u s (aggregate_query start end' db).buckets ≡ bucket_at u s db.buckets
  aggregate_query-other u s h = rw (query_at u s) (ground arith)

overlay_twice :
    (c : Bool) (start now : Time) (g : Option UserGroup) (old : Option ActivityBucket)
    → (if c
        then overlay start now g (if c then overlay start now g old else old)
        else (if c then overlay start now g old else old))
      ≡ (if c then overlay start now g old else old)
overlay_twice true start now none old = refl
overlay_twice true start now (some g) old = refl
overlay_twice false start now g old = refl

-- With the same events and clock, a second run of the query changes no row.
pub aggregate_query_twice :
    (start end' : Time) (db : Db) (u : ℕ) (s : Time)
    → bucket_at u s (aggregate_query start end' (aggregate_query start end' db)).buckets
      ≡ bucket_at u s (aggregate_query start end' db).buckets
aggregate_query_twice start end' db u s =
    query_at start end' (aggregate_query start end' db) u s
    ∙ rw (query_at start end' db u s) (
        unfold aggregate_query in
        overlay_twice (timestamptz start == s) start db.clock
          (group_of u (groups_in start end' db.events)) (bucket_at u s db.buckets))

module _ (start end' : Time) (db : Db) (up : db.faults ≡ []) where
  body_held :
      any (λ k. k == lock_key start) db.locked ≡ true
      → aggregate_body start end' db ≡ (err (repository bucket_locked), db)
  unfolding aggregate_body try_lock_bucket require_lock
  body_held held = rw (statement_up db up, held)

  body_free :
      any (λ k. k == lock_key start) db.locked ≡ false
      → aggregate_body start end' db
        ≡ (ok (length (groups_in start end' db.events)), aggregate_query start end' db)
  unfolding aggregate_body try_lock_bucket require_lock
  body_free free = rw (statement_up db up, free, statement_up db up)

  -- With the database up, aggregation of a window that nobody has locked runs the query and reports the
  -- number of its groups; a locked window is refused, and nothing changes.
  pub aggregate_up : aggregate start end' db ≡ (
      if any (λ k. k == lock_key start) db.locked
      then (err (repository bucket_locked), db)
      else (ok (length (groups_in start end' db.events)), aggregate_query start end' db))
  unfolding aggregate
  aggregate_up = elim (Bool-cases (any (λ k. k == lock_key start) db.locked)) [
    | inl held ↦
        rw (held, transaction-err (aggregate_body start end') db db up _ (body_held held))
          (unfold rolled_back in refl)
    | inr free ↦ rw (
      free,
      transaction-ok (aggregate_body start end') db (aggregate_query start end' db) up _
          (body_free free) (unfold aggregate_query in up),
    )
  ]
