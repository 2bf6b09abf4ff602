-- ===== src/Repository/Event.antt =====
-- internal/repository/event.go and the table events of migrations/00004_events.sql.
pub mod Idempotent
pub mod Batch
pub mod Failures
pub mod Keys
pub mod Order
pub mod Newest
pub mod Stable
use activity_events_api.Prelude.{
  ℕ, suc, Bool, true, false, not, ◌&&◌, ◌||◌, Option, none, some, List, [], ◌∷◌, ◌++◌, Result, ok,
  err, Error, repository, database, not_found, Exec, ◌>>=◌, ◌>>◌, catch, raise, pure, length, leb,
  ltb, ◌==◌, if◌then◌else◌, find, any, take, filterb, gets, settle,
}
use activity_events_api.Prelude.Int.{ℤ, pos, ltb_ℤ}
use activity_events_api.Go.Text.{Bytes, bytes_eq}
use activity_events_api.Go.Clock.{Time, timestamptz}
use activity_events_api.Models.Event.{Event, max_event_type_len}
use activity_events_api.Repository.Db.{Db, statement, transaction}

unfoldable pub same_key : Option Bytes → Option Bytes → Bool
same_key none k = false
same_key (some j) none = false
same_key (some j) (some k) = bytes_eq j k

-- The rows that the unique index (user_id, idempotency_key) compares with a new one.
unfoldable pub conflicts : ℕ → Option Bytes → Event → Bool
unfolding same_key
conflicts uid key row = (row.user_id == uid) && same_key row.idempotency_key key

-- A byte of UTF-8 that is not the first of its character.
unfoldable pub continues : ℕ → Bool
continues b = leb 128 b && ltb b 192

-- length(text), in characters
unfoldable pub char_length : Bytes → ℕ
unfolding continues
char_length t = length (filterb (λ b. not (continues b)) t)

-- type <> '' AND length(type) <= 64
unfoldable pub type_check : Bytes → Bool
unfolding char_length
type_check t = ltb 0 (length t) && leb (char_length t) max_event_type_len

pub record EventFilter : Type 0 where
  pub user_id : ℕ
  -- the empty list is the nil slice, which is sent as NULL
  pub types : List Bytes
  pub from : Option Time
  pub to : Option Time
  pub limit : ℕ
  pub before_time : Option Time
  pub before_id : Option ℤ

-- (occurred_at, id) < (t, i)
unfoldable pub row_before : Time → ℕ → Time → ℤ → Bool
row_before occurred_at id t i = ltb occurred_at t || (occurred_at == t && ltb_ℤ (pos id) i)

unfoldable pub one_of : Bytes → List Bytes → Bool
one_of t [] = true
one_of t (u ∷ us) = any (bytes_eq t) (u ∷ us)

unfoldable pub not_earlier : Time → Option Time → Bool
not_earlier t none = true
not_earlier t (some from) = leb (timestamptz from) t

unfoldable pub earlier : Time → Option Time → Bool
earlier t none = true
earlier t (some to) = ltb t (timestamptz to)

-- With a NULL on one side only, the comparison of rows can be NULL, which WHERE takes for false.
unfoldable pub behind_cursor : Event → Option Time → Option ℤ → Bool
unfolding row_before
behind_cursor e none id = true
behind_cursor e (some t) none = ltb e.occurred_at (timestamptz t)
behind_cursor e (some t) (some i) = row_before e.occurred_at e.id (timestamptz t) i

unfoldable pub matches : EventFilter → Event → Bool
unfolding one_of not_earlier earlier behind_cursor
matches f e =
    (e.user_id == f.user_id)
    && one_of e.type f.types
    && not_earlier e.occurred_at f.from
    && earlier e.occurred_at f.to
    && behind_cursor e f.before_time f.before_id

-- ORDER BY occurred_at DESC, id DESC
unfoldable pub newer : Event → Event → Bool
newer d e = ltb e.occurred_at d.occurred_at || (e.occurred_at == d.occurred_at && ltb e.id d.id)

unfoldable pub insert_sorted : Event → List Event → List Event
unfolding newer
insert_sorted e [] = e ∷ []
insert_sorted e (x ∷ xs) =
    let rest = insert_sorted e xs in if newer x e then x ∷ rest else e ∷ x ∷ xs

unfoldable pub order_by_newest : List Event → List Event
unfolding insert_sorted
order_by_newest [] = []
order_by_newest (e ∷ es) = insert_sorted e (order_by_newest es)

unfoldable pub select_events : EventFilter → List Event → List Event
unfolding matches order_by_newest
select_events f rows = take f.limit (order_by_newest (filterb (matches f) rows))

unfoldable pub list : EventFilter → Exec Db (List Event)
unfolding select_events statement
list f = do statement; gets (λ db. select_events f db.events)

unfoldable pub row_of : Event → Bytes → Db → Event
row_of e payload db = record e {
  id = db.next_event_id;
  payload = payload;
  occurred_at = timestamptz e.occurred_at;
  created_at = timestamptz db.clock;
}

unfoldable pub draw_id : Db → Db
draw_id db = record db { next_event_id = suc db.next_event_id }

-- The row, or `none` where ON CONFLICT DO NOTHING skips it. An id is drawn either way.
unfoldable pub insert_row : Event → Option Bytes → Db → Result (Option Event) × Db
unfolding row_of draw_id conflicts type_check
insert_row e none db = (err (repository database), db)
insert_row e (some payload) db =
    if not (type_check e.type)
    then (err (repository database), draw_id db)
    else if any (conflicts e.user_id e.idempotency_key) db.events
    then (ok none, draw_id db)
    else if not (any (λ u. u.id == e.user_id) db.users)
    then (err (repository database), draw_id db)
    else (
      ok (some (row_of e payload db)),
      record (draw_id db) { events = db.events ++ row_of e payload db ∷ [] },
    )

-- No row is `pgx.ErrNoRows`, which becomes `ErrNotFound`.
unfoldable pub scan_event : Option Event → Exec Db Event
scan_event none = raise (repository not_found)
scan_event (some e) = pure e

unfoldable pub by_idempotency_key : ℕ → Bytes → Exec Db Event
unfolding scan_event statement conflicts
by_idempotency_key uid key = do
  statement
  row ← gets (λ db. find (conflicts uid (some key)) db.events)
  scan_event row

unfoldable pub existing_event : ℕ → Option Bytes → Error → Exec Db (Event × Bool)
unfolding by_idempotency_key
existing_event uid (some key) (repository not_found) = do
  existing ← by_idempotency_key uid key
  pure (existing, false)
existing_event uid key e = raise e

-- `ErrNotFound` counts as a duplicate, and any other error ends the loop.
unfoldable pub after_refusal : Error → Exec Db (List Event × ℕ) → Exec Db (List Event × ℕ)
after_refusal (repository not_found) rest = rest
after_refusal e rest = raise e

-- `jsonb_object` stands for the type jsonb: the text as it is stored, `none` if it is no JSON object.
module _ (jsonb_object : Bytes → Option Bytes) where
  unfoldable pub insert_event : Event → Exec Db Event
  unfolding insert_row scan_event statement
  insert_event e = do statement; row ← insert_row e (jsonb_object e.payload); scan_event row

  unfoldable pub create : Event → Exec Db (Event × Bool)
  unfolding insert_event existing_event
  create e =
      catch (insert_event e) (λ created. pure (created, true))
        (existing_event e.user_id e.idempotency_key)

  unfoldable pub insert_all : List Event → List Event → ℕ → Exec Db (List Event × ℕ)
  unfolding insert_event after_refusal
  insert_all [] stored duplicates = pure (stored, duplicates)
  insert_all (e ∷ es) stored duplicates = λ db.
      settle (insert_event e db).0 (λ created. insert_all es (stored ++ created ∷ []) duplicates)
        (λ x. after_refusal x (insert_all es stored (suc duplicates))) (insert_event e db).1

  unfoldable pub create_batch : List Event → Exec Db (List Event × ℕ)
  unfolding insert_all transaction
  create_batch [] = pure ([], 0)
  create_batch (e ∷ es) = transaction (insert_all (e ∷ es) [] 0)
