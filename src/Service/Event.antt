-- ===== src/Service/Event.antt =====
-- internal/service/event.go. The interfaces EventRepository, EventPublisher and EventMetrics are the
-- fields of `EventDeps`, over any world `W` that they change; a nil publisher or metrics is `none`.
pub mod Cursor
pub mod Page
pub mod Walk
pub mod Accepted
use activity_events_api.Prelude.{
  ℕ, zero, suc, ◌+◌, ◌-◌, ◌*◌, Bool, true, false, not, ◌&&◌, ◌||◌, Option, none, some, List, [],
  ◌∷◌, ◌++◌, Result, ok, err, Error, service, invalid_event_type, invalid_event_payload,
  event_time_out_of_range, invalid_idempotency_key, duplicate_idempotency_key, empty_batch,
  batch_too_large, invalid_cursor, invalid_time_range, Exec, ◌>>=◌, ◌>>◌, raise, pure, lift, effect,
  reading, length, take, any, leb, ltb, ◌==◌, then_ok, if◌then◌else◌,
}
use activity_events_api.Prelude.Int.{ℤ, pos, negsuc}
use activity_events_api.Go.Text.{Bytes, codes, bytes_eq, trim_space}
use activity_events_api.Go.Clock.{Time, Duration, minute, hour, before, after}
use activity_events_api.Models.Event.{
  Event, max_event_type_len, max_payload_bytes, normalize_event_type,
}
use activity_events_api.Repository.Event.{EventFilter}
use Page.{EventQuery, EventPage, filter_of, page_of}

abbrev pub max_batch_events : ℕ
max_batch_events = 100

abbrev pub max_idempotency_key_len : ℕ
max_idempotency_key_len = 128

abbrev pub max_clock_skew : Duration
max_clock_skew = 5 * minute

abbrev pub max_event_age : Duration
max_event_age = 90 * 24 * hour

pub record EventDeps (W : Type 0) : Type 0 where
  pub create : Event → Exec W (Event × Bool)
  pub create_batch : List Event → Exec W (List Event × ℕ)
  pub list : EventFilter → Exec W (List Event)
  pub publish : Option (Event → W → W)
  pub event_ingested : Option (Bool → W → W)
  pub now : W → Time × W
  -- whether `json.Unmarshal` reads the text into a `map[string]any`
  pub unmarshals_to_object : Bytes → Bool

pub record EventInput : Type 0 where
  pub type : Bytes
  pub payload : Bytes
  pub occurred_at : Option Time
  pub idempotency_key : Bytes

pub record BatchResult : Type 0 where
  pub created : List Event
  pub duplicates : ℕ

-- A nil interface is left alone.
call_if {ℓ} : {A : Type ℓ} {W : Type 0} → Option (A → W → W) → A → W → W
call_if none a w = w
call_if (some f) a w = f a w

unfoldable pub normalize_payload : (Bytes → Bool) → Bytes → Result Bytes
normalize_payload unmarshals payload =
    let trimmed = trim_space payload in
    if (length trimmed == 0) || bytes_eq trimmed (codes "null")
    then ok (codes "{}")
    else if ltb max_payload_bytes (length trimmed)
    then err (service invalid_event_payload)
    else if unmarshals trimmed
    then ok trimmed
    else err (service invalid_event_payload)

check_type : Bytes → Result Bytes
check_type raw =
    let event_type = normalize_event_type raw in
    if (length event_type == 0) || ltb max_event_type_len (length event_type)
    then err (service invalid_event_type)
    else ok event_type

time_or_now : Option Time → Time → Time
time_or_now none now = now
time_or_now (some t) now = t

check_time : Time → Time → Result Time
check_time now occurred_at =
    if after occurred_at (now + max_clock_skew) || before occurred_at (now - max_event_age)
    then err (service event_time_out_of_range)
    else ok occurred_at

check_key : Bytes → Result (Option Bytes)
check_key raw =
    let key = trim_space raw in
    if length key == 0
    then ok none
    else if ltb max_idempotency_key_len (length key)
    then err (service invalid_idempotency_key)
    else ok (some key)

-- `keys` are the idempotency keys seen so far in a batch.
key_seen : Option Bytes → List Bytes → Bool
key_seen none keys = false
key_seen (some k) keys = any (bytes_eq k) keys

check_fresh : Option Bytes → List Bytes → Result (Unit {0})
unfolding key_seen
check_fresh key keys = if key_seen key keys then err (service duplicate_idempotency_key) else ok tt

note_key : Option Bytes → List Bytes → List Bytes
note_key none keys = keys
note_key (some k) keys = k ∷ keys

check_batch_size : ℕ → Result (Unit {0})
check_batch_size n =
    if n == 0
    then err (service empty_batch)
    else if ltb max_batch_events n
    then err (service batch_too_large)
    else ok tt

module _ {W : Type 0} (d : EventDeps W) where
  unfoldable pub normalize : ℕ → EventInput → Exec W Event
  unfolding check_type normalize_payload check_time check_key time_or_now
  normalize user_id in' = do
    event_type ← lift (check_type in'.type)
    payload ← lift (normalize_payload d.unmarshals_to_object in'.payload)
    now ← reading d.now
    occurred_at ← lift (check_time now (time_or_now in'.occurred_at now))
    key ← lift (check_key in'.idempotency_key)
    pure (record {
      id = 0;
      user_id = user_id;
      type = event_type;
      payload = payload;
      occurred_at = occurred_at;
      created_at = 0;
      idempotency_key = key;
    })

  publish : Event → W → W
  unfolding call_if
  publish = call_if d.publish

  ingested : Bool → W → W
  unfolding call_if
  ingested = call_if d.event_ingested

  unfoldable pub announce : Event × Bool → W → W
  unfolding publish ingested
  announce (stored, true) w = publish stored (ingested true w)
  announce (stored, false) w = ingested false w

  -- `Record`
  unfoldable pub record_event : ℕ → EventInput → Exec W (Event × Bool)
  unfolding normalize announce
  record_event user_id in' = do
    event ← normalize user_id in'
    result ← d.create event
    effect (announce result)
    pure result

  unfoldable pub normalize_all : ℕ → List EventInput → List Bytes → Exec W (List Event)
  unfolding normalize check_fresh note_key
  normalize_all user_id [] keys = pure []
  normalize_all user_id (item ∷ items) keys = do
    event ← normalize user_id item
    lift (check_fresh event.idempotency_key keys)
    events ← normalize_all user_id items (note_key event.idempotency_key keys)
    pure (event ∷ events)

  announce_created : List Event → W → W
  unfolding publish ingested
  announce_created [] w = w
  announce_created (e ∷ es) w = announce_created es (publish e (ingested true w))

  announce_duplicates : ℕ → W → W
  unfolding ingested
  announce_duplicates zero w = w
  announce_duplicates (suc n) w = announce_duplicates n (ingested false w)

  unfoldable pub record_batch : ℕ → List EventInput → Exec W BatchResult
  unfolding normalize_all announce_created announce_duplicates check_batch_size
  record_batch user_id items = do
    lift (check_batch_size (length items))
    events ← normalize_all user_id items []
    result ← d.create_batch events
    effect (announce_created result.0)
    effect (announce_duplicates result.1)
    pure (record { created = result.0; duplicates = result.1 })

  -- `List`
  unfoldable pub list_events : EventQuery → Exec W EventPage
  unfolding filter_of page_of
  list_events q = do
    filter ← lift (filter_of q)
    events ← d.list filter
    pure (page_of filter.limit events)
