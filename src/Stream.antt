-- ===== src/Stream.antt =====
-- internal/stream/broker.go: the live feed. A `*subscriber` is the position of its channel in `channels`,
-- where closed channels stay; `subs` is the map from users to sets of subscribers. `cancel` is two steps,
-- since the channel is closed after the lock is given back: other calls can come between them.
pub mod Safety
pub mod Reach
use activity_events_api.Prelude.{
  ℕ, zero, suc, ◌+◌, Bool, true, false, not, Option, none, some, List, [], ◌∷◌, ◌++◌, length, ltb,
  ◌==◌, if◌then◌else◌, filterb,
}
use activity_events_api.Models.Event.{Event}

abbrev pub default_buffer : ℕ
default_buffer = 32

-- `once` and `user_id` are what the channel's `cancel` closes over.
pub record Channel : Type 0 where
  pub user_id : ℕ
  pub buffered : List Event
  pub closed : Bool
  pub once : Bool

pub record Broker : Type 0 where
  pub buffer : ℕ
  pub subs : List (ℕ × List ℕ)
  pub channels : List Channel
  pub dropped : ℕ

unfoldable pub new_broker : Broker
new_broker = record { buffer = default_buffer; subs = []; channels = []; dropped = 0 }

module _ {ℓ} {A : Type ℓ} where
  abbrev pub get_elem? : List A → ℕ → Option A
  get_elem? [] i = none
  get_elem? (x ∷ xs) zero = some x
  get_elem? (x ∷ xs) (suc i) = get_elem? xs i

  abbrev pub set : List A → ℕ → A → List A
  set [] i v = []
  set (x ∷ xs) zero v = v ∷ xs
  set (x ∷ xs) (suc i) v = x ∷ set xs i v

-- `b.subs[userID]`, the empty set where the map has no entry
unfoldable pub subscribers_of : ℕ → List (ℕ × List ℕ) → List ℕ
subscribers_of user [] = []
subscribers_of user ((u, ids) ∷ subs) = if u == user then ids else subscribers_of user subs

unfoldable pub add_subscriber : ℕ → ℕ → List (ℕ × List ℕ) → List (ℕ × List ℕ)
add_subscriber user id [] = (user, id ∷ []) ∷ []
add_subscriber user id ((u, ids) ∷ subs) =
    if u == user then (u, id ∷ ids) ∷ subs else (u, ids) ∷ add_subscriber user id subs

-- `delete`, and the entry itself when its set is empty
unfoldable pub put_back : ℕ → List ℕ → List (ℕ × List ℕ) → List (ℕ × List ℕ)
put_back u [] subs = subs
put_back u (id ∷ ids) subs = (u, id ∷ ids) ∷ subs

unfoldable pub delete_subscriber : ℕ → ℕ → List (ℕ × List ℕ) → List (ℕ × List ℕ)
unfolding put_back
delete_subscriber user id [] = []
delete_subscriber user id ((u, ids) ∷ subs) =
    if u == user
    then put_back u (filterb (λ j. not (j == id)) ids) (delete_subscriber user id subs)
    else (u, ids) ∷ delete_subscriber user id subs

unfoldable pub subscribe : ℕ → Broker → ℕ × Broker
subscribe user b = (
  length b.channels,
  record b {
    subs = add_subscriber user (length b.channels) b.subs;
    channels =
        b.channels ++ record { user_id = user; buffered = []; closed = false; once = false } ∷ [];
  },
)

-- The part of `cancel` under the lock. The second call of one channel finds its `once` done.
unfoldable pub detach : Option Channel → ℕ → Broker → Broker
detach none id b = b
detach (some c) id b = if c.once then b else record b {
  subs = delete_subscriber c.user_id id b.subs;
  channels = set b.channels id (record c { once = true });
}

unfoldable pub begin_cancel : ℕ → Broker → Broker
unfolding detach
begin_cancel id b = detach (get_elem? b.channels id) id b

-- `close(sub.events)`
unfoldable pub shut : Option Channel → ℕ → Broker → Broker
shut none id b = b
shut (some c) id b = record b { channels = set b.channels id (record c { closed = true }) }

unfoldable pub finish_cancel : ℕ → Broker → Broker
unfolding shut
finish_cancel id b = shut (get_elem? b.channels id) id b

-- `select { case sub.events <- e: … default: … }`; a send on a closed channel panics, `none`.
unfoldable pub offer : Event → Channel → ℕ → Broker → Option Broker
offer e c id b =
    if c.closed
    then none
    else if ltb (length c.buffered) b.buffer
    then some
        (record b { channels = set b.channels id (record c { buffered = c.buffered ++ e ∷ [] }) })
    else some (record b { dropped = suc b.dropped })

unfoldable pub send : Event → Option Channel → ℕ → Broker → Option Broker
unfolding offer
send e none id b = none
send e (some c) id b = offer e c id b

unfoldable pub send_all : Event → List ℕ → Option Broker → Option Broker
unfolding send
send_all e [] b = b
send_all e (id ∷ ids) none = none
send_all e (id ∷ ids) (some b) = send_all e ids (send e (get_elem? b.channels id) id b)

unfoldable pub publish : Event → Broker → Option Broker
unfolding send_all
publish e b = send_all e (subscribers_of e.user_id b.subs) (some b)

-- The reader takes the oldest event.
unfoldable pub from_buffer : List Event → Channel → ℕ → Broker → Option Event × Broker
from_buffer [] c id b = (none, b)
from_buffer (e ∷ es) c id b =
    (some e, record b { channels = set b.channels id (record c { buffered = es }) })

unfoldable pub take_oldest : Option Channel → ℕ → Broker → Option Event × Broker
unfolding from_buffer
take_oldest none id b = (none, b)
take_oldest (some c) id b = from_buffer c.buffered c id b

unfoldable pub receive : ℕ → Broker → Option Event × Broker
unfolding take_oldest
receive id b = take_oldest (get_elem? b.channels id) id b

unfoldable pub subscribers : ℕ → Broker → ℕ
subscribers user b = length (subscribers_of user b.subs)
