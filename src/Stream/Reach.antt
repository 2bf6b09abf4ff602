-- ===== src/Stream/Reach.antt =====
-- All interleavings of the broker's calls, as steps; a cancel may be cut between its two parts.
use mathlib.Core.Path.{subst}
use activity_events_api.Prelude.{
  ℕ, zero, suc, ◌≡◌, refl, sym, ap, ◌∙◌, true, false, not, inl, inr, some, List, [], ◌∷◌, ◌++◌,
  arith, All, All-append, Bool-cases, Option-cases, length, ◌==◌, filterb, ==_iff,
}
use activity_events_api.Models.Event.{Event}
use activity_events_api.Stream.{
  Broker, Channel, get_elem?, set, add_subscriber, delete_subscriber, put_back, new_broker,
  subscribe, begin_cancel, finish_cancel, detach, shut, publish, receive, from_buffer, take_oldest,
}
use activity_events_api.Stream.Safety.{
  IsLive, IsSound, EntryLive, IsSafe, get_elem?-set, All-set, All-get, All-map, same_channel,
  subs-set, publish-safe,
}

-- One call, or one part of a cancel. The second part runs only in the call that ran the first.
pub data Step : Broker → Broker → Type 0 where
  subscribing : (b : Broker) (user : ℕ) → Step b (subscribe user b).1
  cancelling : (b : Broker) (id : ℕ) → Step b (begin_cancel id b)
  closing :
      (b : Broker) (id : ℕ) (c : Channel)
      → get_elem? b.channels id ≡ some c
      → c.once ≡ true
      → Step b (finish_cancel id b)
  publishing : (b b' : Broker) (e : Event) → publish e b ≡ some b' → Step b b'
  receiving : (b : Broker) (id : ℕ) → Step b (receive id b).1

pub data Reach (b : Broker) : Broker → Type 0 where
  here : Reach b b
  next : {c d : Broker} → Reach b c → Step c d → Reach b d

get_elem?-append :
    {A : Type 0} (xs ys : List A) (i : ℕ) (v : A)
    → get_elem? xs i ≡ some v
    → get_elem? (xs ++ ys) i ≡ some v
get_elem?-append [] ys i v h = absurd (cc)
get_elem?-append (x ∷ xs) ys zero v h = h
get_elem?-append (x ∷ xs) ys (suc i) v h = get_elem?-append xs ys i v h

get_elem?-length :
    {A : Type 0} (xs : List A) (v : A) → get_elem? (xs ++ v ∷ []) (length xs) ≡ some v
get_elem?-length [] v = refl
get_elem?-length (x ∷ xs) v = get_elem?-length xs v

IsLive-append :
    (channels : List Channel) (c : Channel) (u j : ℕ)
    → IsLive channels u j
    → IsLive (channels ++ c ∷ []) u j
IsLive-append channels c u j l = record {
  channel = l.channel;
  there = get_elem?-append channels (c ∷ []) j l.channel l.there;
  owner = l.owner;
  fresh = l.fresh;
  is_open = l.is_open;
}

add_subscriber-live :
    (channels : List Channel) (user id : ℕ) (subs : List (ℕ × List ℕ))
    → IsLive channels user id
    → All (EntryLive channels) subs
    → All (EntryLive channels) (add_subscriber user id subs)
unfolding add_subscriber
add_subscriber-live channels user id [] l h = (((l, tt), omega arith), tt)
add_subscriber-live channels user id ((u, ids) ∷ subs) l h = elim (Bool-cases (u == user)) [
  | inl e ↦
      rw e (
        ((subst (λ w. IsLive channels w id) (sym ((==_iff u user).0 e)) l, h.0.0), omega arith),
        h.1,
      )
  | inr e ↦ rw e (h.0, add_subscriber-live channels user id subs l h.1)
]

subscribe-IsSafe : (user : ℕ) (b : Broker) → IsSafe b → IsSafe (subscribe user b).1
unfolding subscribe
subscribe-IsSafe user b s =
    let c : Channel = record { user_id = user; buffered = []; closed = false; once = false } in
    record {
      live =
          add_subscriber-live (b.channels ++ c ∷ []) user (length b.channels) b.subs
            (record {
              channel = c;
              there = get_elem?-length b.channels c;
              owner = refl;
              fresh = refl;
              is_open = refl;
            })
            (All-map _ _ b.subs
              (λ entry h. (All-map _ _ entry.1 (IsLive-append b.channels c entry.0) h.0, h.1))
              s.live);
      sound =
          All-append (IsSound b.buffer) b.channels (c ∷ []) s.sound
            (record { once_first = λ h. cc; bounded = omega arith }, tt);
    }

-- What is left in a set after `delete` are other channels, which stay live.
IsLive-other :
    (channels : List Channel) (id : ℕ) (c c' : Channel)
    → get_elem? channels id ≡ some c
    → (u j : ℕ) → (id == j) ≡ false
    → IsLive channels u j
    → IsLive (set channels id c') u j
IsLive-other channels id c c' at_id u j e l = record {
  channel = l.channel;
  there = rw (get_elem?-set channels id j c' c at_id, e) l.there;
  owner = l.owner;
  fresh = l.fresh;
  is_open = l.is_open;
}

filterb-IsLive :
    (channels : List Channel) (id : ℕ) (c c' : Channel)
    → get_elem? channels id ≡ some c
    → (u : ℕ) (ids : List ℕ) → All (IsLive channels u) ids
    → All (IsLive (set channels id c') u) (filterb (λ j. not (j == id)) ids)
filterb-IsLive channels id c c' at_id u [] h = tt
filterb-IsLive channels id c c' at_id u (j ∷ ids) h = elim (Bool-cases (j == id)) [
  | inl e ↦ rw e (filterb-IsLive channels id c c' at_id u ids h.1)
  | inr e ↦ rw e (
    IsLive-other channels id c c' at_id u j (ground arith) h.0,
    filterb-IsLive channels id c c' at_id u ids h.1,
  )
]

put_back-live :
    (channels : List Channel) (u : ℕ) (ids : List ℕ) (subs : List (ℕ × List ℕ))
    → All (IsLive channels u) ids
    → All (EntryLive channels) subs
    → All (EntryLive channels) (put_back u ids subs)
unfolding put_back
put_back-live channels u [] subs h k = k
put_back-live channels u (id ∷ ids) subs h k = ((h, omega arith), k)

-- Entries of other users do not hold the channel.
other_user :
    (channels : List Channel) (id : ℕ) (c c' : Channel)
    → get_elem? channels id ≡ some c
    → (u : ℕ) → (u == c.user_id) ≡ false
    → (j : ℕ) → IsLive channels u j
    → IsLive (set channels id c') u j
other_user channels id c c' at_id u e j l = elim (Bool-cases (id == j)) [
  | inl same ↦
      let one =
        ap (λ (x : Channel). x.user_id)
          (same_channel channels id j c l.channel same at_id l.there) in
      absurd (ground (arith, l.owner, one))
  | inr other ↦ IsLive-other channels id c c' at_id u j other l
]

delete_subscriber-live :
    (channels : List Channel) (id : ℕ) (c c' : Channel)
    → get_elem? channels id ≡ some c
    → (subs : List (ℕ × List ℕ)) → All (EntryLive channels) subs
    → All (EntryLive (set channels id c')) (delete_subscriber c.user_id id subs)
unfolding delete_subscriber
delete_subscriber-live channels id c c' at_id [] h = tt
delete_subscriber-live channels id c c' at_id ((u, ids) ∷ subs) h =
    let rest = delete_subscriber-live channels id c c' at_id subs h.1 in
    elim (Bool-cases (u == c.user_id)) [
      | inl e ↦
          rw e (put_back-live _ u _ _ (filterb-IsLive channels id c c' at_id u ids h.0.0) rest)
      | inr e ↦ rw e ((All-map _ _ ids (other_user channels id c c' at_id u e) h.0.0, h.0.1), rest)
    ]

detach-IsSafe :
    (c : Channel) (id : ℕ) (b : Broker)
    → get_elem? b.channels id ≡ some c
    → IsSafe b
    → IsSafe (detach (some c) id b)
unfolding detach
detach-IsSafe c id b at_id s = elim (Bool-cases c.once) [
  | inl e ↦ rw e s
  | inr e ↦ rw e (record {
    live = delete_subscriber-live b.channels id c (record c { once = true }) at_id b.subs s.live;
    sound =
        All-set (IsSound b.buffer) b.channels id (record c { once = true })
          (record {
            once_first = λ h. refl;
            bounded = (All-get (IsSound b.buffer) b.channels id c s.sound at_id).bounded;
          })
          s.sound;
  })
]

begin_cancel-IsSafe : (id : ℕ) (b : Broker) → IsSafe b → IsSafe (begin_cancel id b)
unfolding begin_cancel
begin_cancel-IsSafe id b s = elim (Option-cases (get_elem? b.channels id)) [
  | inl e ↦ rw e (unfold detach in s)
  | inr (c, e) ↦ rw e (detach-IsSafe c id b e s)
]

-- A channel whose cancel has run is in no set.
not-IsLive :
    (channels : List Channel) (id : ℕ) (c c' : Channel)
    → get_elem? channels id ≡ some c
    → c.once ≡ true
    → (u j : ℕ) → IsLive channels u j
    → IsLive (set channels id c') u j
not-IsLive channels id c c' at_id ran u j l = elim (Bool-cases (id == j)) [
  | inl same ↦
      let one =
        ap (λ (x : Channel). x.once) (same_channel channels id j c l.channel same at_id l.there) in
      absurd (ground (arith, l.fresh, one))
  | inr other ↦ IsLive-other channels id c c' at_id u j other l
]

finish_cancel-IsSafe :
    (b : Broker) (id : ℕ) (c : Channel)
    → get_elem? b.channels id ≡ some c
    → c.once ≡ true
    → IsSafe b
    → IsSafe (finish_cancel id b)
unfolding finish_cancel shut
finish_cancel-IsSafe b id c e ran s =
    let c' : Channel = record c { closed = true } in
    rw e (record {
      live =
          All-map _ _ b.subs
            (λ entry h.
              (All-map _ _ entry.1 (not-IsLive b.channels id c c' e ran entry.0) h.0, h.1))
            s.live;
      sound =
          All-set (IsSound b.buffer) b.channels id c'
            (record {
              once_first = λ h. ran;
              bounded = (All-get (IsSound b.buffer) b.channels id c s.sound e).bounded;
            })
            s.sound;
    })

from_buffer-IsSafe :
    (es : List Event) (c : Channel) (id : ℕ) (b : Broker)
    → get_elem? b.channels id ≡ some c
    → c.buffered ≡ es
    → IsSafe b
    → IsSafe (from_buffer es c id b).1
unfolding from_buffer
from_buffer-IsSafe [] c id b e h s = s
from_buffer-IsSafe (x ∷ es) c id b e h s =
    let sound = All-get (IsSound b.buffer) b.channels id c s.sound e in
    record {
      live = subs-set b.channels id c (record c { buffered = es }) e refl refl refl b.subs s.live;
      sound =
          All-set (IsSound b.buffer) b.channels id (record c { buffered = es })
            (record {
              once_first = sound.once_first;
              bounded = omega (arith, sound.bounded, ap length h);
            })
            s.sound;
    }

receive-IsSafe : (id : ℕ) (b : Broker) → IsSafe b → IsSafe (receive id b).1
unfolding receive take_oldest
receive-IsSafe id b s = elim (Option-cases (get_elem? b.channels id)) [
  | inl e ↦ rw e s
  | inr (c, e) ↦ rw e (from_buffer-IsSafe c.buffered c id b e refl s)
]

pub Step-IsSafe : {b c : Broker} → Step b c → IsSafe b → IsSafe c
Step-IsSafe (subscribing b user) s = subscribe-IsSafe user b s
Step-IsSafe (cancelling b id) s = begin_cancel-IsSafe id b s
Step-IsSafe (closing b id c e ran) s = finish_cancel-IsSafe b id c e ran s
Step-IsSafe (publishing b c e h) s =
    let p = publish-safe e b s in
    let same : p.after ≡ c = some_eq (sym p.result ∙ h) in subst IsSafe same p.safe
  where
    some_eq : {x y : Broker} → some x ≡ some y → x ≡ y
    some_eq q = cc
Step-IsSafe (receiving b id) s = receive-IsSafe id b s

pub Reach-IsSafe : {b c : Broker} → Reach b c → IsSafe b → IsSafe c
Reach-IsSafe here s = s
Reach-IsSafe (next r st) s = Step-IsSafe st (Reach-IsSafe r s)

pub new_broker-IsSafe : IsSafe new_broker
unfolding new_broker
new_broker-IsSafe = record { live = tt; sound = tt }

-- Whatever calls, parts of cancels and receives came before, in any order, publishing an event returns:
-- it never sends on a closed channel.
pub publish_never_panics :
    (b : Broker) (e : Event) → Reach new_broker b → (b' : Broker) × (publish e b ≡ some b')
publish_never_panics b e r =
    let p = publish-safe e b (Reach-IsSafe r new_broker-IsSafe) in (p.after, p.result)

-- In every state that can be reached, each set of the map is not empty and holds open channels of its
-- user whose cancel has not run, and no channel holds more events than the buffer.
pub reachable-IsSafe : (b : Broker) → Reach new_broker b → IsSafe b
reachable-IsSafe b r = Reach-IsSafe r new_broker-IsSafe
