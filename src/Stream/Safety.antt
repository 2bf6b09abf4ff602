-- ===== src/Stream/Safety.antt =====
-- No interleaving of the broker's calls sends on a closed channel.
use mathlib.Core.Path.{subst}
use activity_events_api.Prelude.{
  ℕ, zero, suc, ◌≤◌, ◌<◌, ◌≡◌, refl, ap, true, false, inl, inr, Option, some, List, [], ◌∷◌, ◌++◌,
  arith, All, Bool-cases, length, length-append, ltb, ◌==◌, if◌then◌else◌, ==_iff, ltb→lt, ◌∙◌,
}
use activity_events_api.Models.Event.{Event}
use activity_events_api.Stream.{
  Broker, Channel, get_elem?, set, subscribers_of, offer, send, send_all, publish,
}

-- Channel `id` belongs to `user`, is open, and its cancel has not run.
pub record IsLive (channels : List Channel) (user id : ℕ) : Type 0 where
  pub channel : Channel
  pub there : get_elem? channels id ≡ some channel
  pub owner : channel.user_id ≡ user
  pub fresh : channel.once ≡ false
  pub is_open : channel.closed ≡ false

-- A channel is closed only after its cancel has run, and holds no more than the buffer.
pub record IsSound (buffer : ℕ) (c : Channel) : Type 0 where
  pub once_first : c.closed ≡ true → c.once ≡ true
  pub bounded : length c.buffered ≤ buffer

abbrev pub EntryLive : List Channel → ℕ × List ℕ → Type 0
EntryLive channels (user, ids) = All (IsLive channels user) ids × (0 < length ids)

pub record IsSafe (b : Broker) : Type 0 where
  pub live : All (EntryLive b.channels) b.subs
  pub sound : All (IsSound b.buffer) b.channels

pub get_elem?-set {ℓ} :
    {A : Type ℓ} (xs : List A) (i j : ℕ) (v w : A)
    → get_elem? xs i ≡ some w
    → get_elem? (set xs i v) j ≡ (if i == j then some v else get_elem? xs j)
get_elem?-set [] i j v w h = ground arith
get_elem?-set (x ∷ xs) zero zero v w h = refl
get_elem?-set (x ∷ xs) zero (suc j) v w h = ground arith
get_elem?-set (x ∷ xs) (suc i) zero v w h = ground arith
get_elem?-set (x ∷ xs) (suc i) (suc j) v w h = ground (arith, get_elem?-set xs i j v w h)

pub All-set {ℓ κ} :
    {A : Type ℓ} (P : A → Type κ) (xs : List A) (i : ℕ) (v : A)
    → P v
    → All P xs
    → All P (set xs i v)
All-set P [] i v p a = tt
All-set P (x ∷ xs) zero v p a = (p, a.1)
All-set P (x ∷ xs) (suc i) v p a = (a.0, All-set P xs i v p a.1)

pub All-get {ℓ κ} :
    {A : Type ℓ} (P : A → Type κ) (xs : List A) (i : ℕ) (v : A)
    → All P xs
    → get_elem? xs i ≡ some v
    → P v
All-get P [] i v a h = absurd (cc)
All-get P (x ∷ xs) zero v a h = let e : x ≡ v = cc in subst P e a.0
All-get P (x ∷ xs) (suc i) v a h = All-get P xs i v a.1 h

pub All-map {ℓ κ μ} :
    {A : Type ℓ} (P : A → Type κ) (Q : A → Type μ) (xs : List A)
    → ((x : A) → P x → Q x)
    → All P xs
    → All Q xs
All-map P Q [] f a = tt
All-map P Q (x ∷ xs) f a = (f x a.0, All-map P Q xs f a.1)

pub same_channel :
    (channels : List Channel) (i j : ℕ) (c d : Channel)
    → (i == j) ≡ true
    → get_elem? channels i ≡ some c
    → get_elem? channels j ≡ some d
    → c ≡ d
same_channel channels i j c d e h k =
    let same : i ≡ j = (==_iff i j).0 e in cc (ap (get_elem? channels) same)

-- A change of a channel that leaves it as live as it was leaves all live.
module _ (channels : List Channel) (i : ℕ) (c c' : Channel) (at_i : get_elem? channels i ≡ some c)
    (owner : c'.user_id ≡ c.user_id) (fresh : c'.once ≡ c.once) (same : c'.closed ≡ c.closed) where
  pub IsLive-set : (u j : ℕ) → IsLive channels u j → IsLive (set channels i c') u j
  IsLive-set u j l = elim (Bool-cases (i == j)) [
    | inl e ↦
        let one : c ≡ l.channel = same_channel channels i j c l.channel e at_i l.there in
        record {
          channel = c';
          there = rw (get_elem?-set channels i j c' c at_i, e);
          owner = owner ∙ ap (λ (x : Channel). x.user_id) one ∙ l.owner;
          fresh = fresh ∙ ap (λ (x : Channel). x.once) one ∙ l.fresh;
          is_open = same ∙ ap (λ (x : Channel). x.closed) one ∙ l.is_open;
        }
    | inr e ↦ record {
      channel = l.channel;
      there = rw (get_elem?-set channels i j c' c at_i, e) l.there;
      owner = l.owner;
      fresh = l.fresh;
      is_open = l.is_open;
    }
  ]

  EntryLive-set :
      (entry : ℕ × List ℕ) → EntryLive channels entry → EntryLive (set channels i c') entry
  EntryLive-set (u, ids) h = (All-map _ _ ids (IsLive-set u) h.0, h.1)

  pub subs-set :
      (subs : List (ℕ × List ℕ))
      → All (EntryLive channels) subs
      → All (EntryLive (set channels i c')) subs
  subs-set subs h = All-map _ _ subs EntryLive-set h

-- One offer to a live channel does not panic and keeps the broker safe.
record Offered (e : Event) (id : ℕ) (b : Broker) (r : Option Broker) : Type 0 where
  after : Broker
  result : r ≡ some after
  safe : IsSafe after
  still : (u j : ℕ) → IsLive b.channels u j → IsLive after.channels u j
  same_subs : after.subs ≡ b.subs

offer-safe :
    (e : Event) (c : Channel) (id : ℕ) (b : Broker)
    → IsSafe b
    → get_elem? b.channels id ≡ some c
    → c.closed ≡ false
    → Offered e id b (offer e c id b)
unfolding offer
offer-safe e c id b s at_id is_open = elim (Bool-cases (ltb (length c.buffered) b.buffer)) [
  | inl room ↦
      let c' : Channel = record c { buffered = c.buffered ++ e ∷ [] } in
      record {
        after = record b { channels = set b.channels id c' };
        result = rw (is_open, room);
        safe = record {
          live = subs-set b.channels id c c' at_id refl refl refl b.subs s.live;
          sound =
              All-set (IsSound b.buffer) b.channels id c'
                (record {
                  once_first =
                      (All-get (IsSound b.buffer) b.channels id c s.sound at_id).once_first;
                  bounded = omega (
                    arith,
                    length-append c.buffered (e ∷ []),
                    ltb→lt (length c.buffered) b.buffer room,
                  );
                })
                s.sound;
        };
        still = IsLive-set b.channels id c c' at_id refl refl refl;
        same_subs = refl;
      }
  | inr full ↦ record {
    after = record b { dropped = suc b.dropped };
    result = rw (is_open, full);
    safe = record { live = s.live; sound = s.sound };
    still = λ u j l. l;
    same_subs = refl;
  }
]

pub record Published (b : Broker) (r : Option Broker) : Type 0 where
  pub after : Broker
  pub result : r ≡ some after
  pub safe : IsSafe after

send_all-safe :
    (e : Event) (u : ℕ) (ids : List ℕ) (b : Broker)
    → IsSafe b
    → All (IsLive b.channels u) ids
    → Published b (send_all e ids (some b))
unfolding send_all send
send_all-safe e u [] b s l = record { after = b; result = refl; safe = s }
send_all-safe e u (id ∷ ids) b s l =
    let o = offer-safe e l.0.channel id b s l.0.there l.0.is_open in
    let rest = send_all-safe e u ids o.after o.safe (All-map _ _ ids (o.still u) l.1) in
    record { after = rest.after; result = rw (l.0.there, o.result) rest.result; safe = rest.safe }

IsLive-subscribers :
    (channels : List Channel) (u : ℕ) (subs : List (ℕ × List ℕ))
    → All (EntryLive channels) subs
    → All (IsLive channels u) (subscribers_of u subs)
unfolding subscribers_of
IsLive-subscribers channels u [] h = tt
IsLive-subscribers channels u ((v, ids) ∷ subs) h = elim (Bool-cases (v == u)) [
  | inl e ↦ rw e (subst (λ w. All (IsLive channels w) ids) ((==_iff v u).0 e) h.0.0)
  | inr e ↦ rw e (IsLive-subscribers channels u subs h.1)
]

-- In a safe state publishing returns, that is, no send meets a closed channel, and the state is safe
-- again.
pub publish-safe : (e : Event) (b : Broker) → IsSafe b → Published b (publish e b)
unfolding publish
publish-safe e b s =
    send_all-safe e e.user_id (subscribers_of e.user_id b.subs) b s
      (IsLive-subscribers b.channels e.user_id b.subs s.live)
