-- ===== src/Service/Event/Accepted.antt =====
-- What an event that passed `normalize` satisfies, whatever was sent.
use mathlib.Core.Path.{subst}
use activity_events_api.Prelude.{
  ℕ, ◌+◌, ◌-◌, ◌≡◌, ◌≤◌, ◌<◌, refl, ap, Bool, true, false, inl, inr, Bool-cases, Option, none, some,
  Result, Error, ok, err, Exec, ◌>>=◌, lift, pure, reading, length, ◌==◌, arith, length-filterb-le,
  not, if◌then◌else◌,
}
use activity_events_api.Prelude.Sequence.{no_answer}
use activity_events_api.Go.Text.{Bytes, trim_space}
use activity_events_api.Go.Clock.{Time}
use activity_events_api.Models.Event.{Event, max_event_type_len, normalize_event_type}
use activity_events_api.Repository.Event.{type_check, char_length, continues}
use activity_events_api.Service.Event.{
  EventDeps, EventInput, normalize, check_type, normalize_payload, check_time, check_key,
  time_or_now, max_clock_skew, max_event_age, max_idempotency_key_len,
}

-- A key that may be stored: none, or one that is neither empty nor too long.
abbrev pub IsKey : Option Bytes → Type 0
IsKey none = Unit {0}
IsKey (some k) = (0 < length k) × (length k ≤ max_idempotency_key_len)

pub record Accepted (user_id : ℕ) (now : Time) (e : Event) : Type 0 where
  pub owner : e.user_id ≡ user_id
  pub typed : type_check e.type ≡ true
  pub short : length e.type ≤ max_event_type_len
  pub not_late : e.occurred_at ≤ now + max_clock_skew
  pub not_old : now - max_event_age ≤ e.occurred_at
  pub key : IsKey e.idempotency_key

ok_inj : {A : Type 0} (x y : A) → ok x ≡ ok y → x ≡ y
ok_inj x y h = cc

err_not_ok : {A : Type 0} (e : Error) (y : A) → ¬ (err e ≡ ok y)
err_not_ok e y h = cc

guarded :
    {A : Type 0} (c : Bool) (e : Error) (x y : A)
    → (if c then err e else ok x) ≡ ok y
    → (c ≡ false) × (x ≡ y)
guarded true e x y h = absurd (err_not_ok e y h)
guarded false e x y h = (refl, ok_inj x y h)

char_length_bound : (t : Bytes) → char_length t ≤ length t
unfolding char_length
char_length_bound t = length-filterb-le (λ b. not (continues b)) t

-- A type that the table accepts, of at most 64 bytes.
abbrev IsType : Bytes → Type 0
IsType t = (type_check t ≡ true) × (length t ≤ max_event_type_len)

check_type-IsType : (raw t : Bytes) → check_type raw ≡ ok t → IsType t
unfolding check_type type_check
check_type-IsType raw t h =
    let (c, e) = guarded _ _ _ t h in
    subst IsType e (ground (arith, char_length_bound (normalize_event_type raw)), ground arith)

check_time-bounds :
    (now t u : Time)
    → check_time now t ≡ ok u
    → (u ≤ now + max_clock_skew) × (now - max_event_age ≤ u)
unfolding check_time
check_time-bounds now t u h = let (c, e) = guarded _ _ _ u h in (ground arith, ground arith)

check_key-IsKey : (raw : Bytes) (k : Option Bytes) → check_key raw ≡ ok k → IsKey k
unfolding check_key
check_key-IsKey raw k h = elim (Bool-cases (length (trim_space raw) == 0)) [
  | inl empty ↦ subst IsKey (ok_inj none k (rw empty at h)) tt
  | inr filled ↦
      let (c, e) = guarded _ _ (some (trim_space raw)) k (rw filled at h) in
      subst IsKey e (ground arith, ground arith)
]

event_of : ℕ → Bytes → Bytes → Time → Option Bytes → Event
event_of user_id t p o k = record {
  id = 0;
  user_id = user_id;
  type = t;
  payload = p;
  occurred_at = o;
  created_at = 0;
  idempotency_key = k;
}

answered : Result Event → Event → Event
answered (ok e) f = e
answered (err x) f = f

module _ {W : Type 0} (user_id : ℕ) where
  end_part : Bytes → Bytes → Result Time → Result (Option Bytes) → Exec W Event
  unfolding event_of
  end_part t p ro rk = lift ro >>= λ o. lift rk >>= λ k. pure (event_of user_id t p o k)

  whole :
      (W → Time × W)
      → Result Bytes
      → Result Bytes
      → (Time → Result Time)
      → Result (Option Bytes)
      → Exec W Event
  unfolding end_part
  whole clock rt rp at rk =
      lift rt >>= λ t. lift rp >>= λ p. reading clock >>= λ now. end_part t p (at now) rk

  end_part-Accepted :
      (t p : Bytes) (now : Time) (ro : Result Time) (rk : Result (Option Bytes)) (w w' : W)
      (e : Event)
      → IsType t
      → ((o : Time) → ro ≡ ok o → (o ≤ now + max_clock_skew) × (now - max_event_age ≤ o))
      → ((k : Option Bytes) → rk ≡ ok k → IsKey k)
      → end_part t p ro rk w ≡ (ok e, w')
      → Accepted user_id now e
  unfolding end_part
  end_part-Accepted t p now (ok o) (ok k) w w' e typed timed keyed h =
      let same : event_of user_id t p o k ≡ e =
        unfold answered in ap (λ (r : Result Event × W). answered r.0 e) h in
      subst (Accepted user_id now) same (
        unfold event_of in
        record {
          owner = refl;
          typed = typed.0;
          short = typed.1;
          not_late = (timed o refl).0;
          not_old = (timed o refl).1;
          key = keyed k refl;
        })
  end_part-Accepted t p now (ok o) (err x) w w' e typed timed keyed h =
      absurd (no_answer x w w' e h)
  end_part-Accepted t p now (err x) rk w w' e typed timed keyed h = absurd (no_answer x w w' e h)

  whole-Accepted :
      (clock : W → Time × W) (rt rp : Result Bytes) (at : Time → Result Time)
      (rk : Result (Option Bytes)) (w w' : W) (e : Event)
      → ((t : Bytes) → rt ≡ ok t → IsType t)
      → ((o : Time)
          → at (clock w).0 ≡ ok o
          → (o ≤ (clock w).0 + max_clock_skew) × ((clock w).0 - max_event_age ≤ o))
      → ((k : Option Bytes) → rk ≡ ok k → IsKey k)
      → whole clock rt rp at rk w ≡ (ok e, w')
      → Accepted user_id (clock w).0 e
  unfolding whole
  whole-Accepted clock (ok t) (ok p) at rk w w' e typed timed keyed h =
      end_part-Accepted t p (clock w).0 (at (clock w).0) rk (clock w).1 w' e (typed t refl) timed
        keyed h
  whole-Accepted clock (ok t) (err x) at rk w w' e typed timed keyed h =
      absurd (no_answer x w w' e h)
  whole-Accepted clock (err x) rp at rk w w' e typed timed keyed h = absurd (no_answer x w w' e h)

-- An event that passes normalisation belongs to the user given, has a type of at most 64 bytes that the
-- table accepts, a time
-- at most five minutes ahead of the clock and ninety days behind it, and no key or one of 1 to 128 bytes.
pub normalize-Accepted :
    {W : Type 0} (d : EventDeps W) (user_id : ℕ) (in' : EventInput) (w w' : W) (e : Event)
    → normalize d user_id in' w ≡ (ok e, w')
    → Accepted user_id (d.now w).0 e
unfolding normalize
normalize-Accepted d user_id in' w w' e h =
    whole-Accepted user_id d.now (check_type in'.type)
      (normalize_payload d.unmarshals_to_object in'.payload)
      (λ now. check_time now (time_or_now in'.occurred_at now)) (check_key in'.idempotency_key) w w'
      e (check_type-IsType in'.type)
      (check_time-bounds (d.now w).0 (time_or_now in'.occurred_at (d.now w).0))
      (check_key-IsKey in'.idempotency_key) (unfold whole end_part event_of in h)
