-- ===== src/Repository/User/Unique.antt =====
-- The unique indexes and the check of the table users (migrations/00001_init.sql and 00002_auth.sql), and
-- what one INSERT and the UPDATE of internal/repository/user.go do to them.
use activity_events_api.Prelude.{
  ℕ, suc, ◌≤◌, ◌<◌, ◌≡◌, refl, Bool, true, false, not, ◌&&◌, ◌||◌, Option, none, some, List, [],
  ◌∷◌, ◌++◌, map, inl, inr, arith, Bool-cases, any, ◌==◌, if◌then◌else◌, All,
}
use activity_events_api.Go.Text.{Bytes, bytes_eq, bytes_eq_iff, to_lower}
use activity_events_api.Go.Clock.{Time}
use activity_events_api.Models.User.{User}
use activity_events_api.Repository.Db.{Db}
use activity_events_api.Repository.User.{
  same_email, same_text, same_sub, present, can_log_in, link_row,
}

-- Ids rise along the table and stay between the bounds.
abbrev pub Rises : ℕ → ℕ → List User → Type 0
Rises low next [] = low ≤ next
Rises low next (u ∷ us) = (low ≤ u.id) × Rises (suc u.id) next us

-- No row clashes with one behind it.
abbrev pub Apart : (User → User → Bool) → List User → Type 0
Apart clash [] = Unit {0}
Apart clash (u ∷ us) = (any (clash u) us ≡ false) × Apart clash us

-- Two values that are there and are equal, as a unique index compares them.
abbrev pub both_equal : Option Bytes → Option Bytes → Bool
both_equal (some s) (some t) = bytes_eq s t
both_equal (some s) none = false
both_equal none t = false

abbrev pub email_clash : User → User → Bool
email_clash u v = bytes_eq (to_lower v.email) (to_lower u.email)

abbrev pub sub_clash : User → User → Bool
sub_clash u v = both_equal v.google_sub u.google_sub

abbrev pub is_there : Option Bytes → Bool
is_there none = false
is_there (some s) = true

abbrev pub HasMethod : User → Type 0
HasMethod u = (is_there u.password_hash || is_there u.google_sub) ≡ true

-- Ids rise below the next id, emails differ also in lower case, Google accounts differ, and every user
-- has a password or a Google account.
pub record Consistent (db : Db) : Type 0 where
  pub ids : Rises 0 db.next_user_id db.users
  pub emails : Apart email_clash db.users
  pub subs : Apart sub_clash db.users
  pub methods : All HasMethod db.users

-- A change that keeps the table consistent and gives no id back.
pub record Keeps (old new : Db) : Type 0 where
  pub consistent : Consistent new
  pub drawn_on : old.next_user_id ≤ new.next_user_id

pub Rises-mono : (low m n : ℕ) (us : List User) → m ≤ n → Rises low m us → Rises low n us
Rises-mono low m n [] h a = omega arith
Rises-mono low m n (u ∷ us) h a = (a.0, Rises-mono (suc u.id) m n us h a.1)

pub Rises-append :
    (low next : ℕ) (us : List User) (u : User)
    → u.id ≡ next
    → Rises low next us
    → Rises low (suc next) (us ++ u ∷ [])
Rises-append low next [] u p a = (omega arith, omega arith)
Rises-append low next (v ∷ us) u p a = (a.0, Rises-append (suc v.id) next us u p a.1)

any-append_false :
    (p : User → Bool) (us : List User) (u : User)
    → any p us ≡ false
    → p u ≡ false
    → any p (us ++ u ∷ []) ≡ false
any-append_false p [] u h k = ground arith
any-append_false p (v ∷ us) u h k = ground (arith, any-append_false p us u)

pub Apart-append :
    (clash : User → User → Bool) (us : List User) (u : User)
    → ((a b : User) → clash a b ≡ clash b a)
    → any (clash u) us ≡ false
    → Apart clash us
    → Apart clash (us ++ u ∷ [])
Apart-append clash [] u swap h k = (refl, tt)
Apart-append clash (v ∷ us) u swap h k = (
  any-append_false (clash v) us u k.0 (ground (arith, swap v u)),
  Apart-append clash us u swap (ground arith) k.1,
)

bytes_eq-swap : (s t : Bytes) → bytes_eq s t ≡ bytes_eq t s
bytes_eq-swap s t = ground (arith, bytes_eq_iff s t, bytes_eq_iff t s)

pub email_clash-swap : (u v : User) → email_clash u v ≡ email_clash v u
unfolding same_email
email_clash-swap u v = bytes_eq-swap (to_lower v.email) (to_lower u.email)

same_text-swap : (s t : Option Bytes) → same_text s t ≡ same_text t s
unfolding same_text
same_text-swap none none = refl
same_text-swap none (some t) = refl
same_text-swap (some s) none = refl
same_text-swap (some s) (some t) = bytes_eq-swap s t

pub sub_clash-swap : (u v : User) → sub_clash u v ≡ sub_clash v u
unfolding same_sub
sub_clash-swap u v = same_text-swap v.google_sub u.google_sub

module _ (id : ℕ) (sub : Bytes) (name : Option Bytes) (verified : Bool) (now : Time) where
  -- One row of the UPDATE.
  abbrev pub linked_row : User → User
  linked_row u = if u.id == id then link_row sub name verified now u else u

  id-linked_row : (u : User) → (linked_row u).id ≡ u.id
  unfolding link_row
  id-linked_row u = elim (Bool-cases (u.id == id)) [ inl c ↦ rw c | inr c ↦ rw c ]

  email-linked_row : (u : User) → (linked_row u).email ≡ u.email
  unfolding link_row
  email-linked_row u = elim (Bool-cases (u.id == id)) [ inl c ↦ rw c | inr c ↦ rw c ]

  pub linked_row-HasMethod : (u : User) → HasMethod u → HasMethod (linked_row u)
  unfolding link_row can_log_in present
  linked_row-HasMethod u h = elim (Bool-cases (u.id == id)) [
    | inl c ↦ rw c (ground arith)
    | inr c ↦ rw c h
  ]

  pub Rises-link :
      (low next : ℕ) (us : List User) → Rises low next us → Rises low next (map linked_row us)
  Rises-link low next [] a = a
  Rises-link low next (u ∷ us) a = rw (id-linked_row u) (a.0, Rises-link (suc u.id) next us a.1)

  any_email-link :
      (u : User) (us : List User)
      → any (email_clash (linked_row u)) (map linked_row us) ≡ any (email_clash u) us
  unfolding same_email
  any_email-link u [] = refl
  any_email-link u (v ∷ us) = rw (any_email-link u us, email-linked_row u, email-linked_row v)

  pub emails-link : (us : List User) → Apart email_clash us → Apart email_clash (map linked_row us)
  emails-link [] a = tt
  emails-link (u ∷ us) a = (rw (any_email-link u us) a.0, emails-link us a.1)

  pub methods-link : (us : List User) → All HasMethod us → All HasMethod (map linked_row us)
  methods-link [] a = tt
  methods-link (u ∷ us) a = (linked_row-HasMethod u a.0, methods-link us a.1)

  -- No other user has the Google account.
  abbrev pub Alone : List User → Type 0
  Alone us = any (λ v. not (v.id == id) && same_sub (some sub) v) us ≡ false

  -- The rows behind the linked one are not touched, and have another Google account.
  subs-behind :
      (low next : ℕ) (us : List User)
      → id < low
      → Rises low next us
      → Alone us
      → (map linked_row us ≡ us) × (any (same_sub (some sub)) us ≡ false)
  subs-behind low next [] h a e = (refl, refl)
  subs-behind low next (u ∷ us) h a e =
      let rest = subs-behind (suc u.id) next us (omega arith) a.1 (ground arith) in
      let other : (u.id == id) ≡ false = ground arith in (rw (other, rest.0), ground arith)

  any_sub-link :
      (u : User) (us : List User)
      → same_sub (some sub) u ≡ false
      → any (sub_clash u) us ≡ false
      → any (sub_clash u) (map linked_row us) ≡ false
  any_sub-link u [] h k = refl
  any_sub-link u (v ∷ us) h k = elim (Bool-cases (v.id == id)) [
    | inl c ↦
        rw (c, any_sub-link u us h (ground arith))
          (unfold link_row same_sub in ground (arith, same_text-swap (some sub) u.google_sub, h))
    | inr c ↦ rw (c, any_sub-link u us h (ground arith)) (ground arith)
  ]

  pub subs-link :
      (low next : ℕ) (us : List User)
      → Rises low next us
      → Alone us
      → Apart sub_clash us
      → Apart sub_clash (map linked_row us)
  unfolding same_sub
  subs-link low next [] a e s = tt
  subs-link low next (u ∷ us) a e s = elim (Bool-cases (u.id == id)) [
    | inl c ↦
        let rest = subs-behind (suc u.id) next us (ground arith) a.1 (ground arith) in
        rw (c, rest.0) (unfold link_row in rest.1, s.1)
    | inr c ↦
        rw c (
          any_sub-link u us (ground arith) s.0,
          subs-link (suc u.id) next us a.1 (ground arith) s.1,
        )
  ]
