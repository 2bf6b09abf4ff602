-- ===== src/Repository/Token/Links.antt =====
-- The reference refresh_tokens.replaced_by (migrations/00002_auth.sql), and what each statement of
-- internal/repository/refresh_token.go does to it.
use activity_events_api.Prelude.{
  ℕ, ◌≡◌, refl, ◌∙◌, Bool, true, not, ◌||◌, inl, inr, Option, none, some, List, [], ◌∷◌, ◌++◌, map,
  arith, Bool-cases, any, filterb, All,
}
use activity_events_api.Go.Clock.{Time}
use activity_events_api.Models.User.{RefreshToken}
use activity_events_api.Repository.Token.{
  rotates, rotate_row, live_in, revoke_row, set_null, unlink,
}
use activity_events_api.Repository.Token.Families.Bodies.{has_id}

-- There is no reference, or a row of the table that it names.
abbrev pub refers : Option ℕ → List RefreshToken → Bool
refers none ts = true
refers (some n) ts = any (has_id n) ts

abbrev pub ReferInto : List RefreshToken → List RefreshToken → Type 0
ReferInto us ts = All (λ t. refers t.replaced_by us ≡ true) ts

-- Every reference of the table names a row of it.
abbrev pub IsLinked : List RefreshToken → Type 0
IsLinked ts = ReferInto ts ts

pub any-append :
    (p : RefreshToken → Bool) (ts us : List RefreshToken)
    → any p (ts ++ us) ≡ (any p ts || any p us)
any-append p [] us = refl
any-append p (t ∷ ts) us = ground (arith, any-append p ts us)

any-map :
    (n : ℕ) (f : RefreshToken → RefreshToken) (ts : List RefreshToken)
    → ((t : RefreshToken) → (f t).id ≡ t.id)
    → any (has_id n) (map f ts) ≡ any (has_id n) ts
any-map n f [] same = refl
any-map n f (t ∷ ts) same = ground (arith, same t, any-map n f ts same)

refers-map :
    (o : Option ℕ) (f : RefreshToken → RefreshToken) (ts : List RefreshToken)
    → ((t : RefreshToken) → (f t).id ≡ t.id)
    → refers o (map f ts) ≡ refers o ts
refers-map none f ts same = refl
refers-map (some n) f ts same = any-map n f ts same

refers-append :
    (o : Option ℕ) (ts us : List RefreshToken) → refers o ts ≡ true → refers o (ts ++ us) ≡ true
refers-append none ts us h = refl
refers-append (some n) ts us h = rw (any-append (has_id n) ts us, h) refl

-- References into one table, each changed by `f`, are references into another.
ReferInto-map :
    (us vs : List RefreshToken) (f : RefreshToken → RefreshToken) (ts : List RefreshToken)
    → ((t : RefreshToken) → refers t.replaced_by us ≡ true → refers (f t).replaced_by vs ≡ true)
    → ReferInto us ts
    → ReferInto vs (map f ts)
ReferInto-map us vs f [] step h = tt
ReferInto-map us vs f (t ∷ ts) step h = (step t h.0, ReferInto-map us vs f ts step h.1)

pub IsLinked-append :
    (us ts : List RefreshToken) (row : RefreshToken)
    → row.replaced_by ≡ none
    → ReferInto us ts
    → ReferInto (us ++ row ∷ []) (ts ++ row ∷ [])
IsLinked-append us [] row h k = (rw h refl, tt)
IsLinked-append us (t ∷ ts) row h k =
    (refers-append t.replaced_by us (row ∷ []) k.0, IsLinked-append us ts row h k.1)

id-rotate_row : (old next : ℕ) (at : Time) (t : RefreshToken) → (rotate_row old next at t).id ≡ t.id
unfolding rotate_row
id-rotate_row old next at t = elim (Bool-cases (rotates old t)) [
  | inl c ↦ rw c refl
  | inr c ↦ rw c refl
]

id-revoke_row : (g : ℕ) (at : Time) (t : RefreshToken) → (revoke_row g at t).id ≡ t.id
unfolding revoke_row
id-revoke_row g at t = elim (Bool-cases (live_in g t)) [ inl c ↦ rw c refl | inr c ↦ rw c refl ]

replaced_by-revoke_row :
    (g : ℕ) (at : Time) (t : RefreshToken) → (revoke_row g at t).replaced_by ≡ t.replaced_by
unfolding revoke_row
replaced_by-revoke_row g at t = elim (Bool-cases (live_in g t)) [
  | inl c ↦ rw c refl
  | inr c ↦ rw c refl
]

pub IsLinked-revoke_row :
    (g : ℕ) (at : Time) (ts : List RefreshToken) → IsLinked ts → IsLinked (map (revoke_row g at) ts)
IsLinked-revoke_row g at ts h =
    ReferInto-map ts (map (revoke_row g at) ts) (revoke_row g at) ts
      (λ t k. rw (replaced_by-revoke_row g at t) (refers-map _ _ ts (id-revoke_row g at) ∙ k)) h

-- A rotated row names the next row, and any other what it named.
refers-rotate_row :
    (old next : ℕ) (at : Time) (us : List RefreshToken) (t : RefreshToken)
    → any (has_id next) us ≡ true
    → refers t.replaced_by us ≡ true
    → refers (rotate_row old next at t).replaced_by us ≡ true
unfolding rotate_row
refers-rotate_row old next at us t there h = elim (Bool-cases (rotates old t)) [
  | inl c ↦ rw c there
  | inr c ↦ rw c h
]

pub IsLinked-rotate_row :
    (old next : ℕ) (at : Time) (ts : List RefreshToken)
    → any (has_id next) ts ≡ true
    → IsLinked ts
    → IsLinked (map (rotate_row old next at) ts)
IsLinked-rotate_row old next at ts there h =
    ReferInto-map ts (map (rotate_row old next at) ts) (rotate_row old next at) ts
      (λ t k.
        refers-map (rotate_row old next at t).replaced_by _ ts (id-rotate_row old next at)
        ∙ refers-rotate_row old next at ts t there k)
      h

-- A row is deleted or kept.
pub any-partition :
    (p q : RefreshToken → Bool) (ts : List RefreshToken)
    → any q ts ≡ (any q (filterb p ts) || any q (filterb (λ t. not (p t)) ts))
any-partition p q [] = refl
any-partition p q (t ∷ ts) = ground (arith, any-partition p q ts)

refers-set_null :
    (o : Option ℕ) (p : RefreshToken → Bool) (ts : List RefreshToken)
    → refers o ts ≡ true
    → refers (set_null (filterb p ts) o) (filterb (λ t. not (p t)) ts) ≡ true
unfolding set_null
refers-set_null none p ts h = refl
refers-set_null (some n) p ts h = elim (Bool-cases (any (has_id n) (filterb p ts))) [
  | inl c ↦ rw c refl
  | inr c ↦ rw c (ground (arith, any-partition p (has_id n) ts))
]

All-filterb :
    (P : RefreshToken → Type 0) (p : RefreshToken → Bool) (ts : List RefreshToken)
    → All P ts
    → All P (filterb p ts)
All-filterb P p [] h = tt
All-filterb P p (t ∷ ts) h = elim (Bool-cases (p t)) [
  | inl c ↦ rw c (h.0, All-filterb P p ts h.1)
  | inr c ↦ rw c (All-filterb P p ts h.1)
]

pub IsLinked-unlink :
    (p : RefreshToken → Bool) (ts : List RefreshToken)
    → IsLinked ts
    → IsLinked (map (unlink (filterb p ts)) (filterb (λ t. not (p t)) ts))
unfolding unlink
IsLinked-unlink p ts h =
    let kept = filterb (λ t. not (p t)) ts in
    ReferInto-map ts (map (unlink (filterb p ts)) kept) (unlink (filterb p ts)) kept
      (λ t k.
        refers-map (set_null (filterb p ts) t.replaced_by) (unlink (filterb p ts)) kept (λ u. refl)
        ∙ refers-set_null t.replaced_by p ts k)
      (All-filterb (λ t. refers t.replaced_by ts ≡ true) (λ t. not (p t)) ts h)
