-- ===== src/Repository/Token/Rotation.antt =====
-- What rotation and revocation do to the tokens of internal/repository/refresh_token.go that still work.
use activity_events_api.Prelude.{
  ℕ, ◌+◌, ◌≡◌, ◌≢◌, refl, sym, ap, ◌∙◌, Bool, true, false, ◌&&◌, inl, inr, List, [], ◌∷◌, ◌++◌, map,
  arith, Bool-cases, length, filterb, any, ok, err, repository, token_already_rotated, ◌==◌,
  if◌then◌else◌,
}
use activity_events_api.Go.Clock.{Time}
use activity_events_api.Models.User.{RefreshToken, revoked, is_set}
use activity_events_api.Repository.Db.{Db, rolled_back}
use activity_events_api.Repository.Db.Up.{statement_up, transaction-ok, transaction-err}
use activity_events_api.Repository.Token.{
  rotates, rotate_row, live_in, revoke_row, token_clash, token_row, insert_token, insert_token_row,
  rotate_all, require_rotated, rotate_body, rotate, revoke_rows, revoke_body, revoke_family,
}

-- The tokens of a family that are not revoked.
abbrev pub live : ℕ → List RefreshToken → ℕ
live family ts = length (filterb (live_in family) ts)

pub live-append :
    (f : ℕ) (ts : List RefreshToken) (t : RefreshToken)
    → live f (ts ++ t ∷ []) ≡ live f ts + (if live_in f t then 1 else 0)
live-append f [] t = ground arith
live-append f (x ∷ ts) t = ground (arith, live-append f ts t)

-- Revoking a family leaves none of it, and the others as they were.
pub live-revoke_rows :
    (f g : ℕ) (now : Time) (ts : List RefreshToken)
    → live f (map (revoke_row g now) ts) ≡ (if f == g then 0 else live f ts)
unfolding revoke_row live_in revoked is_set
live-revoke_rows f g now [] = ground arith
live-revoke_rows f g now (t ∷ ts) = ground (arith, live-revoke_rows f g now ts)

-- Rotating takes away the live rows with the old id.
pub live-rotate_row :
    (f old next : ℕ) (now : Time) (ts : List RefreshToken)
    → live f (map (rotate_row old next now) ts)
        + length (filterb (λ t. live_in f t && (t.id == old)) ts)
      ≡ live f ts
unfolding rotate_row rotates live_in revoked is_set
live-rotate_row f old next now [] = omega arith
live-rotate_row f old next now (t ∷ ts) = ground (arith, live-rotate_row f old next now ts)

rotates-rotate_row :
    (old next : ℕ) (now : Time) (ts : List RefreshToken)
    → filterb (rotates old) (map (rotate_row old next now) ts) ≡ []
unfolding rotate_row rotates revoked is_set
rotates-rotate_row old next now [] = refl
rotates-rotate_row old next now (t ∷ ts) = ground (arith, rotates-rotate_row old next now ts)

filterb-append_none :
    (p : RefreshToken → Bool) (ts : List RefreshToken) (t : RefreshToken)
    → filterb p ts ≡ []
    → p t ≡ false
    → filterb p (ts ++ t ∷ []) ≡ []
filterb-append_none p [] t h n = rw n
filterb-append_none p (x ∷ ts) t h n = ground (arith, filterb-append_none p ts t)

-- What the transaction of a rotation does while no statement fails.
module _ (old : ℕ) (next : RefreshToken) (db : Db) (up : db.faults ≡ []) where
  inserted : Db
  inserted = record db { tokens = db.tokens ++ token_row next db.clock ∷ [] }

  body_up :
      any (token_clash next) db.tokens ≡ false
      → any (λ u. u.id == next.user_id) db.users ≡ true
      → rotate_body old next db
        ≡ require_rotated
            (length (filterb (rotates old) inserted.tokens))
            (rotate_all old next.id inserted)
  unfolding rotate_body insert_token insert_token_row inserted
  body_up c u = rw (statement_up db up, statement_up db up, c, u, statement_up inserted up)

  after_rotation : Db
  after_rotation = rotate_all old next.id inserted

  rotated :
      any (token_clash next) db.tokens ≡ false
      → any (λ u. u.id == next.user_id) db.users ≡ true
      → (rotate old next db).0 ≡ ok tt
      → rotate old next db ≡ (ok tt, after_rotation)
  unfolding rotate after_rotation
  rotated c u done = elim (Bool-cases (length (filterb (rotates old) inserted.tokens) == 0)) [
    | inl dead ↦ absurd (
        let failed =
          transaction-err (rotate_body old next) db (rotate_all old next.id inserted) up
            (repository token_already_rotated)
            (body_up c u ∙ (unfold require_rotated in rw dead)) in
        let clash = sym (ap (λ p. p.0) failed) ∙ done in cc)
    | inr live_row ↦
        transaction-ok (rotate_body old next) db (rotate_all old next.id inserted) up tt
          (body_up c u ∙ (unfold require_rotated in rw live_row)) (unfold rotate_all inserted in up)
  ]

  -- A rotation of a token that no live row has is refused.
  refused :
      any (token_clash next) db.tokens ≡ false
      → any (λ u. u.id == next.user_id) db.users ≡ true
      → old ≢ next.id
      → filterb (rotates old) db.tokens ≡ []
      → rotate old next db ≡ (err (repository token_already_rotated), db)
  unfolding rotate
  refused c u other dead =
      let fresh : rotates old (token_row next db.clock) ≡ false =
        unfold rotates token_row in ground arith in
      let none_live : length (filterb (rotates old) inserted.tokens) ≡ 0 =
        unfold inserted in
        ap length
          (filterb-append_none (rotates old) db.tokens (token_row next db.clock) dead fresh) in
      transaction-err (rotate_body old next) db (rotate_all old next.id inserted) up
        (repository token_already_rotated) (body_up c u ∙ (unfold require_rotated in rw none_live))
      ∙ (unfold rolled_back rotate_all inserted in refl)

-- With the database up, a token that was rotated cannot be rotated again: the second attempt, with
-- another new token, is refused, and the tables are as the first left them. Both new tokens have ids and
-- hashes that the table does not hold, and users that it does.
pub rotate_twice :
    (old : ℕ) (next again : RefreshToken) (db : Db)
    → db.faults ≡ []
    → any (token_clash next) db.tokens ≡ false
    → any (λ u. u.id == next.user_id) db.users ≡ true
    → (rotate old next db).0 ≡ ok tt
    → old ≢ again.id
    → any (token_clash again) (rotate old next db).1.tokens ≡ false
    → any (λ u. u.id == again.user_id) db.users ≡ true
    → rotate old again (rotate old next db).1
      ≡ (err (repository token_already_rotated), (rotate old next db).1)
unfolding inserted
rotate_twice old next again db up c u done other c2 u2 =
    let first = rotated old next db up c u done in
    let state = after_rotation old next db up in
    rw first (
      refused old again state (unfold after_rotation rotate_all inserted in up) (rw first at c2)
        (unfold after_rotation rotate_all inserted in u2) other
        (unfold after_rotation rotate_all in
          rotates-rotate_row old next.id db.clock (inserted old next db up).tokens))

pub revoke_family_up :
    (g : ℕ) (db : Db)
    → db.faults ≡ []
    → revoke_family g db ≡ (ok (length (filterb (live_in g) db.tokens)), revoke_rows g db)
unfolding revoke_family revoke_body
revoke_family_up g db up =
    let body : revoke_body g db ≡ (ok (length (filterb (live_in g) db.tokens)), revoke_rows g db) =
      rw (statement_up db up, statement_up db up) in
    transaction-ok (revoke_body g) db (revoke_rows g db) up _ body (unfold revoke_rows in up)
