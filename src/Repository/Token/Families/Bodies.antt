-- ===== src/Repository/Token/Families/Bodies.antt =====
-- What the transactions of internal/repository/refresh_token.go leave in the table, and how many of the
-- tokens then are live, whatever statement fails.
use activity_events_api.Prelude.{
  ℕ, ◌≡◌, ◌≢◌, refl, sym, ap, ◌∙◌, Bool, true, false, not, ◌&&◌, ◌||◌, inl, inr, List, [], ◌∷◌,
  ◌++◌, map, arith, Bool-cases, Result, ok, err, Error, Exec, ◌>>◌, continue, length, filterb, any,
  ◌==◌, if◌then◌else◌,
}
use activity_events_api.Prelude.Sequence.{bind-Sequenced, no_answer}
use activity_events_api.Go.Clock.{Time}
use activity_events_api.Models.User.{RefreshToken, revoked, is_set}
use activity_events_api.Repository.Db.{
  Db, statement, take_fault, transaction, settle_tx, close, rolled_back,
}
use activity_events_api.Repository.Token.{
  insert_token, insert_token_row, token_row, token_clash, rotates, rotate_row, rotate_all,
  require_rotated, rotate_body, live_in, revoke_row, revoke_rows, revoke_body,
}
use activity_events_api.Repository.Token.Rotation.{live, live-append, live-rotate_row}

take_fault-tokens : (fs : List Bool) (db : Db) → (take_fault fs db).1.tokens ≡ db.tokens
unfolding take_fault
take_fault-tokens [] db = refl
take_fault-tokens (true ∷ fs) db = refl
take_fault-tokens (false ∷ fs) db = refl

pub statement-tokens : (db : Db) → (statement db).1.tokens ≡ db.tokens
unfolding statement
statement-tokens db = take_fault-tokens db.faults db

-- A transaction that fails leaves the tokens; one that succeeds leaves those of its body.
pub data Outcome {A : Type 0} (body : Exec Db A) (db : Db) (out : Result A × Db) : Type 0 where
  undone : (e : Error) → out.0 ≡ err e → out.1.tokens ≡ db.tokens → Outcome body db out
  done :
      (a : A) (begun after : Db)
      → out.0 ≡ ok a
      → begun.tokens ≡ db.tokens
      → body begun ≡ (ok a, after)
      → out.1.tokens ≡ after.tokens
      → Outcome body db out

module _ {A : Type 0} (body : Exec Db A) where
  pub transaction-Outcome : (db : Db) → Outcome body db (transaction body db)
  unfolding transaction settle_tx close rolled_back
  transaction-Outcome db = begun (statement db).0 (statement db).1 (statement-tokens db)
    where
      closed :
          (old after : Db) (a : A) (r : Result (Unit {0})) (last : Db)
          → old.tokens ≡ db.tokens
          → body old ≡ (ok a, after)
          → last.tokens ≡ after.tokens
          → Outcome body db (close old a (r, last))
      closed old after a (ok u) last same ran kept = done a old after refl same ran kept
      closed old after a (err e) last same ran kept = undone e refl same

      settled :
          (old : Db) (r : Result A) (after : Db)
          → old.tokens ≡ db.tokens
          → body old ≡ (r, after)
          → Outcome body db (settle_tx old (r, after))
      settled old (ok a) after same ran =
          closed old after a (statement after).0 (statement after).1 same ran
            (statement-tokens after)
      settled old (err e) after same ran = undone e refl same

      begun :
          (r : Result (Unit {0})) (db1 : Db)
          → db1.tokens ≡ db.tokens
          → Outcome body db (continue r (λ _ db2. settle_tx db2 (body db2)) db1)
      begun (ok u) db1 same = settled db1 (body db1).0 (body db1).1 same refl
      begun (err e) db1 same = undone e refl same

tokens_of : {A : Type 0} → Result A × Db → List RefreshToken
tokens_of p = p.1.tokens

insert_token_row-tokens :
    (t : RefreshToken) (db after : Db) (u : Unit {0})
    → insert_token_row t db ≡ (ok u, after)
    → after.tokens ≡ db.tokens ++ token_row t db.clock ∷ []
unfolding insert_token_row tokens_of
insert_token_row-tokens t db after u h =
    elim (Bool-cases
      (any (token_clash t) db.tokens || not (any (λ u. u.id == t.user_id) db.users))) [
        | inl c ↦ absurd (no_answer _ db after u (rw c at h))
        | inr c ↦ sym (ap tokens_of (rw c at h))
      ]

-- A statement that succeeds, and what runs after it.
first_statement :
    {A : Type 0} (m : Exec Db A) (db after : Db) (a : A)
    → (statement >> m) db ≡ (ok a, after)
    → (between : Db) × (between.tokens ≡ db.tokens) × (m between ≡ (ok a, after))
unfolding tokens_of
first_statement m db after a h =
    let s = bind-Sequenced statement (λ _. m) db a after h in
    (s.between, sym (ap tokens_of s.first) ∙ statement-tokens db, s.second)

insert_token-tokens :
    (t : RefreshToken) (db after : Db) (u : Unit {0})
    → insert_token t db ≡ (ok u, after)
    → (clock : Time) × (after.tokens ≡ db.tokens ++ token_row t clock ∷ [])
unfolding insert_token
insert_token-tokens t db after u h =
    let (between, same, k) = first_statement (insert_token_row t) db after u h in
    (between.clock, rw (sym same) (insert_token_row-tokens t between after u k))

-- A rotation that succeeds has inserted the next token and has found a live row of the old one.
pub record Rotated (old : ℕ) (next : RefreshToken) (db after : Db) : Type 0 where
  pub inserted : Time
  pub revoked_at : Time
  pub found :
      (length (filterb (rotates old) (db.tokens ++ token_row next inserted ∷ [])) == 0) ≡ false
  pub tokens :
      after.tokens
      ≡ map (rotate_row old next.id revoked_at) (db.tokens ++ token_row next inserted ∷ [])

require_rotated-found :
    (n : ℕ) (db after : Db) (u : Unit {0})
    → require_rotated n db ≡ (ok u, after)
    → ((n == 0) ≡ false) × (after.tokens ≡ db.tokens)
unfolding require_rotated tokens_of
require_rotated-found n db after u h = elim (Bool-cases (n == 0)) [
  | inl c ↦ absurd (no_answer _ db after u (rw c at h))
  | inr c ↦ (c, sym (ap tokens_of (rw c at h)))
]

pub rotate_body-Rotated :
    (old : ℕ) (next : RefreshToken) (db after : Db) (u : Unit {0})
    → rotate_body old next db ≡ (ok u, after)
    → Rotated old next db after
unfolding rotate_body rotate_all
rotate_body-Rotated old next db after u h =
    let (db1, same1, h1) = first_statement _ db after u h in
    let s = bind-Sequenced (insert_token next) _ db1 u after h1 in
    let (clock, grown) = insert_token-tokens next db1 s.between s.value s.first in
    let (db2, same2, h2) = first_statement _ s.between after u s.second in
    let (found, kept) = require_rotated-found _ _ after u h2 in
    let rows : db2.tokens ≡ db.tokens ++ token_row next clock ∷ [] =
      same2 ∙ grown ∙ ap (λ ts. ts ++ token_row next clock ∷ []) same1 in
    record {
      inserted = clock;
      revoked_at = db2.clock;
      found = rw (sym rows) found;
      tokens = kept ∙ ap (map (rotate_row old next.id db2.clock)) rows;
    }

pub revoke_body-tokens :
    (g : ℕ) (db after : Db) (n : ℕ)
    → revoke_body g db ≡ (ok n, after)
    → (clock : Time) × (after.tokens ≡ map (revoke_row g clock) db.tokens)
unfolding revoke_body revoke_rows tokens_of
revoke_body-tokens g db after n h =
    let (db1, same1, h1) = first_statement _ db after n h in
    let (db2, same2, h2) = first_statement _ db1 after n h1 in
    (db2.clock, sym (ap tokens_of h2) ∙ ap (map (revoke_row g db2.clock)) (same2 ∙ same1))

-- Two tests at once, or one behind the other.
length-filterb_both :
    (p q : RefreshToken → Bool) (ts : List RefreshToken)
    → (length (filterb (λ t. p t && q t) ts) ≡ length (filterb p (filterb q ts)))
      × (length (filterb (λ t. q t && p t) ts) ≡ length (filterb p (filterb q ts)))
length-filterb_both p q [] = (refl, refl)
length-filterb_both p q (t ∷ ts) =
    let rest = length-filterb_both p q ts in (ground (arith, rest.0), ground (arith, rest.1))

filterb-append_miss :
    (p : RefreshToken → Bool) (ts : List RefreshToken) (t : RefreshToken)
    → p t ≡ false
    → filterb p (ts ++ t ∷ []) ≡ filterb p ts
filterb-append_miss p [] t h = rw h
filterb-append_miss p (x ∷ ts) t h = ground (arith, filterb-append_miss p ts t h)

abbrev pub has_id : ℕ → RefreshToken → Bool
has_id old t = t.id == old

-- What a rotation is asked for: the old id is that of one stored token, of the next token's family, and
-- the next id is another.
pub record IsApt (old : ℕ) (next : RefreshToken) (db : Db) : Type 0 where
  pub stored : RefreshToken
  pub only : filterb (λ t. t.id == old) db.tokens ≡ stored ∷ []
  pub family : stored.family_id ≡ next.family_id
  pub fresh : old ≢ next.id

has_id-row :
    (old : ℕ) (next : RefreshToken) (at : Time)
    → old ≢ next.id
    → has_id old (token_row next at) ≡ false
unfolding token_row
has_id-row old next at h = ground arith

found-unrevoked :
    (stored : RefreshToken)
    → (length (filterb (λ t. not (revoked t)) (stored ∷ [])) == 0) ≡ false
    → revoked stored ≡ false
found-unrevoked stored h = ground arith

-- The old token was live and is not; the next one is.
one_for_one :
    (f : ℕ) (stored next : RefreshToken) (at : Time)
    → stored.family_id ≡ next.family_id
    → revoked stored ≡ false
    → length (filterb (live_in f) (stored ∷ [])) ≡ (if live_in f (token_row next at) then 1 else 0)
unfolding live_in token_row
one_for_one f stored next at same alive = rw (same, alive) (unfold revoked is_set in ground arith)

pub live-Rotated :
    (old : ℕ) (next : RefreshToken) (db after : Db) (f : ℕ)
    → IsApt old next db
    → Rotated old next db after
    → live f after.tokens ≡ live f db.tokens
unfolding rotates
live-Rotated old next db after f apt r =
    let row = token_row next r.inserted in
    let grown = db.tokens ++ row ∷ [] in
    let alone : filterb (has_id old) grown ≡ apt.stored ∷ [] =
      filterb-append_miss (has_id old) db.tokens row (has_id-row old next r.inserted apt.fresh)
      ∙ apt.only in
    let counted : length (filterb (rotates old) grown)
        ≡ length (filterb (λ t. not (revoked t)) (apt.stored ∷ [])) =
      (length-filterb_both (λ t. not (revoked t)) (has_id old) grown).1
      ∙ ap (λ ts. length (filterb (λ t. not (revoked t)) ts)) alone in
    let alive = found-unrevoked apt.stored (sym (ap (λ (n : ℕ). n == 0) counted) ∙ r.found) in
    let taken = live-rotate_row f old next.id r.revoked_at grown in
    let added = live-append f db.tokens row in
    let one : length (filterb (λ t. live_in f t && (t.id == old)) grown)
        ≡ (if live_in f row then 1 else 0) =
      (length-filterb_both (live_in f) (has_id old) grown).0
      ∙ ap (λ ts. length (filterb (live_in f) ts)) alone
      ∙ one_for_one f apt.stored next r.inserted apt.family alive in
    rw r.tokens (omega (arith, taken, added, one))
