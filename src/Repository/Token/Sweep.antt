-- ===== src/Repository/Token/Sweep.antt =====
-- What `DeleteExpired` of internal/repository/refresh_token.go takes from the table and what it leaves.
use activity_events_api.Prelude.{
  ℕ, ◌+◌, ◌≡◌, refl, sym, not, inl, inr, Result, ok, err, List, [], ◌∷◌, map, arith, Bool-cases,
  ◌==◌, ◌&&◌, length, leb, ltb, All, ◌≤◌, filterb, continue, pure, gets, ◌>>=◌, effect, ◌>>◌,
}
use activity_events_api.Go.Clock.{Time, timestamptz}
use activity_events_api.Models.User.{RefreshToken, revoked}
use activity_events_api.Repository.Db.{Db, statement}
use activity_events_api.Repository.Token.{live_in, past_expiry, unlink, delete_rows, delete_expired}
use activity_events_api.Repository.Token.Families.Bodies.{statement-tokens}
use activity_events_api.Repository.Token.Rotation.{live}

-- The rows that stay, before and after.
abbrev pub current : Time → List RefreshToken → List RefreshToken
current at ts = filterb (λ t. leb (timestamptz at) t.expires_at) ts

-- The live tokens of a family that have expired.
abbrev pub live_expired : ℕ → Time → List RefreshToken → ℕ
live_expired f at ts =
    length
      (filterb (λ t. (t.family_id == f) && not (revoked t) && ltb t.expires_at (timestamptz at)) ts)

abbrev pub Swept : Time → ℕ → List RefreshToken → Result ℕ → List RefreshToken → Type 0
Swept at f before (ok n) after =
    All (λ t. timestamptz at ≤ t.expires_at) after
    × (length after + n ≡ length before)
    × (live f after + live_expired f at before ≡ live f before)
    × (map (λ t. t.id) after ≡ map (λ t. t.id) (current at before))
Swept at f before (err e) after = after ≡ before

live_in_family : (f : ℕ) (t : RefreshToken) → live_in f t ≡ ((t.family_id == f) && not (revoked t))
unfolding live_in
live_in_family f t = refl

past_expiry_expires :
    (at : Time) (t : RefreshToken) → past_expiry at t ≡ ltb t.expires_at (timestamptz at)
unfolding past_expiry
past_expiry_expires at t = refl

module _ (at : Time) (gone : List RefreshToken) where
  -- The rows that the statement leaves, of those before.
  abbrev left : List RefreshToken → List RefreshToken
  left ts = map (unlink gone) (filterb (λ t. not (past_expiry at t)) ts)

  left-current : (ts : List RefreshToken) → All (λ t. timestamptz at ≤ t.expires_at) (left ts)
  unfolding unlink past_expiry
  left-current [] = tt
  left-current (t ∷ ts) = elim (Bool-cases (past_expiry at t)) [
    | inl c ↦ rw c (left-current ts)
    | inr c ↦ rw c (ground arith, left-current ts)
  ]

  length-sweep :
      (ts : List RefreshToken) → length (left ts) + length (filterb (past_expiry at) ts) ≡ length ts
  length-sweep [] = omega arith
  length-sweep (t ∷ ts) = ground (arith, length-sweep ts)

  live-unlink : (f : ℕ) (t : RefreshToken) → live_in f (unlink gone t) ≡ live_in f t
  unfolding live_in unlink revoked
  live-unlink f t = refl

  live-sweep :
      (f : ℕ) (ts : List RefreshToken) → live f (left ts) + live_expired f at ts ≡ live f ts
  live-sweep f [] = omega arith
  live-sweep f (t ∷ ts) =
      ground (arith, live-sweep f ts, live-unlink f t, live_in_family f t, past_expiry_expires at t)

  id-sweep : (ts : List RefreshToken) → map (λ t. t.id) (left ts) ≡ map (λ t. t.id) (current at ts)
  unfolding unlink past_expiry
  id-sweep [] = refl
  id-sweep (t ∷ ts) = ground (arith, id-sweep ts)

-- Whatever statement fails, the deletion of expired tokens that answers n leaves no row that expired before
-- the given time, has taken n rows, of each family the live tokens that had expired and no others, and
-- leaves the ids of the other rows in order; one that fails leaves the table.
pub delete_expired-Swept :
    (at : Time) (f : ℕ) (db : Db)
    → Swept at f db.tokens (delete_expired at db).0 (delete_expired at db).1.tokens
unfolding delete_expired delete_rows
delete_expired-Swept at f db = swept (statement db).0 (statement db).1 (statement-tokens db)
  where
    swept :
        (r : Result (Unit {0})) (db1 : Db)
        → db1.tokens ≡ db.tokens
        → Swept at f db.tokens
            (continue r
              (λ _. do
                rows ← gets (λ db2. length (filterb (past_expiry at) db2.tokens))
                effect (delete_rows at)
                pure rows)
              db1).0
            (continue r
              (λ _. do
                rows ← gets (λ db2. length (filterb (past_expiry at) db2.tokens))
                effect (delete_rows at)
                pure rows)
              db1).1.tokens
    swept (err e) db1 same = same
    swept (ok u) db1 same =
        let gone = filterb (past_expiry at) db1.tokens in
        rw (sym same) (
          left-current at gone db1.tokens,
          length-sweep at gone db1.tokens,
          live-sweep at gone f db1.tokens,
          id-sweep at gone db1.tokens,
        )
