-- ===== src/Repository/Token/Families.antt =====
-- What the writes of internal/repository/refresh_token.go do to the number of live tokens of each family,
-- whatever statement fails.
pub mod Bodies
use activity_events_api.Prelude.{
  ℕ, zero, suc, ◌+◌, ◌≡◌, ◌≢◌, ◌⊎◌, refl, sym, ap, ◌∙◌, Bool, true, false, not, ◌&&◌, ◌||◌, inl,
  inr, Option, List, [], ◌∷◌, ◌++◌, map, arith, Bool-cases, Result, ok, err, Error, Exec, ◌>>=◌,
  ◌>>◌, pure, continue, length, filterb, any, ◌==◌, if◌then◌else◌,
}
use activity_events_api.Prelude.Sequence.{bind-Sequenced, ok_of_pure, no_answer}
use activity_events_api.Go.Clock.{Time}
use activity_events_api.Models.User.{RefreshToken, revoked, is_set}
use activity_events_api.Repository.Db.{
  Db, statement, take_fault, transaction, settle_tx, close, rolled_back,
}
use activity_events_api.Repository.Token.{
  create, insert_token, insert_token_row, token_row, token_clash, rotates, rotate_row, rotate_all,
  require_rotated, rotate_body, rotate, live_in, revoke_row, revoke_rows, revoke_body,
  revoke_family,
}
use Bodies.{
  Outcome, undone, done, transaction-Outcome, statement-tokens, IsApt, has_id, Rotated,
  rotate_body-Rotated, revoke_body-tokens, live-Rotated,
}
use activity_events_api.Repository.Token.Rotation.{
  live, live-append, live-revoke_rows, live-rotate_row,
}

-- The abstract state: how many live tokens each family has.
abbrev pub Families : Type 0
Families = ℕ → ℕ

pub data Write : Type 0 where
  creates : RefreshToken → Write
  rotates_to : ℕ → RefreshToken → Write
  revokes : ℕ → Write

-- What a write that succeeds means for the families.
unfoldable pub effect_of : Write → Families → Families
effect_of (creates t) a f = a f + (if t.family_id == f then 1 else 0)
effect_of (rotates_to old next) a f = a f
effect_of (revokes g) a f = if f == g then 0 else a f

abbrev pub if_done {ℓ} : {A : Type ℓ} {B : Type 0} → Result B → A → A → A
if_done (ok b) new old = new
if_done (err e) new old = old

-- The writes as the repository makes them, with whether they succeed.
unfoldable pub write : Write → Exec Db (Unit {0})
unfolding create rotate revoke_family
write (creates t) = create t
write (rotates_to old next) = rotate old next
write (revokes g) = revoke_family g >> pure tt

abbrev pub IsAskable : Write → Db → Type 0
IsAskable (creates t) db = Unit {0}
IsAskable (rotates_to old next) db = IsApt old next db
IsAskable (revokes g) db = Unit {0}

row_counts :
    (t : RefreshToken) (at : Time) (f n : ℕ)
    → n + (if live_in f (token_row t at) then 1 else 0) ≡ n + (if t.family_id == f then 1 else 0)
unfolding live_in token_row revoked is_set
row_counts t at f n = ground arith

create-effect :
    (t : RefreshToken) (db : Db) (f : ℕ)
    → live f (create t db).1.tokens
      ≡ if_done
          (create t db).0
          (live f db.tokens + (if t.family_id == f then 1 else 0))
          (live f db.tokens)
unfolding create insert_token insert_token_row
create-effect t db f = created (statement db).0 (statement db).1 (statement-tokens db)
  where
    created :
        (r : Result (Unit {0})) (db1 : Db)
        → db1.tokens ≡ db.tokens
        → live f (continue r (λ _. insert_token_row t) db1).1.tokens
          ≡ if_done
              (continue r (λ _. insert_token_row t) db1).0
              (live f db.tokens + (if t.family_id == f then 1 else 0))
              (live f db.tokens)
    created (err e) db1 same = ap (live f) same
    created (ok u) db1 same =
        elim (Bool-cases
          (any (token_clash t) db1.tokens || not (any (λ u. u.id == t.user_id) db1.users))) [
            | inl c ↦ rw c (ap (live f) same)
            | inr c ↦ rw c (
                live-append f db1.tokens (token_row t db1.clock)
                ∙ row_counts t db1.clock f (live f db1.tokens)
                ∙ ap (λ ts. live f ts + (if t.family_id == f then 1 else 0)) same)
          ]

revoke-effect :
    (g : ℕ) (db : Db) (f : ℕ)
    → live f (revoke_family g db).1.tokens
      ≡ if_done (revoke_family g db).0 (if f == g then 0 else live f db.tokens) (live f db.tokens)
unfolding revoke_family
revoke-effect g db f = revoked_as (transaction-Outcome (revoke_body g) db)
  where
    revoked_as :
        Outcome (revoke_body g) db (transaction (revoke_body g) db)
        → live f (transaction (revoke_body g) db).1.tokens
          ≡ if_done
              (transaction (revoke_body g) db).0
              (if f == g then 0 else live f db.tokens)
              (live f db.tokens)
    revoked_as (undone e failed kept) = rw (failed, kept) refl
    revoked_as (done n begun after won same ran kept) =
        let (clock, rows) = revoke_body-tokens g begun after n ran in
        rw won (
          ap (live f) (kept ∙ rows)
          ∙ live-revoke_rows f g clock begun.tokens
          ∙ ap (λ ts. if f == g then 0 else live f ts) same)

continued :
    {A : Type 0} (r : Result A) (db : Db) (f n m : ℕ)
    → live f db.tokens ≡ if_done r n m
    → live f (continue r (λ _. pure tt) db).1.tokens
      ≡ if_done (continue r (λ _. pure {W = Db} tt) db).0 n m
continued (ok a) db f n m h = h
continued (err e) db f n m h = h

-- Whatever statement fails, the table stands for the number of live tokens of each family: a write that
-- succeeds changes the numbers as its meaning says (a new token adds one to its family, a rotation changes
-- none, a revocation leaves none of its family), and one that fails leaves them. A rotation is asked for the
-- id of one stored token, with a next token of that token's family and of another id.
pub write-effect_of :
    (x : Write) (db : Db) (f : ℕ)
    → IsAskable x db
    → live f (write x db).1.tokens
      ≡ if_done (write x db).0 (effect_of x (λ g. live g db.tokens) f) (live f db.tokens)
unfolding write effect_of rotate
write-effect_of (creates t) db f askable = create-effect t db f
write-effect_of (rotates_to old next) db f apt =
    rotated (transaction-Outcome (rotate_body old next) db)
  where
    rotated :
        Outcome (rotate_body old next) db (rotate old next db)
        → live f (rotate old next db).1.tokens
          ≡ if_done (rotate old next db).0 (live f db.tokens) (live f db.tokens)
    rotated (undone e failed kept) = rw (failed, kept) refl
    rotated (done u begun after won same ran kept) =
        let apt' : IsApt old next begun = record {
          stored = apt.stored;
          only = ap (filterb (has_id old)) same ∙ apt.only;
          family = apt.family;
          fresh = apt.fresh;
        } in
        rw (won, kept)
          (live-Rotated old next begun after f apt' (rotate_body-Rotated old next begun after u ran)
            ∙ ap (live f) same)
write-effect_of (revokes g) db f askable =
    continued (revoke_family g db).0 (revoke_family g db).1 f _ _ (revoke-effect g db f)
