-- ===== src/Repository/Token/Upkeep.antt =====
-- All writes of internal/repository/refresh_token.go, whatever statement fails: no reference is left that
-- names no row, and what the deletion of expired tokens takes.
use activity_events_api.Prelude.{
  ℕ, ◌≡◌, refl, ◌∙◌, true, not, ◌||◌, inl, inr, List, [], ◌∷◌, ◌++◌, arith, Bool-cases, any, ◌==◌,
  effect,
}
use activity_events_api.Go.Clock.{Time}
use activity_events_api.Models.User.{RefreshToken}
use activity_events_api.Repository.Db.{Db, transaction, rolled_back}
use activity_events_api.Repository.Db.Stable.{
  Contract, Stable, Stable-pure, Stable-gets, Stable-bind, Stable-statement, Stable-transaction,
}
use activity_events_api.Repository.Token.{
  create, insert_token, insert_token_row, token_row, token_clash, rotate_body, rotate, revoke_rows,
  revoke_body, revoke_family, past_expiry, delete_rows, delete_expired,
}
use activity_events_api.Repository.Token.Families.Bodies.{
  Outcome, undone, done, transaction-Outcome, has_id, Rotated, rotate_body-Rotated,
}
use activity_events_api.Repository.Token.Links.{
  IsLinked, any-append, IsLinked-append, IsLinked-revoke_row, IsLinked-rotate_row, IsLinked-unlink,
}

links_contract : Contract
unfolding rolled_back
links_contract = record {
  IsGood = λ db. IsLinked db.tokens;
  Keeps = λ old new. IsLinked new.tokens;
  good = λ a b k. k;
  same = λ a g. g;
  follow = λ a b c h k. k;
  fault = λ a fs g. g;
  back = λ a b g k. g;
}

Stable-insert_token : (t : RefreshToken) → Stable links_contract (insert_token t)
unfolding insert_token links_contract insert_token_row
Stable-insert_token t = Stable-bind links_contract _ _ (Stable-statement links_contract) λ _.
    record {
      at = λ db g.
          elim (Bool-cases
            (any (token_clash t) db.tokens || not (any (λ u. u.id == t.user_id) db.users))) [
              | inl c ↦ rw c g
              | inr c ↦ rw c (
                  IsLinked-append db.tokens db.tokens (token_row t db.clock)
                    (unfold token_row in refl) g)
            ];
    }

Rotated-IsLinked :
    (old : ℕ) (next : RefreshToken) (begun after : Db)
    → Rotated old next begun after
    → IsLinked begun.tokens
    → IsLinked after.tokens
Rotated-IsLinked old next begun after r h =
    let row = token_row next r.inserted in
    let there : any (has_id next.id) (begun.tokens ++ row ∷ []) ≡ true =
      any-append (has_id next.id) begun.tokens (row ∷ []) ∙ (unfold token_row in ground arith) in
    rw r.tokens (
      IsLinked-rotate_row old next.id r.revoked_at (begun.tokens ++ row ∷ []) there
        (IsLinked-append begun.tokens begun.tokens row (unfold token_row in refl) h))

rotate-IsLinked :
    (old : ℕ) (next : RefreshToken) (db : Db)
    → IsLinked db.tokens
    → IsLinked (rotate old next db).1.tokens
unfolding rotate
rotate-IsLinked old next db h = left (transaction-Outcome (rotate_body old next) db)
  where
    left :
        Outcome (rotate_body old next) db (transaction (rotate_body old next) db)
        → IsLinked (transaction (rotate_body old next) db).1.tokens
    left (undone e failed kept) = rw kept h
    left (done u begun after won same ran kept) = rw kept (
        Rotated-IsLinked old next begun after (rotate_body-Rotated old next begun after u ran)
          (rw same h))

Stable-revoke_family : (family : ℕ) → Stable links_contract (revoke_family family)
unfolding revoke_family revoke_body links_contract revoke_rows
Stable-revoke_family family = Stable-transaction links_contract _ (
    Stable-bind links_contract _ _ (Stable-statement links_contract) λ _.
      Stable-bind links_contract _ _ (Stable-statement links_contract) λ _.
        Stable-bind links_contract _ _ (Stable-gets links_contract _) λ rows.
          Stable-bind links_contract (effect (revoke_rows family)) _
            (record { at = λ db g. IsLinked-revoke_row family db.clock db.tokens g })
            λ _. Stable-pure links_contract rows)

Stable-delete_expired : (older_than : Time) → Stable links_contract (delete_expired older_than)
unfolding delete_expired links_contract delete_rows
Stable-delete_expired older_than =
    Stable-bind links_contract _ _ (Stable-statement links_contract) λ _.
      Stable-bind links_contract _ _ (Stable-gets links_contract _) λ rows.
        Stable-bind links_contract (effect (delete_rows older_than)) _
          (record { at = λ db g. IsLinked-unlink (past_expiry older_than) db.tokens g })
          λ _. Stable-pure links_contract rows

-- The writes of the refresh token repository.
pub data Write : Type 0 where
  creates : RefreshToken → Write
  rotates_to : ℕ → RefreshToken → Write
  revokes : ℕ → Write
  deletes_expired : Time → Write

unfoldable pub write : Write → Db → Db
write (creates t) db = (create t db).1
write (rotates_to old next) db = (rotate old next db).1
write (revokes family) db = (revoke_family family db).1
write (deletes_expired older_than) db = (delete_expired older_than db).1

unfoldable pub writes : List Write → Db → Db
unfolding write
writes [] db = db
writes (x ∷ xs) db = writes xs (write x db)

-- Whatever writes the token repository makes in a row, and whatever statements fail, a table in which each
-- token that was replaced names a stored row as its successor, or none, stays so.
pub writes-IsLinked :
    (xs : List Write) (db : Db) → IsLinked db.tokens → IsLinked (writes xs db).tokens
unfolding writes write links_contract create
writes-IsLinked [] db h = h
writes-IsLinked (creates t ∷ xs) db h =
    writes-IsLinked xs (write (creates t) db) ((Stable-insert_token t).at db h)
writes-IsLinked (rotates_to old next ∷ xs) db h =
    writes-IsLinked xs (write (rotates_to old next) db) (rotate-IsLinked old next db h)
writes-IsLinked (revokes family ∷ xs) db h =
    writes-IsLinked xs (write (revokes family) db) ((Stable-revoke_family family).at db h)
writes-IsLinked (deletes_expired t ∷ xs) db h =
    writes-IsLinked xs (write (deletes_expired t) db) ((Stable-delete_expired t).at db h)
