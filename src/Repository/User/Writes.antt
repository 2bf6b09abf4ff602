-- ===== src/Repository/User/Writes.antt =====
-- The writes of internal/repository/user.go keep the table users consistent, whatever statement fails.
use activity_events_api.Prelude.{
  ℕ, suc, ◌≡◌, refl, Bool, true, false, not, ◌&&◌, Option, none, some, [], ◌∷◌, ◌++◌, inl, inr,
  arith, Bool-cases, any, find, ◌==◌, repository, not_found, Exec, All-append, effect,
}
use activity_events_api.Go.Text.{Bytes, bytes_eq}
use activity_events_api.Models.User.{User}
use activity_events_api.Repository.Db.{Db, rolled_back}
use activity_events_api.Repository.Db.Stable.{
  Contract, Stable, Stable-pure, Stable-raise, Stable-gets, Stable-bind, Stable-statement,
  Stable-transaction,
}
use activity_events_api.Repository.User.{
  same_email, same_sub, can_log_in, user_row, drawn, insert_user, create, scan_user, link_all,
  store_link, linkable, update_link, revoke_user, revoke_unless, attach_body, attach_google,
}
use activity_events_api.Repository.User.Unique.{
  Consistent, Keeps, HasMethod, email_clash, sub_clash, Rises-mono, Rises-append, Apart-append,
  email_clash-swap, sub_clash-swap, Rises-link, emails-link, methods-link, subs-link,
}

users_contract : Contract
unfolding rolled_back
users_contract = record {
  IsGood = Consistent;
  Keeps = Keeps;
  good = λ a b k. k.consistent;
  same = λ a c. record { consistent = c; drawn_on = omega arith };
  follow = λ a b c h k. record { consistent = k.consistent; drawn_on = omega arith };
  fault = λ a fs c. record {
    consistent = record { ids = c.ids; emails = c.emails; subs = c.subs; methods = c.methods };
    drawn_on = omega arith;
  };
  back = λ a b c k. record {
    consistent = record {
      ids = Rises-mono 0 a.next_user_id b.next_user_id a.users k.drawn_on c.ids;
      emails = c.emails;
      subs = c.subs;
      methods = c.methods;
    };
    drawn_on = k.drawn_on;
  };
}

drawn-Keeps : (db : Db) → Consistent db → Keeps db (drawn db)
unfolding drawn
drawn-Keeps db c = record {
  consistent = record {
    ids = Rises-mono 0 db.next_user_id (suc db.next_user_id) db.users (omega arith) c.ids;
    emails = c.emails;
    subs = c.subs;
    methods = c.methods;
  };
  drawn_on = omega arith;
}

stored-Keeps :
    (u : User) (db : Db)
    → can_log_in u ≡ true
    → any (same_email u.email) db.users ≡ false
    → any (same_sub u.google_sub) db.users ≡ false
    → Consistent db
    → Keeps db (record (drawn db) { users = db.users ++ user_row u db ∷ [] })
unfolding drawn user_row can_log_in same_email same_sub bytes_eq
stored-Keeps u db method email sub c = record {
  consistent = record {
    ids = Rises-append 0 db.next_user_id db.users (user_row u db) refl c.ids;
    emails = Apart-append email_clash db.users (user_row u db) email_clash-swap email c.emails;
    subs = Apart-append sub_clash db.users (user_row u db) sub_clash-swap sub c.subs;
    methods = All-append HasMethod db.users (user_row u db ∷ []) c.methods (method, tt);
  };
  drawn_on = omega arith;
}

insert_user-Keeps : (u : User) (db : Db) → Consistent db → Keeps db (insert_user u db).1
unfolding insert_user
insert_user-Keeps u db c = ground (arith, drawn-Keeps db c, stored-Keeps u db)

store_link-Keeps :
    (id : ℕ) (sub : Bytes) (name : Option Bytes) (verified : Bool) (row : Option User) (db : Db)
    → Consistent db
    → Keeps db (store_link id sub name verified row db).1
unfolding store_link link_all users_contract
store_link-Keeps id sub name verified none db c = users_contract.same db c
store_link-Keeps id sub name verified (some u) db c =
    elim (Bool-cases (any (λ v. not (v.id == id) && same_sub (some sub) v) db.users)) [
      | inl e ↦ rw e (record { consistent = c; drawn_on = omega arith })
      | inr e ↦ rw e (record {
        consistent = record {
          ids = Rises-link id sub name verified db.clock 0 db.next_user_id db.users c.ids;
          emails = emails-link id sub name verified db.clock db.users c.emails;
          subs = subs-link id sub name verified db.clock 0 db.next_user_id db.users c.ids e c.subs;
          methods = methods-link id sub name verified db.clock db.users c.methods;
        };
        drawn_on = omega arith;
      })
    ]

Stable-scan_user : (row : Option User) → Stable users_contract (scan_user row)
unfolding scan_user
Stable-scan_user none = Stable-raise users_contract (repository not_found)
Stable-scan_user (some u) = Stable-pure users_contract u

Stable-revoke_user : (id : ℕ) → Stable users_contract (effect (revoke_user id))
unfolding users_contract revoke_user
Stable-revoke_user id = record {
  at = λ db c. record {
    consistent = record { ids = c.ids; emails = c.emails; subs = c.subs; methods = c.methods };
    drawn_on = omega arith;
  };
}

Stable-revoke_unless :
    (verified : Bool) (id : ℕ) → Stable users_contract (revoke_unless verified id)
unfolding revoke_unless
Stable-revoke_unless true id = Stable-pure users_contract tt
Stable-revoke_unless false id =
    Stable-bind users_contract _ _ (Stable-statement users_contract) λ _. Stable-revoke_user id

Stable-update_link :
    (id : ℕ) (sub : Bytes) (name : Option Bytes) (verified : Bool)
    → Stable users_contract (update_link id sub name verified)
unfolding users_contract update_link
Stable-update_link id sub name verified = record {
  at = λ db c. store_link-Keeps id sub name verified (find (linkable id sub) db.users) db c;
}

Stable-attach_body :
    (id : ℕ) (sub : Bytes) (name : Option Bytes) (verified : Bool)
    → Stable users_contract (attach_body id sub name verified)
unfolding attach_body
Stable-attach_body id sub name verified =
    Stable-bind users_contract _ _ (Stable-statement users_contract) λ _.
      Stable-bind users_contract _ _ (Stable-gets users_contract _) λ row.
        Stable-bind users_contract _ _ (Stable-scan_user row) λ current.
          Stable-bind users_contract _ _ (Stable-statement users_contract) λ _.
            Stable-bind users_contract _ _ (Stable-update_link id sub name verified) λ updated.
              Stable-bind users_contract _ _ (Stable-revoke_unless current.email_verified id)
                λ _. Stable-pure users_contract updated

-- The writes of the user repository.
pub data Write : Type 0 where
  creates : User → Write
  attaches : ℕ → Bytes → Option Bytes → Bool → Write

unfoldable pub write : Write → Exec Db User
write (creates u) = create u
write (attaches id sub name verified) = attach_google id sub name verified

Stable-write : (o : Write) → Stable users_contract (write o)
unfolding write create attach_google users_contract
Stable-write (creates u) =
    Stable-bind users_contract _ _ (Stable-statement users_contract)
      λ _. record { at = insert_user-Keeps u }
Stable-write (attaches id sub name verified) =
    Stable-transaction users_contract _ (Stable-attach_body id sub name verified)

-- Whatever statements fail, registering a user or linking a Google account keeps the table consistent: ids
-- rise below the next id, no two users share an email, compared in lower case, or a Google account, every user
-- has a password or a Google account, and no id is given back.
pub write-Keeps : (o : Write) (db : Db) → Consistent db → Keeps db (write o db).1
unfolding users_contract
write-Keeps o = (Stable-write o).at
