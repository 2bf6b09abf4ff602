-- ===== src/Repository/Db/Stable.antt =====
-- What holds of a table before and after every action on the database, whatever statement fails: the
-- contract a table gives, and one rule for each way to build an action.
use activity_events_api.Prelude.{
  Bool, true, false, List, [], ◌∷◌, Result, ok, err, Error, Exec, ◌>>=◌, settle, pure, raise, gets,
  catch, continue,
}
use activity_events_api.Repository.Db.{
  Db, statement, take_fault, transaction, settle_tx, close, rolled_back,
}

-- `Keeps old new` says that the change from `old` keeps the table good, which neither a fault nor a
-- rollback breaks.
pub record Contract : Type 1 where
  pub IsGood : Db → Type 0
  pub Keeps : Db → Db → Type 0
  pub good : (a b : Db) → Keeps a b → IsGood b
  pub same : (a : Db) → IsGood a → Keeps a a
  pub follow : (a b c : Db) → Keeps a b → Keeps b c → Keeps a c
  pub fault : (a : Db) (fs : List Bool) → IsGood a → Keeps a (record a { faults = fs })
  pub back : (a b : Db) → IsGood a → Keeps a b → Keeps a (rolled_back a b)

-- Every run of `m` from a good table, failing or not, keeps it so.
pub record Stable {A : Type 0} (c : Contract) (m : Exec Db A) : Type 0 where
  pub at : (db : Db) → c.IsGood db → c.Keeps db (m db).1

module _ (c : Contract) {A : Type 0} where
  pub Stable-pure : (a : A) → Stable c (pure {W = Db} a)
  Stable-pure a = record { at = c.same }

  pub Stable-raise : (e : Error) → Stable c (raise {W = Db} {A = A} e)
  Stable-raise e = record { at = c.same }

  pub Stable-gets : (f : Db → A) → Stable c (gets f)
  Stable-gets f = record { at = c.same }

module _ (c : Contract) {A B : Type 0} where
  Stable-settle :
      (r : Result A) (f : A → Exec Db B) (h : Error → Exec Db B)
      → ((a : A) → Stable c (f a))
      → ((e : Error) → Stable c (h e))
      → Stable c (settle r f h)
  Stable-settle (ok a) f h kf kh = record { at = λ db g. (kf a).at db g }
  Stable-settle (err e) f h kf kh = record { at = λ db g. (kh e).at db g }

  pub Stable-catch :
      (m : Exec Db A) (f : A → Exec Db B) (h : Error → Exec Db B)
      → Stable c m
      → ((a : A) → Stable c (f a))
      → ((e : Error) → Stable c (h e))
      → Stable c (catch m f h)
  Stable-catch m f h km kf kh = record {
    at = λ db g.
        let k = km.at db g in
        c.follow db (m db).1 _ k
          ((Stable-settle (m db).0 f h kf kh).at (m db).1 (c.good db (m db).1 k));
  }

  pub Stable-continue :
      (r : Result A) (f : A → Exec Db B) → ((a : A) → Stable c (f a)) → Stable c (continue r f)
  Stable-continue (ok a) f kf = record { at = λ db g. (kf a).at db g }
  Stable-continue (err e) f kf = record { at = c.same }

  pub Stable-bind :
      (m : Exec Db A) (f : A → Exec Db B)
      → Stable c m
      → ((a : A) → Stable c (f a))
      → Stable c (m >>= f)
  Stable-bind m f km kf = record {
    at = λ db g.
        let k = km.at db g in
        c.follow db (m db).1 _ k
          ((Stable-continue (m db).0 f kf).at (m db).1 (c.good db (m db).1 k));
  }

module _ (c : Contract) where
  take_fault-Keeps :
      (fs : List Bool) (db : Db) → c.IsGood db → c.Keeps db db → c.Keeps db (take_fault fs db).1
  unfolding take_fault
  take_fault-Keeps [] db g k = k
  take_fault-Keeps (true ∷ fs) db g k = c.fault db fs g
  take_fault-Keeps (false ∷ fs) db g k = c.fault db fs g

  pub Stable-statement : Stable c statement
  unfolding statement
  Stable-statement = record { at = λ db g. take_fault-Keeps db.faults db g (c.same db g) }

  close-Keeps :
      {A : Type 0} (old new : Db) (a : A) (r : Result (Unit {0}))
      → c.IsGood old
      → c.Keeps old new
      → c.Keeps old (close old a (r, new)).1
  unfolding close
  close-Keeps old new a (ok _) g k = k
  close-Keeps old new a (err e) g k = c.back old new g k

  settle_tx-Keeps :
      {A : Type 0} (old new : Db) (r : Result A)
      → c.IsGood old
      → c.Keeps old new
      → c.Keeps old (settle_tx old (r, new)).1
  unfolding settle_tx
  settle_tx-Keeps old new (ok a) g k =
      close-Keeps old (statement new).1 a (statement new).0 g
        (c.follow old new _ k (Stable-statement.at new (c.good old new k)))
  settle_tx-Keeps old new (err e) g k = c.back old new g k

  pub Stable-transaction :
      {A : Type 0} (body : Exec Db A) → Stable c body → Stable c (transaction body)
  unfolding transaction
  Stable-transaction body kb =
      Stable-bind c statement _ Stable-statement
        λ _. record { at = λ db g. settle_tx-Keeps db (body db).1 (body db).0 g (kb.at db g) }
