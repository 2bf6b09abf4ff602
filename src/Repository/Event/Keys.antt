-- ===== src/Repository/Event/Keys.antt =====
-- The unique index and the checks of the table events, and that an INSERT keeps them.
use activity_events_api.Prelude.{
  ℕ, suc, ◌≤◌, ◌≡◌, refl, Bool, true, false, Option, none, some, List, [], ◌∷◌, ◌++◌, arith, any,
  All, All-append,
}
use activity_events_api.Go.Text.{Bytes, bytes_eq, bytes_eq_iff}
use activity_events_api.Models.Event.{Event}
use activity_events_api.Repository.Db.{Db}
use activity_events_api.Repository.Event.{
  same_key, conflicts, type_check, draw_id, row_of, insert_row,
}

-- Ids rise along the table and stay between the bounds.
abbrev pub Ascends : ℕ → ℕ → List Event → Type 0
Ascends low next [] = low ≤ next
Ascends low next (e ∷ es) = (low ≤ e.id) × Ascends (suc e.id) next es

-- No two rows of one user have the same key.
abbrev pub KeysUnique : List Event → Type 0
KeysUnique [] = Unit {0}
KeysUnique (e ∷ es) = (any (conflicts e.user_id e.idempotency_key) es ≡ false) × KeysUnique es

abbrev pub IsTyped : Event → Type 0
IsTyped e = type_check e.type ≡ true

pub record IsConsistent (db : Db) : Type 0 where
  pub ids : Ascends 0 db.next_event_id db.events
  pub keys : KeysUnique db.events
  pub types : All IsTyped db.events

pub Ascends-mono : (low m n : ℕ) (es : List Event) → m ≤ n → Ascends low m es → Ascends low n es
Ascends-mono low m n [] h a = omega arith
Ascends-mono low m n (e ∷ es) h a = (a.0, Ascends-mono (suc e.id) m n es h a.1)

Ascends-append :
    (low next : ℕ) (es : List Event) (e : Event)
    → e.id ≡ next
    → Ascends low next es
    → Ascends low (suc next) (es ++ e ∷ [])
Ascends-append low next [] e p a = (omega arith, omega arith)
Ascends-append low next (x ∷ es) e p a = (a.0, Ascends-append (suc x.id) next es e p a.1)

bytes_eq_sym : (s t : Bytes) → bytes_eq s t ≡ bytes_eq t s
bytes_eq_sym s t = ground (arith, bytes_eq_iff s t, bytes_eq_iff t s)

same_key_sym : (j k : Option Bytes) → same_key j k ≡ same_key k j
unfolding same_key
same_key_sym none none = refl
same_key_sym none (some k) = refl
same_key_sym (some j) none = refl
same_key_sym (some j) (some k) = bytes_eq_sym j k

conflicts_sym :
    (d e : Event)
    → conflicts d.user_id d.idempotency_key e ≡ conflicts e.user_id e.idempotency_key d
unfolding conflicts
conflicts_sym d e = ground (arith, same_key_sym d.idempotency_key e.idempotency_key)

any-append-false :
    (p : Event → Bool) (es : List Event) (e : Event)
    → any p es ≡ false
    → p e ≡ false
    → any p (es ++ e ∷ []) ≡ false
any-append-false p [] e h k = ground arith
any-append-false p (x ∷ es) e h k = ground (arith, any-append-false p es e)

KeysUnique-append :
    (es : List Event) (e : Event)
    → any (conflicts e.user_id e.idempotency_key) es ≡ false
    → KeysUnique es
    → KeysUnique (es ++ e ∷ [])
KeysUnique-append [] e h k = (refl, tt)
KeysUnique-append (x ∷ es) e h k = (
  any-append-false (conflicts x.user_id x.idempotency_key) es e k.0
      (ground (arith, conflicts_sym x e)),
  KeysUnique-append es e (ground arith) k.1,
)

-- A change that keeps the table consistent and gives no id back.
pub record Keeps (old new : Db) : Type 0 where
  pub consistent : IsConsistent new
  pub drawn : old.next_event_id ≤ new.next_event_id

draw_id-Keeps : (db : Db) → IsConsistent db → Keeps db (draw_id db)
unfolding draw_id
draw_id-Keeps db c = record {
  consistent = record {
    ids = Ascends-mono 0 db.next_event_id (suc db.next_event_id) db.events (omega arith) c.ids;
    keys = c.keys;
    types = c.types;
  };
  drawn = omega arith;
}

stored-Keeps :
    (db : Db) (e : Event)
    → e.id ≡ db.next_event_id
    → type_check e.type ≡ true
    → any (conflicts e.user_id e.idempotency_key) db.events ≡ false
    → IsConsistent db
    → Keeps db (record (draw_id db) { events = db.events ++ e ∷ [] })
unfolding draw_id
stored-Keeps db e fresh typed new c = record {
  consistent = record {
    ids = Ascends-append 0 db.next_event_id db.events e fresh c.ids;
    keys = KeysUnique-append db.events e new c.keys;
    types = All-append IsTyped db.events (e ∷ []) c.types (typed, tt);
  };
  drawn = omega arith;
}

pub insert_row-Keeps :
    (e : Event) (p : Option Bytes) (db : Db) → IsConsistent db → Keeps db (insert_row e p db).1
unfolding insert_row
insert_row-Keeps e none db c = record { consistent = c; drawn = omega arith }
insert_row-Keeps e (some p) db c =
    ground (arith, draw_id-Keeps db c, stored-Keeps db (row_of e p db) (unfold row_of in refl))
