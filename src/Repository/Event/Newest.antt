-- ===== src/Repository/Event/Newest.antt =====
-- The answer to a query of `list` in internal/repository/event.go, against what ORDER BY occurred_at DESC,
-- id DESC LIMIT says of it.
use activity_events_api.Prelude.{
  ℕ, zero, suc, ◌≤◌, ◌<◌, ◌≡◌, refl, true, List, [], ◌∷◌, ◌++◌, ◌⊎◌, inl, inr, arith, ok, All,
  filterb, length, take, drop, take-append-drop, length-take,
}
use mathlib.Core.List.{Perm}
use activity_events_api.Models.Event.{Event}
use activity_events_api.Repository.Db.{Db}
use activity_events_api.Repository.Db.Up.{statement_up}
use activity_events_api.Repository.Event.{
  EventFilter, matches, newer, order_by_newest, select_events, list,
}
use activity_events_api.Repository.Event.Keys.{Ascends}
use activity_events_api.Repository.Event.Order.{
  Sorted, order_by_newest-Sorted, order_by_newest-perm,
}

-- A later instant comes first, and of two rows of one instant the greater id.
abbrev pub IsNewer : Event → Event → Type 0
IsNewer a b = (b.occurred_at < a.occurred_at) ⊎ ((b.occurred_at ≡ a.occurred_at) × (b.id < a.id))

abbrev pub InOrder : List Event → Type 0
InOrder [] = Unit {0}
InOrder (e ∷ es) = All (IsNewer e) es × InOrder es

newer-IsNewer : (a b : Event) → newer a b ≡ true → IsNewer a b
unfolding newer
newer-IsNewer a b h = ground arith

All-IsNewer : (e : Event) (es : List Event) → All (λ x. newer e x ≡ true) es → All (IsNewer e) es
All-IsNewer e [] h = tt
All-IsNewer e (x ∷ es) h = (newer-IsNewer e x h.0, All-IsNewer e es h.1)

Sorted-InOrder : (es : List Event) → Sorted es → InOrder es
Sorted-InOrder [] s = tt
Sorted-InOrder (e ∷ es) s = (All-IsNewer e es s.0, Sorted-InOrder es s.1)

-- The page that answers a query, and the matching rows it leaves out, which all come behind it.
pub record Newest (f : EventFilter) (db : Db) : Type 0 where
  pub page : List Event
  pub rest : List Event
  pub answer : list f db ≡ (ok page, db)
  pub complete : Perm (page ++ rest) (filterb (matches f) db.events)
  pub ordered : InOrder (page ++ rest)
  pub limited : length page ≤ f.limit
  pub full : (rest ≡ []) ⊎ (length page ≡ f.limit)

drop_or_full : (n : ℕ) (xs : List Event) → (drop n xs ≡ []) ⊎ (length (take n xs) ≡ n)
drop_or_full zero xs = inr refl
drop_or_full (suc n) [] = inl refl
drop_or_full (suc n) (x ∷ xs) = elim (drop_or_full n xs) [
  | inl h ↦ inl h
  | inr h ↦ inr (omega arith)
]

-- With the database up and the ids rising along the table, a query answers with a page of at most
-- `limit` rows and changes nothing. The page with the rows left out are the matching rows, each once, in
-- order: the later first, and of one instant the greater id first. Rows are left out only by a full page.
pub list-Newest :
    (f : EventFilter) (low next : ℕ) (db : Db)
    → db.faults ≡ []
    → Ascends low next db.events
    → Newest f db
list-Newest f low next db up a =
    let all = order_by_newest (filterb (matches f) db.events) in
    let whole = take-append-drop f.limit all in
    record {
      page = take f.limit all;
      rest = drop f.limit all;
      answer = unfold list select_events in rw (statement_up db up) refl;
      complete = rw whole (order_by_newest-perm (filterb (matches f) db.events));
      ordered =
          rw whole (Sorted-InOrder all (order_by_newest-Sorted (matches f) low next db.events a));
      limited = omega (arith, length-take f.limit all);
      full = drop_or_full f.limit all;
    }
