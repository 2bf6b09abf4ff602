-- ===== src/Repository/Event/Order.antt =====
-- ORDER BY occurred_at DESC, id DESC over rows whose ids rise along the table.
use activity_events_api.Prelude.{
  ℕ, suc, ◌≤◌, ◌<◌, ◌≡◌, refl, Bool, true, false, List, [], ◌∷◌, ◌++◌, inl, inr, arith, Bool-cases,
  All, filterb, if◌then◌else◌, ◌&&◌,
}
use mathlib.Core.List.{Perm}
use mathlib.Core.List.Perm
use activity_events_api.Models.Event.{Event}
use activity_events_api.Repository.Event.{newer, insert_sorted, order_by_newest}
use activity_events_api.Repository.Event.Keys.{Ascends}

pub newer_trans : (a b c : Event) → newer a b ≡ true → newer b c ≡ true → newer a c ≡ true
unfolding newer
newer_trans a b c h k = ground arith

pub newer_asym : (a b : Event) → newer a b ≡ true → newer b a ≡ false
unfolding newer
newer_asym a b h = ground arith

pub newer_irrefl : (a : Event) → newer a a ≡ false
unfolding newer
newer_irrefl a = ground arith

newer_total : (a b : Event) → a.id < b.id → newer b a ≡ false → newer a b ≡ true
unfolding newer
newer_total a b h k = ground arith

-- Each row is newer than all behind it.
abbrev pub Sorted : List Event → Type 0
Sorted [] = Unit {0}
Sorted (e ∷ es) = All (λ x. newer e x ≡ true) es × Sorted es

abbrev IsAbove : ℕ → Event → Type 0
IsAbove n e = n ≤ e.id

module _ {κ} (P : Event → Type κ) where
  pub All-insert_sorted :
      (e : Event) (es : List Event) → P e → All P es → All P (insert_sorted e es)
  unfolding insert_sorted
  All-insert_sorted e [] p h = (p, tt)
  All-insert_sorted e (x ∷ es) p h = elim (Bool-cases (newer x e)) [
    | inl c ↦ rw c (h.0, All-insert_sorted e es p h.1)
    | inr c ↦ rw c (p, h)
  ]

  pub All-order_by_newest : (es : List Event) → All P es → All P (order_by_newest es)
  unfolding order_by_newest
  All-order_by_newest [] h = tt
  All-order_by_newest (e ∷ es) h =
      All-insert_sorted e (order_by_newest es) h.0 (All-order_by_newest es h.1)

  pub All-filterb : (p : Event → Bool) (es : List Event) → All P es → All P (filterb p es)
  All-filterb p [] h = tt
  All-filterb p (e ∷ es) h = elim (Bool-cases (p e)) [
    | inl c ↦ rw c (h.0, All-filterb p es h.1)
    | inr c ↦ rw c (All-filterb p es h.1)
  ]

older_all :
    (e x : Event) (es : List Event)
    → newer e x ≡ true
    → All (λ y. newer x y ≡ true) es
    → All (λ y. newer e y ≡ true) es
older_all e x [] h a = tt
older_all e x (y ∷ es) h a = (newer_trans e x y h a.0, older_all e x es h a.1)

insert_sorted-Sorted :
    (e : Event) (es : List Event)
    → All (λ x. e.id < x.id) es
    → Sorted es
    → Sorted (insert_sorted e es)
unfolding insert_sorted
insert_sorted-Sorted e [] a s = (tt, tt)
insert_sorted-Sorted e (x ∷ es) a s = elim (Bool-cases (newer x e)) [
  | inl c ↦
      rw c (All-insert_sorted (λ y. newer x y ≡ true) e es c s.0, insert_sorted-Sorted e es a.1 s.1)
  | inr c ↦ let h = newer_total e x a.0 c in rw c ((h, older_all e x es h s.0), s)
]

ids_above : (low next : ℕ) (es : List Event) → Ascends low next es → All (λ x. low ≤ x.id) es
ids_above low next [] a = tt
ids_above low next (e ∷ es) a =
    (a.0, All-le low (suc e.id) es (omega arith) (ids_above (suc e.id) next es a.1))
  where
    All-le : (m n : ℕ) (xs : List Event) → m ≤ n → All (λ x. n ≤ x.id) xs → All (λ x. m ≤ x.id) xs
    All-le m n [] h b = tt
    All-le m n (x ∷ xs) h b = (omega arith, All-le m n xs h b.1)

-- The answer to a query is in strict order: each row is newer than all behind it.
pub order_by_newest-Sorted :
    (p : Event → Bool) (low next : ℕ) (es : List Event)
    → Ascends low next es
    → Sorted (order_by_newest (filterb p es))
unfolding order_by_newest
order_by_newest-Sorted p low next [] a = tt
order_by_newest-Sorted p low next (e ∷ es) a = elim (Bool-cases (p e)) [
  | inl c ↦ rw c (
      insert_sorted-Sorted e (order_by_newest (filterb p es))
        (All-order_by_newest (λ x. e.id < x.id) (filterb p es)
          (All-filterb (λ x. e.id < x.id) p es (ids_above (suc e.id) next es a.1)))
        (order_by_newest-Sorted p (suc e.id) next es a.1))
  | inr c ↦ rw c (order_by_newest-Sorted p (suc e.id) next es a.1)
]

-- Sorting loses no row and makes none up.
insert_sorted-perm : (e : Event) (es : List Event) → Perm (insert_sorted e es) (e ∷ es)
unfolding insert_sorted
insert_sorted-perm e [] = Perm.refl (e ∷ [])
insert_sorted-perm e (x ∷ es) = elim (Bool-cases (newer x e)) [
  | inl c ↦ rw c (Perm.trans (Perm.cons x (insert_sorted-perm e es)) (Perm.swap e x es))
  | inr c ↦ rw c (Perm.refl (e ∷ x ∷ es))
]

pub order_by_newest-perm : (es : List Event) → Perm (order_by_newest es) es
unfolding order_by_newest
order_by_newest-perm [] = Perm.refl []
order_by_newest-perm (e ∷ es) =
    Perm.trans (insert_sorted-perm e (order_by_newest es)) (Perm.cons e (order_by_newest-perm es))

insert_sorted_front :
    (e : Event) (es : List Event) → All (λ y. newer e y ≡ true) es → insert_sorted e es ≡ e ∷ es
unfolding insert_sorted
insert_sorted_front e [] a = refl
insert_sorted_front e (x ∷ es) a = rw (newer_asym e x a.0)

filterb-insert_sorted :
    (q : Event → Bool) (e : Event) (es : List Event)
    → All (λ x. e.id < x.id) es
    → Sorted es
    → filterb q (insert_sorted e es)
      ≡ (if q e then insert_sorted e (filterb q es) else filterb q es)
unfolding insert_sorted
filterb-insert_sorted q e [] a s = ground arith
filterb-insert_sorted q e (x ∷ es) a s = elim (Bool-cases (newer x e)) [
  | inl c ↦ ground (arith, filterb-insert_sorted q e es a.1 s.1)
  | inr c ↦
      let h = newer_total e x a.0 c in
      rw c (
        ground (
          arith,
          insert_sorted_front e (filterb q (x ∷ es))
              (All-filterb (λ y. newer e y ≡ true) q (x ∷ es) (h, older_all e x es h s.0)),
        ))
]

-- To filter and then sort is to sort and then filter.
pub filterb-order_by_newest :
    (q : Event → Bool) (low next : ℕ) (p : Event → Bool) (es : List Event)
    → Ascends low next es
    → filterb q (order_by_newest (filterb p es)) ≡ order_by_newest (filterb (λ e. p e && q e) es)
unfolding order_by_newest
filterb-order_by_newest q low next p [] a = refl
filterb-order_by_newest q low next p (e ∷ es) a =
    let ih = filterb-order_by_newest q (suc e.id) next p es a.1 in
    elim (Bool-cases (p e)) [
      | inl c ↦
          let step =
            filterb-insert_sorted q e (order_by_newest (filterb p es))
              (All-order_by_newest (λ x. e.id < x.id) (filterb p es)
                (All-filterb (λ x. e.id < x.id) p es (ids_above (suc e.id) next es a.1)))
              (order_by_newest-Sorted p (suc e.id) next es a.1) in
          elim (Bool-cases (q e)) [ inl d ↦ rw (c, step, d, ih) | inr d ↦ rw (c, step, d, ih) ]
      | inr c ↦ rw (c, ih)
    ]

filterb_all :
    (last : Event) (es : List Event)
    → All (λ x. newer last x ≡ true) es
    → filterb (newer last) es ≡ es
filterb_all last [] a = refl
filterb_all last (e ∷ es) a = rw (a.0, filterb_all last es a.1)

All-middle :
    (P : Event → Type 0) (pre : List Event) (x : Event) (post : List Event)
    → All P (pre ++ x ∷ post)
    → P x
All-middle P [] x post a = a.0
All-middle P (y ∷ pre) x post a = All-middle P pre x post a.1

-- In a sorted list exactly what stands behind a row is older than the row.
pub filterb-newer_middle :
    (pre : List Event) (last : Event) (post : List Event)
    → Sorted (pre ++ last ∷ post)
    → filterb (newer last) (pre ++ last ∷ post) ≡ post
filterb-newer_middle [] last post s = rw (newer_irrefl last) (filterb_all last post s.0)
filterb-newer_middle (x ∷ pre) last post s =
    rw (newer_asym x last (All-middle (λ y. newer x y ≡ true) pre last post s.0))
      (filterb-newer_middle pre last post s.1)
