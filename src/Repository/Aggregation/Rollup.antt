-- ===== src/Repository/Aggregation/Rollup.antt =====
-- What the two GROUP BYs of the aggregation query compute, against counting the events.
use Prim.Native.Nat.{min, max}
use activity_events_api.Prelude.{
  ℕ, ◌+◌, ◌≡◌, refl, sym, ◌∙◌, Bool, true, false, ◌&&◌, inl, inr, Option, none, some, List, [], ◌∷◌,
  arith, Bool-cases, length, filterb, find, ◌==◌, if◌then◌else◌,
}
use activity_events_api.Go.Text.{Bytes, bytes_eq, bytes_eq_iff}
use activity_events_api.Models.Event.{Event}
use activity_events_api.Repository.Aggregation.{
  TypeGroup, UserGroup, add_event, per_type, add_group, rolled,
}

-- The number of events that pass a test.
abbrev pub count : (Event → Bool) → List Event → ℕ
count p es = length (filterb p es)

abbrev pub of_user : ℕ → Event → Bool
of_user u e = e.user_id == u

abbrev pub of_type : ℕ → Bytes → Event → Bool
of_type u t e = (e.user_id == u) && bytes_eq e.type t

sum_cnt : ℕ → List TypeGroup → ℕ
sum_cnt u [] = 0
sum_cnt u (g ∷ gs) = (if g.user_id == u then g.cnt else 0) + sum_cnt u gs

sum_type : ℕ → Bytes → List TypeGroup → ℕ
sum_type u t [] = 0
sum_type u t (g ∷ gs) =
    (if (g.user_id == u) && bytes_eq g.type t then g.cnt else 0) + sum_type u t gs

sum_cnt-add_event :
    (u : ℕ) (e : Event) (gs : List TypeGroup)
    → sum_cnt u (add_event e gs) ≡ (if e.user_id == u then 1 else 0) + sum_cnt u gs
unfolding sum_cnt add_event
sum_cnt-add_event u e [] = ground arith
sum_cnt-add_event u e (g ∷ gs) = ground (arith, sum_cnt-add_event u e gs)

sum_type-add_event :
    (u : ℕ) (t : Bytes) (e : Event) (gs : List TypeGroup)
    → sum_type u t (add_event e gs) ≡ (if of_type u t e then 1 else 0) + sum_type u t gs
unfolding sum_type add_event
sum_type-add_event u t e [] = ground arith
sum_type-add_event u t e (g ∷ gs) =
    ground (arith, sum_type-add_event u t e gs, bytes_eq_iff g.type e.type)

sum_cnt-per_type : (u : ℕ) (es : List Event) → sum_cnt u (per_type es) ≡ count (of_user u) es
unfolding per_type
sum_cnt-per_type u [] = unfold sum_cnt in refl
sum_cnt-per_type u (e ∷ es) =
    ground (arith, sum_cnt-add_event u e (per_type es), sum_cnt-per_type u es)

sum_type-per_type :
    (u : ℕ) (t : Bytes) (es : List Event) → sum_type u t (per_type es) ≡ count (of_type u t) es
unfolding per_type
sum_type-per_type u t [] = unfold sum_type in refl
sum_type-per_type u t (e ∷ es) =
    ground (arith, sum_type-add_event u t e (per_type es), sum_type-per_type u t es)

abbrev pub group_of : ℕ → List UserGroup → Option UserGroup
group_of u us = find (λ g. g.user_id == u) us

-- The count that an object of counts gives to a type.
unfoldable pub type_total : Bytes → List (Bytes × ℕ) → ℕ
type_total t [] = 0
type_total t ((s, n) ∷ cs) = (if bytes_eq s t then n else 0) + type_total t cs

-- What a user's group says of the groups by type.
abbrev Sums : ℕ → List TypeGroup → Option UserGroup → Type 0
Sums u gs none = (sum_cnt u gs ≡ 0) × ((t : Bytes) → sum_type u t gs ≡ 0)
Sums u gs (some g) =
    (g.event_count ≡ sum_cnt u gs) × ((t : Bytes) → type_total t g.type_counts ≡ sum_type u t gs)

merged : TypeGroup → UserGroup → UserGroup
merged g u = record u {
  event_count = g.cnt + u.event_count;
  type_counts = (g.type, g.cnt) ∷ u.type_counts;
  first_event_at = min g.first_at u.first_event_at;
  last_event_at = max g.last_at u.last_event_at;
}

single : TypeGroup → UserGroup
single g = record {
  user_id = g.user_id;
  event_count = g.cnt;
  type_counts = (g.type, g.cnt) ∷ [];
  first_event_at = g.first_at;
  last_event_at = g.last_at;
}

merge : TypeGroup → Option UserGroup → UserGroup
unfolding merged single
merge g none = single g
merge g (some u) = merged g u

group_of-add_group :
    (u : ℕ) (g : TypeGroup) (us : List UserGroup)
    → group_of u (add_group g us)
      ≡ (if g.user_id == u then some (merge g (group_of u us)) else group_of u us)
unfolding add_group merge
group_of-add_group u g [] = ground arith
group_of-add_group u g (x ∷ us) = ground (arith, group_of-add_group u g us)

Sums-merge :
    (u : ℕ) (g : TypeGroup) (gs : List TypeGroup) (o : Option UserGroup)
    → (g.user_id == u) ≡ true
    → Sums u gs o
    → Sums u (g ∷ gs) (some (merge g o))
unfolding merge sum_cnt sum_type type_total
Sums-merge u g gs none e s = (ground (arith, s.0), λ t. ground (arith, s.1 t))
Sums-merge u g gs (some x) e s = (ground (arith, s.0), λ t. ground (arith, s.1 t))

Sums-other :
    (u : ℕ) (g : TypeGroup) (gs : List TypeGroup) (o : Option UserGroup)
    → (g.user_id == u) ≡ false
    → Sums u gs o
    → Sums u (g ∷ gs) o
unfolding sum_cnt sum_type
Sums-other u g gs none e s = (ground (arith, s.0), λ t. ground (arith, s.1 t))
Sums-other u g gs (some x) e s = (ground (arith, s.0), λ t. ground (arith, s.1 t))

rolled-Sums : (u : ℕ) (gs : List TypeGroup) → Sums u gs (group_of u (rolled gs))
unfolding rolled
rolled-Sums u [] = unfold sum_cnt sum_type in (refl, λ t. refl)
rolled-Sums u (g ∷ gs) = elim (Bool-cases (g.user_id == u)) [
  | inl e ↦
      rw (group_of-add_group u g (rolled gs), e)
        (Sums-merge u g gs (group_of u (rolled gs)) e (rolled-Sums u gs))
  | inr e ↦
      rw (group_of-add_group u g (rolled gs), e)
        (Sums-other u g gs (group_of u (rolled gs)) e (rolled-Sums u gs))
]

-- What a user's group says of the events themselves.
abbrev pub Counts : ℕ → List Event → Option UserGroup → Type 0
Counts u es none = count (of_user u) es ≡ 0
Counts u es (some g) =
    (g.event_count ≡ count (of_user u) es)
    × ((t : Bytes) → type_total t g.type_counts ≡ count (of_type u t) es)

Counts-Sums :
    (u : ℕ) (es : List Event) (o : Option UserGroup) → Sums u (per_type es) o → Counts u es o
Counts-Sums u es none s = sym (sum_cnt-per_type u es) ∙ s.0
Counts-Sums u es (some g) s = (s.0 ∙ sum_cnt-per_type u es, λ t. s.1 t ∙ sum_type-per_type u t es)

pub groups-Counts : (u : ℕ) (es : List Event) → Counts u es (group_of u (rolled (per_type es)))
groups-Counts u es =
    Counts-Sums u es (group_of u (rolled (per_type es))) (rolled-Sums u (per_type es))
