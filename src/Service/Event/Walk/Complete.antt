-- ===== src/Service/Event/Walk/Complete.antt =====
-- Every row that a query asks for is on exactly one page, in order.
use mathlib.Core.List.{append_assoc}
use mathlib.Core.Path.{subst}
use activity_events_api.Prelude.{
  ℕ, zero, suc, ◌+◌, ◌<◌, ◌≡◌, refl, sym, ap, ◌∙◌, true, false, some, List, [], ◌∷◌, ◌++◌, arith,
  All, ok, length, take, drop, ◌==◌, take-append-drop, length-drop, length-take, length-append,
}
use activity_events_api.Models.Event.{Event}
use activity_events_api.Repository.Event.{EventFilter, matches, select_events}
use activity_events_api.Repository.Event.Keys.{Ascends}
use activity_events_api.Repository.Event.Order.{All-order_by_newest, All-filterb}
use activity_events_api.Service.Event.{EventDeps}
use activity_events_api.Service.Event.Page.{EventQuery, filter_of, in_order, page_size}
use activity_events_api.Service.Event.Cursor.{encode_cursor}
use activity_events_api.Service.Event.Cursor.RoundTrip.{decode_cursor-encode_cursor}
use activity_events_api.Service.Event.Walk.{
  IsStored, walk, walk_step, answer, base_filter, behind, select_events-behind, page_size_bounds,
  cursor_of_query-decode, length-decode,
}

All-at {κ} :
    (P : Event → Type κ) (pre : List Event) (x : Event) (post : List Event)
    → All P (pre ++ x ∷ post)
    → P x
All-at P [] x post a = a.0
All-at P (y ∷ pre) x post a = All-at P pre x post a.1

filter_of-first :
    (q : EventQuery)
    → in_order q.from q.to ≡ true
    → filter_of (record q { cursor = [] }) ≡ ok (base_filter q)
unfolding filter_of
filter_of-first q h = rw h

filter_of-behind :
    (q : EventQuery) (last : Event) (stored : IsStored last)
    → in_order q.from q.to ≡ true
    → filter_of (record q { cursor = encode_cursor last })
      ≡ ok (behind (base_filter q) refl last stored)
unfolding filter_of behind
filter_of-behind q last stored h = rw (
  h,
  cursor_of_query-decode (encode_cursor last) _
      (decode_cursor-encode_cursor last stored.in_range stored.small),
)

module _ {W : Type 0} (d : EventDeps W) (w : W) (rows : List Event) (next : ℕ)
    (rising : Ascends 0 next rows) (stored : All IsStored rows)
    (reads : (f : EventFilter) → d.list f w ≡ (ok (select_events f rows), w)) (q : EventQuery)
    (ordered : in_order q.from q.to ≡ true) where
  IsStored-at :
      (pre : List Event) (x : Event) (post : List Event)
      → answer q rows ≡ pre ++ x ∷ post
      → IsStored x
  unfolding answer
  IsStored-at pre x post e = All-at IsStored pre x post (
      subst (All IsStored) e (
        All-order_by_newest IsStored _
          (All-filterb IsStored (matches (base_filter q)) rows stored)))

  behind_at :
      (pre : List Event) (x : Event) (post : List Event)
      → answer q rows ≡ pre ++ x ∷ post
      → EventFilter
  behind_at pre x post e = behind (base_filter q) refl x (IsStored-at pre x post e)

  limit_at :
      (pre : List Event) (x : Event) (post : List Event) (e : answer q rows ≡ pre ++ x ∷ post)
      → (behind_at pre x post e).limit ≡ page_size q.limit + 1
  unfolding behind_at behind
  limit_at pre x post e = refl

  select_at :
      (pre : List Event) (x : Event) (post : List Event) (e : answer q rows ≡ pre ++ x ∷ post)
      → select_events (behind_at pre x post e) rows ≡ take (page_size q.limit + 1) post
  unfolding behind_at answer
  select_at pre x post e =
      select_events-behind (base_filter q) refl x (IsStored-at pre x post e) next rows pre post
        rising e

  move_on :
      (n : ℕ) (pre : List Event) (last : Event) (post init : List Event) (x : Event)
      → answer q rows ≡ pre ++ last ∷ post
      → take n post ≡ init ++ x ∷ []
      → answer q rows ≡ (pre ++ last ∷ init) ++ x ∷ drop n post
  move_on n pre last post init x e s =
      e
      ∙ ap (λ (l : List Event). pre ++ last ∷ l)
          (sym (take-append-drop n post)
            ∙ ap (λ l. l ++ drop n post) s
            ∙ append_assoc init (x ∷ []) (drop n post))
      ∙ sym (append_assoc pre (last ∷ init) (x ∷ drop n post))

  first_split :
      (n : ℕ) (init : List Event) (x : Event)
      → take n (answer q rows) ≡ init ++ x ∷ []
      → answer q rows ≡ init ++ x ∷ drop n (answer q rows)
  first_split n init x s =
      sym (take-append-drop n (answer q rows))
      ∙ ap (λ l. l ++ drop n (answer q rows)) s
      ∙ append_assoc init (x ∷ []) (drop n (answer q rows))

  shorter :
      (n fuel : ℕ) (post init : List Event) (x : Event)
      → 0 < n
      → take n post ≡ init ++ x ∷ []
      → length post < suc fuel
      → length (drop n post) < fuel
  shorter n fuel post init x p s h =
      omega
        (arith, length-drop n post, length-take n post, ap length s, length-append init (x ∷ []))

  some_cursor : (x : Event) → IsStored x → (length (encode_cursor x) == 0) ≡ false
  some_cursor x st = length-decode _ _ (decode_cursor-encode_cursor x st.in_range st.small)

  walk_from :
      (fuel : ℕ) (pre : List Event) (last : Event) (post : List Event)
      → answer q rows ≡ pre ++ last ∷ post
      → length post < fuel
      → walk d fuel (record q { cursor = encode_cursor last }) w ≡ (ok (some post), w)
  walk_from zero pre last post e h = elim h [ ]
  walk_from (suc fuel) pre last post e h =
      let n = page_size q.limit in
      walk_step d w rows reads fuel n (record q { cursor = encode_cursor last })
        (behind_at pre last post e) post
        (unfold behind_at in filter_of-behind q last (IsStored-at pre last post e) ordered)
        (limit_at pre last post e) (page_size_bounds q.limit).0 (select_at pre last post e)
        λ init x s.
          let e' = move_on n pre last post init x e s in
          (
            some_cursor x (IsStored-at (pre ++ last ∷ init) x (drop n post) e'),
            walk_from fuel (pre ++ last ∷ init) x (drop n post) e'
                (shorter n fuel post init x (page_size_bounds q.limit).0 s h),
          )

  -- For a repository that answers every listing from the same rows and changes nothing, a query whose range
  -- is in order, and rows whose ids rise below a bound, fit int64, and whose times are whole microseconds
  -- that int64 nanoseconds can name: following the cursor from the first page ends, within one page more than there are rows, and the
  -- pages together are all rows that match, in the order of the listing, each once.
  pub walk_complete :
      (fuel : ℕ)
      → length (answer q rows) < fuel
      → walk d fuel (record q { cursor = [] }) w ≡ (ok (some (answer q rows)), w)
  walk_complete zero h = elim h [ ]
  walk_complete (suc fuel) h =
      let n = page_size q.limit in
      walk_step d w rows reads fuel n (record q { cursor = [] }) (base_filter q) (answer q rows)
        (filter_of-first q ordered) refl (page_size_bounds q.limit).0
        (unfold answer select_events in refl)
        λ init x s.
          let e' = first_split n init x s in
          (
            some_cursor x (IsStored-at init x (drop n (answer q rows)) e'),
            walk_from fuel init x (drop n (answer q rows)) e'
                (shorter n fuel (answer q rows) init x (page_size_bounds q.limit).0 s h),
          )
