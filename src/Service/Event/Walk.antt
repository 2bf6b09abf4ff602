-- ===== src/Service/Event/Walk.antt =====
-- Following `next_cursor` from page to page, as a client of the listing does.
pub mod Complete
use mathlib.Core.List.{append_assoc}
use mathlib.Core.Path.{fun_ext}
use activity_events_api.Prelude.{
  ℕ, zero, suc, ◌+◌, ◌-◌, ◌≤◌, ◌<◌, ◌^◌, ◌≡◌, refl, sym, ap, ◌∙◌, Bool, true, false, not, ◌&&◌,
  ◌||◌, Option, none, some, List, [], ◌∷◌, ◌++◌, inl, inr, arith, Bool-cases, All, Result, ok, err,
  Exec, ◌>>=◌, pure, raise, service, invalid_cursor, filterb, length, take, drop, leb, ltb, ◌==◌,
  if◌then◌else◌, then_ok, length-take, take-append-drop, length-drop, take_all, take-take, ==_iff,
  ltb→lt, ltb-false→le,
}
use activity_events_api.Prelude.Int.{ℤ, pos, negsuc}
use activity_events_api.Go.Text.{Bytes, cut}
use activity_events_api.Go.Base64.{decode_string}
use activity_events_api.Go.Clock.{Time, timestamptz, InUnixRange}
use activity_events_api.Models.Event.{Event}
use activity_events_api.Repository.Event.{
  EventFilter, matches, behind_cursor, row_before, newer, order_by_newest, select_events,
}
use activity_events_api.Repository.Event.Keys.{Ascends}
use activity_events_api.Repository.Event.Order.{
  Sorted, order_by_newest-Sorted, filterb-order_by_newest, filterb-newer_middle,
  All-order_by_newest, All-filterb,
}
use activity_events_api.Service.Event.{EventDeps, list_events}
use activity_events_api.Service.Event.Page.{
  EventQuery, EventPage, filter_of, page_of, last_cursor, cursor_of_query, normalize_types,
  page_size, max_page_size,
}
use activity_events_api.Service.Event.Cursor.{encode_cursor, decode_cursor}
use activity_events_api.Service.Event.Cursor.RoundTrip.{decode_cursor-encode_cursor}

-- What a row of the table satisfies: its time is a whole number of microseconds, within the range that
-- nanoseconds in int64 can name, and its id is an int64.
pub record IsStored (e : Event) : Type 0 where
  pub whole : timestamptz e.occurred_at ≡ e.occurred_at
  pub in_range : InUnixRange e.occurred_at
  pub small : e.id < 2 ^ 63

-- `none` where `fuel` pages did not reach the end.
prepend : List Event → Option (List Event) → Option (List Event)
prepend items none = none
prepend items (some rest) = some (items ++ rest)

-- `none` where `fuel` pages did not reach the end.
unfoldable pub walk : {W : Type 0} → EventDeps W → ℕ → EventQuery → Exec W (Option (List Event))
unfolding prepend
walk d zero q = pure none
walk d (suc fuel) q =
    let more = λ (page : EventPage).
      walk d fuel (record q { cursor = page.next_cursor }) >>= λ rest.
      pure (prepend page.items rest) in
    list_events d q >>= λ page.
    if length page.next_cursor == 0 then pure (some page.items) else more page

-- Adding a cursor to a filter asks for the rows behind it too.
module _ (f : EventFilter) (start : f.before_time ≡ none) (last : Event)
    (stored : IsStored last) where
  pub behind : EventFilter
  behind = record f { before_time = some last.occurred_at; before_id = some (pos last.id) }

  matches-behind : (e : Event) → matches behind e ≡ (matches f e && newer last e)
  unfolding matches newer behind
  matches-behind e = rw (stored.whole, start) (ground arith)

  -- The query with the cursor answers with what the query without it has behind the last row.
  pub select_events-behind :
      (next : ℕ) (rows pre post : List Event)
      → Ascends 0 next rows
      → order_by_newest (filterb (matches f) rows) ≡ pre ++ last ∷ post
      → select_events behind rows ≡ take f.limit post
  unfolding select_events behind
  select_events-behind next rows pre post a e = ap (take f.limit) (
      ap (λ (p : Event → Bool). order_by_newest (filterb p rows)) (fun_ext matches-behind)
      ∙ sym (filterb-order_by_newest (newer last) 0 next (matches f) rows a)
      ∙ ap (filterb (newer last)) e
      ∙ filterb-newer_middle pre last post
          (rw e at (order_by_newest-Sorted (matches f) 0 next rows a)))

decode_nil : (p : Time × ℤ) → ¬ (decode_cursor [] ≡ ok p)
unfolding decode_cursor decode_string cut
decode_nil p h = cc

pub cursor_of_query-decode :
    (c : Bytes) (p : Time × ℤ) → decode_cursor c ≡ ok p → cursor_of_query c ≡ ok (some p)
unfolding cursor_of_query
cursor_of_query-decode [] p h = absurd (decode_nil p h)
cursor_of_query-decode (b ∷ bs) p h = rw h

pub length-decode : (c : Bytes) (p : Time × ℤ) → decode_cursor c ≡ ok p → (length c == 0) ≡ false
length-decode [] p h = absurd (decode_nil p h)
length-decode (b ∷ bs) p h = ground arith

-- The last row of a page, and the cursor that the page hands out.
record LastRow (xs : List Event) : Type 0 where
  init : List Event
  last : Event
  split : xs ≡ init ++ last ∷ []
  cursor : last_cursor xs ≡ encode_cursor last

last_row : (x : Event) (xs : List Event) → LastRow (x ∷ xs)
unfolding last_cursor
last_row x [] = record { init = []; last = x; split = refl; cursor = refl }
last_row x (y ∷ xs) =
    let r = last_row y xs in
    record { init = x ∷ r.init; last = r.last; split = ap (λ l. x ∷ l) r.split; cursor = r.cursor }

LastRow-of : (xs : List Event) → 0 < length xs → LastRow xs
LastRow-of [] h = absurd (omega arith)
LastRow-of (x ∷ xs) h = last_row x xs

-- The filter of a query's first page.
abbrev pub base_filter : EventQuery → EventFilter
base_filter q = record {
  user_id = q.user_id;
  types = normalize_types q.types;
  from = q.from;
  to = q.to;
  limit = page_size q.limit + 1;
  before_time = none;
  before_id = none;
}

pub page_size_bounds : (limit : ℤ) → (0 < page_size limit) × (page_size limit ≤ max_page_size)
unfolding page_size
page_size_bounds (pos zero) = omega arith
page_size_bounds (pos (suc n)) = ground arith
page_size_bounds (negsuc n) = omega arith

-- The rows that a query is about, the newest first.
unfoldable pub answer : EventQuery → List Event → List Event
answer q rows = order_by_newest (filterb (matches (base_filter q)) rows)

page_of_short :
    (n : ℕ) (post : List Event)
    → length post ≤ n
    → page_of (n + 1) (take (n + 1) post) ≡ record { items = post; next_cursor = [] }
unfolding page_of
page_of_short n post h = rw (take_all (n + 1) post (omega arith)) (ground arith)

page_of_full :
    (n : ℕ) (post : List Event)
    → n < length post
    → page_of (n + 1) (take (n + 1) post)
      ≡ record { items = take n post; next_cursor = last_cursor (take n post) }
unfolding page_of
page_of_full n post h =
    let full : length (take (n + 1) post) ≡ n + 1 = omega (arith, length-take (n + 1) post) in
    let less : n + 1 - 1 ≡ n = omega arith in
    rw ((==_iff _ _).1 full, less, take-take n (n + 1) post (omega arith))

module _ {W : Type 0} (d : EventDeps W) (w : W) (rows : List Event)
    (reads : (f : EventFilter) → d.list f w ≡ (ok (select_events f rows), w)) where
  list_events_page :
      (q : EventQuery) (f : EventFilter) (n : ℕ) (post : List Event)
      → filter_of q ≡ ok f
      → f.limit ≡ n + 1
      → select_events f rows ≡ take (n + 1) post
      → list_events d q w ≡ (ok (page_of (n + 1) (take (n + 1) post)), w)
  unfolding list_events
  list_events_page q f n post hf hl hs = rw (hf, reads f, hs, hl)

  walk_last :
      (fuel : ℕ) (q : EventQuery) (page : EventPage)
      → list_events d q w ≡ (ok page, w)
      → page.next_cursor ≡ []
      → walk d (suc fuel) q w ≡ (ok (some page.items), w)
  unfolding walk
  walk_last fuel q page h c = rw (h, c)

  walk_more :
      (fuel : ℕ) (q : EventQuery) (page : EventPage) (rest : List Event)
      → list_events d q w ≡ (ok page, w)
      → (length page.next_cursor == 0) ≡ false
      → walk d fuel (record q { cursor = page.next_cursor }) w ≡ (ok (some rest), w)
      → walk d (suc fuel) q w ≡ (ok (some (page.items ++ rest)), w)
  unfolding walk
  walk_more fuel q page rest h c r = rw (h, c, r)

  pub walk_step :
      (fuel n : ℕ) (q : EventQuery) (f : EventFilter) (post : List Event)
      → filter_of q ≡ ok f
      → f.limit ≡ n + 1
      → 0 < n
      → select_events f rows ≡ take (n + 1) post
      → ((init : List Event) (last : Event)
          → take n post ≡ init ++ last ∷ []
          → ((length (encode_cursor last) == 0) ≡ false)
            × (walk d fuel (record q { cursor = encode_cursor last }) w
                ≡ (ok (some (drop n post)), w)))
      → walk d (suc fuel) q w ≡ (ok (some post), w)
  walk_step fuel n q f post hf hl hn hs rest = elim (Bool-cases (ltb n (length post))) [
    | inl more ↦
        let r =
          LastRow-of (take n post)
            (omega (arith, length-take n post, ltb→lt n (length post) more)) in
        let (some_cursor, tail) = rest r.init r.last r.split in
        rw (← take-append-drop n post) (
          walk_more fuel q (record { items = take n post; next_cursor = last_cursor (take n post) })
            (drop n post)
            (list_events_page q f n post hf hl hs
              ∙ ap (λ p. (ok p, w)) (page_of_full n post (ltb→lt n (length post) more)))
            (rw r.cursor some_cursor) (rw r.cursor tail))
    | inr done ↦
        walk_last fuel q (record { items = post; next_cursor = [] })
          (list_events_page q f n post hf hl hs
            ∙ ap (λ p. (ok p, w)) (page_of_short n post (ltb-false→le n (length post) done)))
          refl
  ]
