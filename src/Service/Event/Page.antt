-- ===== src/Service/Event/Page.antt =====
-- The listing of internal/service/event.go: what a query asks of the repository, and the page made of
-- the answer, which holds one event more than the page if there is a next one.
use activity_events_api.Prelude.{
  ℕ, zero, suc, ◌+◌, ◌-◌, Bool, true, not, Option, none, some, List, [], ◌∷◌, Result, ok, err,
  service, invalid_time_range, length, take, ltb, ◌==◌, then_ok, if◌then◌else◌,
}
use activity_events_api.Prelude.Int.{ℤ, pos, negsuc}
use activity_events_api.Go.Text.{Bytes}
use activity_events_api.Go.Clock.{Time, before}
use activity_events_api.Models.Event.{Event, normalize_event_type}
use activity_events_api.Repository.Event.{EventFilter}
use activity_events_api.Service.Event.Cursor.{encode_cursor, decode_cursor}

abbrev pub default_page_size : ℕ
default_page_size = 50

abbrev pub max_page_size : ℕ
max_page_size = 200

pub record EventQuery : Type 0 where
  pub user_id : ℕ
  pub types : List Bytes
  pub from : Option Time
  pub to : Option Time
  pub limit : ℤ
  pub cursor : Bytes

pub record EventPage : Type 0 where
  pub items : List Event
  pub next_cursor : Bytes

unfoldable pub page_size : ℤ → ℕ
page_size (pos zero) = default_page_size
page_size (pos (suc n)) = if ltb max_page_size (suc n) then max_page_size else suc n
page_size (negsuc n) = default_page_size

unfoldable pub normalize_types : List Bytes → List Bytes
normalize_types [] = []
normalize_types (t ∷ ts) =
    let t' = normalize_event_type t in
    let rest = normalize_types ts in if length t' == 0 then rest else t' ∷ rest

unfoldable pub in_order : Option Time → Option Time → Bool
in_order (some from) (some to) = before from to
in_order _ _ = true

unfoldable pub cursor_of_query : Bytes → Result (Option (Time × ℤ))
cursor_of_query [] = ok none
cursor_of_query (c ∷ cs) = then_ok (decode_cursor (c ∷ cs)) (λ p. ok (some p))

unfoldable pub with_cursor : EventFilter → Option (Time × ℤ) → EventFilter
with_cursor f none = f
with_cursor f (some (t, i)) = record f { before_time = some t; before_id = some i }

unfoldable pub filter_of : EventQuery → Result EventFilter
unfolding normalize_types in_order cursor_of_query with_cursor page_size
filter_of q =
    if not (in_order q.from q.to)
    then err (service invalid_time_range)
    else then_ok (cursor_of_query q.cursor) λ c. ok (
        with_cursor
          (record {
            user_id = q.user_id;
            types = normalize_types q.types;
            from = q.from;
            to = q.to;
            limit = page_size q.limit + 1;
            before_time = none;
            before_id = none;
          })
          c)

-- the cursor of `page.Items[len(page.Items)-1]`
unfoldable pub last_cursor : List Event → Bytes
last_cursor [] = []
last_cursor (e ∷ []) = encode_cursor e
last_cursor (e ∷ f ∷ es) = last_cursor (f ∷ es)

unfoldable pub page_of : ℕ → List Event → EventPage
unfolding last_cursor
page_of limit events =
    if length events == limit
    then record {
      items = take (limit - 1) events;
      next_cursor = last_cursor (take (limit - 1) events);
    }
    else record { items = events; next_cursor = [] }
