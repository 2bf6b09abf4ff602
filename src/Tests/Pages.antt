-- ===== src/Tests/Pages.antt =====
-- Listings of two rows, and the cursor of one.
use activity_events_api.Prelude.{
  ◌+◌, ◌≡◌, ◌<◌, refl, true, false, none, some, [], ◌∷◌, arith, ok, length,
}
use activity_events_api.Prelude.Int.{pos}
use activity_events_api.Go.Text.{trim_space, to_lower, codes, bytes_eq}
use activity_events_api.Repository.Db.{Db, statement, take_fault}
use activity_events_api.Repository.Event.{
  EventFilter, order_by_newest, list, matches, insert_sorted, newer,
}
use activity_events_api.Repository.Event.Newest.{Newest, list-Newest}
use activity_events_api.Models.Event.{normalize_event_type}
use activity_events_api.Service.Event.{normalize, normalize_payload}
use activity_events_api.Service.Event.Accepted.{Accepted, normalize-Accepted}
use activity_events_api.Service.Event.Page.{EventQuery, normalize_types, in_order}
use activity_events_api.Service.Event.Cursor.{encode_cursor, decode_cursor}
use activity_events_api.Service.Event.Cursor.RoundTrip.{decode_cursor-encode_cursor}
use activity_events_api.Service.Event.Walk.{IsStored, walk, answer}
use activity_events_api.Service.Event.Walk.Complete.{walk_complete}
use activity_events_api.System.{World, clock_now, event_deps, in_db}
use activity_events_api.Stream.{new_broker}
use activity_events_api.Tests.Events.{keyed, braces, noon, click, one_click}

abbrev two_clicks : Db
two_clicks = record (one_click []) {
  events = click 1 noon ∷ click 2 (noon + 5000) ∷ [];
  next_event_id = 3;
}

abbrev pub resting : Db → World
resting db = record {
  db = db;
  broker = new_broker;
  panicked = false;
  ingested = [];
  finished = [];
  lags = [];
}

abbrev one_by_one : EventQuery
one_by_one = record { user_id = 7; types = []; from = none; to = none; limit = pos 1; cursor = [] }

click-IsStored : IsStored (click 1 noon)
click-IsStored = record {
  whole = refl;
  in_range = record { from = omega arith; to = omega arith };
  small = omega arith;
}

later_click-IsStored : IsStored (click 2 (noon + 5000))
later_click-IsStored = record {
  whole = refl;
  in_range = record { from = omega arith; to = omega arith };
  small = omega arith;
}

decode_cursor-encode_cursor_example :
    decode_cursor (encode_cursor (click 1 noon)) ≡ ok (noon, pos 1)
decode_cursor-encode_cursor_example =
    decode_cursor-encode_cursor (click 1 noon) click-IsStored.in_range click-IsStored.small

-- One row on the page, and one behind it.
abbrev one_click_filter : EventFilter
one_click_filter = record {
  user_id = 7;
  types = codes "click" ∷ [];
  from = none;
  to = none;
  limit = 1;
  before_time = none;
  before_id = none;
}

list-Newest_example : Newest one_click_filter two_clicks
list-Newest_example =
    list-Newest one_click_filter 0 3 two_clicks refl (omega arith, (omega arith, omega arith))

two_clicks-answer : length (answer one_by_one two_clicks.events) < 3
unfolding answer order_by_newest matches insert_sorted newer normalize_types
two_clicks-answer = omega arith

-- Two pages of one event, read through the database.
walk_complete_example :
    walk (event_deps braces (λ s. true)) 3 one_by_one (resting two_clicks)
    ≡ (ok (some (answer one_by_one two_clicks.events)), resting two_clicks)
unfolding event_deps in_db list statement take_fault in_order
walk_complete_example =
    walk_complete (event_deps braces (λ s. true)) (resting two_clicks) two_clicks.events 3
      (omega arith, (omega arith, omega arith)) (click-IsStored, (later_click-IsStored, tt))
      (λ f. refl) one_by_one refl 3 two_clicks-answer

normalize-Accepted_example :
    Accepted 7
      (noon + 1000000000)
      (record (keyed (click 0 (noon + 1000000000)) (codes "k")) { created_at = 0 })
unfolding event_deps clock_now normalize normalize_payload normalize_event_type trim_space to_lower
    bytes_eq
normalize-Accepted_example =
    normalize-Accepted (event_deps braces (λ s. true)) 7
      (record {
        type = codes " Click ";
        payload = [];
        occurred_at = none;
        idempotency_key = codes "k";
      })
      (resting two_clicks) (resting two_clicks)
      (record (keyed (click 0 (noon + 1000000000)) (codes "k")) { created_at = 0 }) refl
