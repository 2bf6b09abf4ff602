-- ===== src/Service/Event/Cursor.antt =====
-- The pagination cursor: `encodeCursor` and `decodeCursor` of internal/service/event.go.
pub mod RoundTrip
use activity_events_api.Prelude.{
  Option, none, some, ◌∷◌, ◌++◌, Result, ok, err, service, invalid_cursor,
}
use activity_events_api.Prelude.Int.{ℤ, pos}
use activity_events_api.Go.Text.{Bytes, cut}
use activity_events_api.Go.Decimal.{format_int, parse_int}
use activity_events_api.Go.Base64.{encode_to_string, decode_string}
use activity_events_api.Go.Clock.{Time, unix, unix_nano}
use activity_events_api.Models.Event.{Event}

raw_cursor : Event → Bytes
raw_cursor e = format_int (unix_nano e.occurred_at) ++ b':' ∷ format_int (pos e.id)

unfoldable pub encode_cursor : Event → Bytes
unfolding raw_cursor
encode_cursor e = encode_to_string (raw_cursor e)

position : Option ℤ → Option ℤ → Result (Time × ℤ)
position (some nanos) (some id) = ok (unix nanos, id)
position _ _ = err (service invalid_cursor)

parts : Option (Bytes × Bytes) → Result (Time × ℤ)
unfolding position
parts none = err (service invalid_cursor)
parts (some (occurred_at, id)) = position (parse_int occurred_at) (parse_int id)

unpack : Option Bytes → Result (Time × ℤ)
unfolding parts
unpack none = err (service invalid_cursor)
unpack (some raw) = parts (cut b':' raw)

unfoldable pub decode_cursor : Bytes → Result (Time × ℤ)
unfolding unpack
decode_cursor cursor = unpack (decode_string cursor)
