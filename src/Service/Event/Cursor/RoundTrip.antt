-- ===== src/Service/Event/Cursor/RoundTrip.antt =====
-- A cursor that a page hands out is read back as the position that it stands for.
use activity_events_api.Prelude.{◌<◌, ◌^◌, ◌≡◌, ok, All, All-append, arith}
use activity_events_api.Prelude.Int.{pos}
use activity_events_api.Go.Decimal.{
  parse_int-format_int, format_int, format_int-IsBelowColon, any-colon, IsBelowColon-IsByte,
}
use activity_events_api.Go.Text.{cut-append}
use activity_events_api.Go.Base64.{IsByte, decode-encode}
use activity_events_api.Go.Clock.{InUnixRange, unix-unix_nano, unix_nano-IsInt64}
use activity_events_api.Models.Event.{Event}
use activity_events_api.Service.Event.Cursor.{encode_cursor, decode_cursor, raw_cursor}

raw_cursor-IsByte : (e : Event) → All IsByte (raw_cursor e)
unfolding raw_cursor
raw_cursor-IsByte e =
    All-append IsByte _ _ (IsBelowColon-IsByte _ (format_int-IsBelowColon _))
      (omega arith, IsBelowColon-IsByte _ (format_int-IsBelowColon _))

-- If the event's time fits int64 nanoseconds and its id fits int64, decoding its cursor gives its time
-- and its id.
pub decode_cursor-encode_cursor :
    (e : Event)
    → InUnixRange e.occurred_at
    → e.id < 2 ^ 63
    → decode_cursor (encode_cursor e) ≡ ok (e.occurred_at, pos e.id)
unfolding decode_cursor encode_cursor
decode_cursor-encode_cursor e t i = rw (decode-encode _ (raw_cursor-IsByte e)) (
    unfold raw_cursor in
    rw (
      cut-append b':' _ (format_int (pos e.id)) (any-colon _ (format_int-IsBelowColon _)),
      parse_int-format_int _ (unix_nano-IsInt64 e.occurred_at),
      parse_int-format_int (pos e.id) i,
      unix-unix_nano _ t,
    ))
