-- ===== src/Handler/Stream.antt =====
-- The stream of internal/handler/event.go: the server-sent events of one request, over the live feed.
use activity_events_api.Prelude.{
  ℕ, Bool, true, false, Option, none, some, List, [], ◌∷◌, ◌++◌, if◌then◌else◌,
}
use activity_events_api.Prelude.Int.{pos}
use activity_events_api.Go.Text.{Bytes, codes}
use activity_events_api.Go.Decimal.{format_int}
use activity_events_api.Models.Event.{Event}
use activity_events_api.Stream.{
  Broker, Channel, get_elem?, subscribe, begin_cancel, finish_cancel, publish, receive,
}
use activity_events_api.Handler.Dto.{EventResponse, new_event_response}

-- `streamEventFrame`
unfoldable pub event_frame : ℕ → Bytes → Bytes
unfolding format_int
event_frame id payload =
    codes "id: "
    ++ format_int (pos id)
    ++ codes "\nevent: activity\ndata: "
    ++ payload
    ++ codes "\n\n"

-- `streamKeepAlive`
unfoldable pub keep_alive : Bytes
keep_alive = codes ": keep-alive\n\n"

-- What the loop's `select` may see next, with whether a write then succeeds, and what others do meanwhile.
pub data Turn : Type 0 where
  context_done : Turn
  channel_ready : Bool → Turn
  heartbeat : Bool → Turn
  others_publish : Event → Turn

is_closed : Option Channel → Bool
is_closed none = false
is_closed (some c) = c.closed

unfoldable pub after_publish : Broker → Option Broker → Broker
after_publish b none = b
after_publish b (some b') = b'

-- `json.Marshal` is the library's; an event that it refuses is skipped.
unfoldable pub written_if : Bool → Bytes → List Bytes × Broker → Broker → List Bytes × Broker
written_if true chunk rest b = (chunk ∷ rest.0, rest.1)
written_if false chunk rest b = ([], b)

unfoldable pub send_event :
    (EventResponse → Option Bytes)
    → Bool
    → Option Event
    → Bool
    → Broker
    → (List Bytes × Broker)
    → List Bytes × Broker
unfolding written_if event_frame new_event_response
send_event marshal writes none closed b rest = if closed then ([], b) else rest
send_event marshal writes (some e) closed b rest = elim (marshal (new_event_response e)) [
  | none ↦ rest
  | some payload ↦ written_if writes (event_frame e.id payload) rest b
]

-- The chunks written, and the broker when the loop returns.
unfoldable pub stream_loop :
    (EventResponse → Option Bytes) → ℕ → List Turn → Broker → List Bytes × Broker
unfolding is_closed after_publish send_event written_if keep_alive
stream_loop marshal id [] b = ([], b)
stream_loop marshal id (context_done ∷ turns) b = ([], b)
stream_loop marshal id (channel_ready writes ∷ turns) b =
    send_event marshal writes (receive id b).0 (is_closed (get_elem? b.channels id))
      (receive id b).1 (stream_loop marshal id turns (receive id b).1)
stream_loop marshal id (heartbeat writes ∷ turns) b =
    written_if writes keep_alive (stream_loop marshal id turns b) b
stream_loop marshal id (others_publish e ∷ turns) b =
    stream_loop marshal id turns (after_publish b (publish e b))

-- The deferred cancel runs on every way out.
unfoldable pub stream :
    (EventResponse → Option Bytes) → ℕ → List Turn → Broker → List Bytes × Broker
unfolding stream_loop
stream marshal user turns b =
    let out = stream_loop marshal (subscribe user b).0 turns (subscribe user b).1 in
    (out.0, finish_cancel (subscribe user b).0 (begin_cancel (subscribe user b).0 out.1))
