-- ===== src/Handler/Event.antt =====
-- internal/handler/event.go, but for the stream.
use activity_events_api.Prelude.{
  ℕ, Bool, true, false, List, map, Result, ok, err, Error, service, invalid_event_type,
  invalid_event_payload, event_time_out_of_range, invalid_idempotency_key,
  duplicate_idempotency_key, empty_batch, batch_too_large, invalid_cursor, invalid_time_range, Exec,
  length, ◌==◌, if◌then◌else◌,
}
use activity_events_api.Go.Text.{codes}
use activity_events_api.Models.Event
use activity_events_api.Service.Event.{EventInput, BatchResult}
use activity_events_api.Service.Event.Page.{EventQuery, EventPage}
use activity_events_api.Handler.Dto.{
  EventRequest, BatchRequest, Formats, to_input, new_event_response, new_event_page_response,
  new_batch_response,
}
use activity_events_api.Handler.Reply.{
  Request, Response, Binding, Code, proceed, json, reply_error, bind_json, current_user,
  target_user, time_query, limit_query, value_of, values_of, event, page, batch,
}

-- `EventService`
pub record EventApi (W : Type 0) : Type 0 where
  pub record_one : ℕ → EventInput → Exec W (Event.Event × Bool)
  pub record_all : ℕ → List EventInput → Exec W BatchResult
  pub list : EventQuery → Exec W EventPage

-- The log line of the last case is left out.
unfoldable pub fail : Error → Response
unfolding reply_error
fail (service invalid_event_type) =
    reply_error 400 Code.validation_failed
      "Event type must not be empty and must be at most 64 characters"
fail (service invalid_event_payload) =
    reply_error 400 Code.validation_failed "Event payload must be a json object of at most 8 KB"
fail (service event_time_out_of_range) =
    reply_error 400 Code.validation_failed "occurred_at is too far in the future or in the past"
fail (service invalid_idempotency_key) =
    reply_error 400 Code.validation_failed "Idempotency key is too long"
fail (service duplicate_idempotency_key) =
    reply_error 400 Code.validation_failed "The same idempotency key is used twice in one batch"
fail (service empty_batch) = reply_error 400 Code.validation_failed "The batch has no events"
fail (service batch_too_large) =
    reply_error 400 Code.validation_failed "The batch holds more events than the limit allows"
fail (service invalid_cursor) = reply_error 400 Code.invalid_cursor "Pagination cursor is invalid"
fail (service invalid_time_range) = reply_error 400 Code.validation_failed "from must be before to"
fail _ = reply_error 500 Code.internal_error "Internal server error"

unfoldable pub answer : {W A : Type 0} → (A → Response) → Result A × W → Response × W
unfolding fail
answer f (ok a, w) = (f a, w)
answer f (err e, w) = (fail e, w)

unfoldable pub created_status : Bool → ℕ
created_status true = 201
created_status false = 200

-- The key of the body, or else that of the header.
unfoldable pub with_key : Request → EventRequest → EventRequest
unfolding value_of
with_key c req =
    if length req.idempotency_key == 0
    then record req { idempotency_key = value_of (codes "Idempotency-Key") c.headers }
    else req

module _ {W : Type 0} (api : EventApi W) (formats : Formats) where
  unfoldable pub create : Request → Binding EventRequest → W → Response × W
  unfolding current_user bind_json with_key to_input answer json new_event_response created_status
  create c body = proceed (current_user c) λ user_id. proceed (bind_json body) λ req w.
      answer (λ r. json (created_status r.1) (event (new_event_response r.0)))
        (api.record_one user_id (to_input (with_key c req)) w)

  unfoldable pub create_batch : Request → Binding BatchRequest → W → Response × W
  unfolding current_user bind_json to_input answer json new_batch_response
  create_batch c body = proceed (current_user c) λ user_id. proceed (bind_json body) λ req w.
      answer (λ r. json 201 (batch (new_batch_response r)))
        (api.record_all user_id (map to_input req.events) w)

  unfoldable pub list_events : Request → W → Response × W
  unfolding current_user target_user limit_query time_query value_of values_of answer json
      new_event_page_response
  list_events c = proceed (current_user c) λ user_id. proceed (target_user c user_id) λ target.
      proceed (limit_query c) λ limit.
        proceed (time_query formats c (codes "from") "from must be an RFC 3339 timestamp") λ from.
          proceed (time_query formats c (codes "to") "to must be an RFC 3339 timestamp") λ to w.
            answer (λ p. json 200 (page (new_event_page_response target p)))
              (api.list
                (record {
                  user_id = target;
                  types = values_of (codes "type") c.query;
                  from = from;
                  to = to;
                  limit = limit;
                  cursor = value_of (codes "cursor") c.query;
                })
                w)
