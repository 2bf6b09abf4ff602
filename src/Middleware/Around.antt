-- ===== src/Middleware/Around.antt =====
-- The other layers of internal/middleware: request ids, panics and the counters of requests. The body
-- limit is in how a body is bound (`Handler.Reply.Binding`).
use activity_events_api.Prelude.{none, some, List, [], ◌∷◌, any, length, ◌==◌, if◌then◌else◌}
use activity_events_api.Go.Text.{Bytes, codes, bytes_eq}
use activity_events_api.Handler.Reply.{Request, value_of}
use activity_events_api.Middleware.{Handler}
use activity_events_api.Middleware.Cors.{with_headers}

module _ {W : Type 0} where
  -- An id that the client sent is kept; `new_id` is `uuid.NewString`.
  unfoldable pub request_id : (W → Bytes × W) → Handler W → Handler W
  unfolding with_headers value_of
  request_id new_id next c w =
      let given = value_of (codes "X-Request-ID") c.headers in
      let drawn = if length given == 0 then new_id w else (given, w) in
      let out = next (record c { request_id = some drawn.0 }) drawn.1 in
      (with_headers ((codes "X-Request-ID", drawn.0) ∷ []) out.0, out.1)

unfoldable pub request_id_from : Request → Bytes
request_id_from c = elim c.request_id [ none ↦ [] | some id ↦ id ]

unfoldable pub known_methods : List Bytes
known_methods =
    codes "GET"
    ∷ codes "HEAD"
    ∷ codes "POST"
    ∷ codes "PUT"
    ∷ codes "PATCH"
    ∷ codes "DELETE"
    ∷ codes "OPTIONS"
    ∷ []

-- The label of a method; what is not known is one label.
unfoldable pub request_method : Bytes → Bytes
unfolding known_methods bytes_eq
request_method m = if any (bytes_eq m) known_methods then m else codes "other"
