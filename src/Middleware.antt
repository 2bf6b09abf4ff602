-- ===== src/Middleware.antt =====
-- internal/middleware: what runs around a handler. A handler maps a request and the world to a response
-- and the world; `next` is the rest of the chain.
pub mod Auth
pub mod Cors
pub mod Around
use activity_events_api.Handler.Reply.{Request, Response}

abbrev pub Handler : Type 0 → Type 0
Handler W = Request → W → Response × W
