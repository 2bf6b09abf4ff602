-- ===== src/Handler.antt =====
-- internal/handler: what an HTTP request asks of the services, and the response made of their answer. A
-- handler is a function of a `Request`, which holds what gin gives it; reading a body is the library's
-- part, so a handler that has one takes the outcome as a `Binding`.
pub mod Dto
pub mod Reply
pub mod Event
pub mod Aggregation
pub mod Auth
pub mod Stream
pub mod Health
pub mod Access
