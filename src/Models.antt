-- ===== src/Models.antt =====
-- internal/models: the records that the layers exchange, and the functions on them.
pub mod Event
pub mod Aggregation
pub mod User
pub mod Oauth
