-- ===== src/Repository.antt =====
-- internal/repository: the SQL statements of the repositories as functions on the tables.
pub mod Db
pub mod Event
pub mod Aggregation
pub mod Statistics
pub mod Token
pub mod User
pub mod Oauth
