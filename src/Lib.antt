-- ===== src/Lib.antt =====
-- Activity events API: a service that stores the events of users, lists them by pages, sends new ones to
-- live subscribers, and rolls them up into windows for statistics.
--
-- The parts, and the files that model them:
--   Prelude        shared names, list functions, `Exec W A` (a call that may change a world `W` and returns
--                  a value or an error) and the sentinel errors of internal/*/errors.go
--   Go             what the program uses of Go's standard library: strings, decimal and base64 coding, time
--   Models         internal/models: events, users, tokens, windows, states and codes of the Google sign-in
--   Repository.Db  the PostgreSQL tables of migrations/, their clock, and statements that may fail
--   Repository     internal/repository: Event, Aggregation, Statistics (the reading half of
--                  aggregation.go), Token (refresh_token.go), User and Oauth (google_oauth.go)
--   Service        internal/service: Event (with Cursor and Page), Aggregation, and Auth (with Google, and
--                  with internal/auth/password.go)
--   Stream         internal/stream/broker.go, the live feed
--   System         internal/app/deps.go: the services over the database and the feed, as the handlers see
--                  them (Api), what is built for which mode (Build), and what the layers guarantee together
--                  (Access, Refusal, Sessions, Watermark, CatchUp)
--   Config         internal/config/config.go: the settings (Load) and their checks, and what settings that
--                  pass promise (Checked)
--   Auth           internal/auth: Jwt (access tokens), Google (id tokens and the code flow), Keys (the cache
--                  of Google's public keys)
--   Handler        internal/handler and internal/response: Dto, Reply (what the handlers share), Event,
--                  Stream (the loop that writes the feed), Aggregation, Auth (with google_oauth.go), Health;
--                  Access is about whose events a listing shows
--   Middleware     internal/middleware: Auth (the guards), Cors, Around (request ids, labels)
--   Router         internal/router/router.go: the table of routes
--   Scheduler      internal/scheduler/scheduler.go: the worker's loop
--   Tests          the theorems applied to concrete states
--
-- How the code is represented. A Go method is a function of the same name in snake_case; its receiver's
-- dependencies are a record of operations (`EventDeps`, `AggregationDeps`, `AuthDeps`) over any world,
-- which `System` fills with the repositories and the broker. An instant or a duration is a natural number of
-- nanoseconds, an instant counted from Go's zero time, so that a subtraction below zero stops there; that
-- is before the year 1. A string is a list of bytes. Identifiers are natural numbers and bounded by int64
-- only where a theorem says so. A statement is one SQL command: its WHERE, ORDER BY, GROUP BY and
-- ON CONFLICT are written out on lists of rows, and the list `faults` of the database says which of the
-- statements to come fail, BEGIN and COMMIT included. JSON is read by parameters (`jsonb_object` for
-- PostgreSQL's, `unmarshals_to_object` for Go's).
--
-- Concurrency. The feed's state is changed by steps that interleave freely (`Stream.Reach.Step`); a cancel
-- is two steps, for the channel is closed after the lock is given up. A database transaction is one step,
-- and `locked` holds the advisory locks that others hold. The two locks around the cache of Google's keys
-- make a refresh and a look into it one step each; the scheduler's loop is a function of the signals it sees.
--
-- Bounds and fuel. The loop over windows runs on fuel `(to - from) / size + 2`, of which
-- `buckets_between-windows` needs no more. Paging has fuel for one page more than there are rows.
--
-- HTTP. A handler is a function from a request and the world to a response and the world. gin's part is in
-- the types: a `Request` holds what gin shows of it, `Binding` is what reading a body gave, and a guard is a
-- function around a handler, which passes on a request with the caller and the role filled in. JSON is not
-- printed: a response holds the values of its body.
--
-- Not modelled: the signatures of tokens, random values and hashes, JSON, and the sending of requests, which
-- are parameters; the parsers of durations, URLs and networks (`Parsers`); the documentation pages, logging,
-- the gauges of the metrics, the recovery from panics, the connection pool, migrations, the seeder and
-- start-up.
mod Prelude
pub mod Go
pub mod Models
pub mod Repository
pub mod Service
pub mod Stream
pub mod Handler
pub mod Auth
pub mod Middleware
pub mod Router
pub mod Config
pub mod Scheduler
pub mod System
pub mod Tests
