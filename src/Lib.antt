-- ===== src/Lib.antt =====
-- A verification library of jwt-exchange, a service that takes a JWT of an identity provider and gives
-- a JWT of its own for it. Paths are those of the repository; `X.Y` is the file X/Y.antt.
--
-- The parts and how they interact. A request reaches the handler of src/handlers/exchange.rs through
-- the middleware of src/middleware.rs; the handler finds the token and calls `exchange_token` of
-- src/services/token_service.rs, which reads the cache of keys of src/auth/jwks.rs (and may force its
-- refresh), validates the token, records its identifier in the table of src/db/audit.rs, and mints the
-- new token. The handler then records the attempt by src/services/audit_service.rs, in the table
-- `request_log` and in the channel of the exporter of src/logging/splunk.rs. src/app.rs starts these
-- parts in their order, on the pool of src/db/pool.rs, and closes the pool at the end.
--
-- Which file models which part:
--   Prelude, Result, Task, Maps, Str, Http: shared names, `Result`, fallible work on a state, maps, the
--     operations of `str` (split, trim, strip_prefix, parse) and the HTTP types. They model Rust and
--     its standard library.
--   Crates: the functions of the dependencies that the program calls, as the record `Crates`. It is a
--     parameter; nothing is assumed of it, save where a theorem names a hypothesis. Crates.Sample is
--     one choice of them, for the tests.
--   Error, Models, Config: src/error.rs, src/models/api.rs, src/config.rs. The environment is a function
--     of the variable's name.
--   Auth.Jwks: src/auth/jwks.rs. `CachedJwks` is the struct; each method gives its result and the cache
--     after it. Auth.Jwks.Discovery has the loop at the start, Auth.Jwks.History runs of whole
--     refreshes, Auth.Jwks.Interleaved refreshes that run at the same time, as a step relation in
--     which each lock of the cache is a step.
--   Auth.Signing: src/auth/signing.rs on Unix, over a map from paths to files.
--   Db.Replay: the table `used_jti` and `check_and_record_jti`, `purge_expired_jtis` of src/db/audit.rs.
--     Db.Replay.Spec states what the table promises as sets of identifiers, Db.Replay.History runs of
--     whole calls and ticks of the hourly purge, Db.Replay.Interleaved single statements of concurrent
--     calls, as a step relation.
--   Db.AuditLog, Services.AuditService: the table `request_log`, with `insert_audit_log`,
--     `purge_old_logs`, the daily task, and `log_exchange_attempt`. The functions of SQLite that the
--     purge uses are the parameter `Sqlite`.
--   Db.Migrations, Db.Pool: the files of migrations/, and `create_pool`, `check_connection` and
--     `checkpoint_and_close` of src/db/pool.rs. The migrator of sqlx is a parameter.
--   Services.Base64, Services.Kid, Services.Groups: `base64url_decode`, `extract_kid` and
--     `filter_groups` of src/services/token_service.rs.
--   Services.Mint, Services.Exchange: `exchange_token` of the same file, over the state `Shared` of the
--     cache and the table. What the outside answers during one exchange is the record `Moment`.
--     Services.Exchange.Machine has the same exchange as a task in steps, one for each lock of the cache
--     and each statement on the table, and Services.Exchange.Machine.Tasks any number of such tasks
--     beside refreshes in the background and purges, as a step relation.
--   Logging.Splunk: the events, batches and attempts of src/logging/splunk.rs.
--   Middleware, Handlers.Exchange, Handlers.Probes: src/middleware.rs and src/handlers.
--   App: src/app.rs and src/main.rs. `Machine` is what a start changes; App.Routes has the routes with
--     the middleware around them, App.Shutdown the two steps of the end.
--
-- Numbers and fuel. Lengths, counts and instants are natural numbers (instants in nanoseconds), seconds
-- of the clock are integers whose `i64` sums wrap, and the window of the Base64 decoder is a `u32` whose
-- shifts drop what leaves it. The loop of the discovery runs on a fuel of five attempts, which is
-- enough: the fifth failure ends it. All other loops are recursions on their input. A task of
-- Services.Exchange.Machine has ten steps on its longest path, and `drive` runs as many as it is told.
--
-- A fault of the database is an argument of the call that meets it. A panic is `none`.
--
-- Not modelled: the timers of the background tasks, whose ticks are events of a history; the bytes of
-- JSON and HTTP; the client of the Splunk exporter with its TLS; the workers of actix and the wait for
-- the signal of the end; and logging by `tracing`.
-- An insertion into the audit is taken where its task is spawned.
pub mod Prelude
pub mod Result
pub mod Task
pub mod Str
pub mod Http
pub mod Error
pub mod Models
pub mod Config
pub mod Maps
pub mod Crates
pub mod App
pub mod Auth
pub mod Db
pub mod Services
pub mod Logging
pub mod Handlers
pub mod Middleware
