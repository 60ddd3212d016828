-- ===== src/Lib.antt =====
-- A verification library for multi-tenant-messaging: an HTTP service that keeps tenants and messages in
-- PostgreSQL, gives every tenant its own RabbitMQ queue, and consumes it with a pool of workers.
--
-- How the program works. A request runs through the table of internal/routes: registration and login are
-- open, everything else under /api/v1 passes the JWT middleware first. A route of internal/routes/tenant.go
-- writes a tenant's row through the service (internal/service/tenant_service.go) and then starts, resizes
-- or stops the tenant's consumer at the manager (internal/tenant/manager.go). A consumer has a channel on
-- which the manager declares the tenant's queues, a goroutine that turns deliveries into work items and
-- acknowledges them, and a worker pool (internal/tenant/worker_pool.go), whose goroutines process items with
-- retries against the tables `messages` and `dead_letter_messages`. Messages enter the queue through the publisher
-- (internal/rabbitmq/publisher.go) or the manager's `PublishMessage`, and are read back page by page.
--
-- The files:
--   Base        names shared by all files; Base/Int: Go's signed integers with their wrap-around;
--               Base/Assoc: maps; Base/Lists, Base/Tests: lists and Boolean tests on native numbers
--   Json        what is used of encoding/json; `Message` of internal/tenant/manager.go
--   Pool        internal/tenant/worker_pool.go: `NewWorkerPool`, `Start`, `Resize`, `Submit`, `Stop`,
--               `GetWorkerCount`, `SubmitRabbitMQMessage`; Pool/Steps: the interleavings of senders,
--               workers and `Stop`; Pool/Size, Pool/Order, Pool/Shutdown: counts, items, stopping
--   Db          the tables, and how a SQL statement may end; Db/Rows: lookups after statements;
--               Db/Keys, Db/Outcomes
--   Retry       internal/tenant/worker_pool.go: `processWork`, `processWithRetry`, `handleMessage`,
--               `moveToDeadLetter`; Retry/Attempts, Delay, Rows, DeadLetter,
--               Completion, Tables, Payload, Redelivery
--   Amqp        requests over channels of github.com/streadway/amqp; Amqp/Requests: runs of requests
--   Topology    `declareTenantQueues`, `DeleteTenantQueues` of internal/tenant/manager.go and their
--               twins in internal/rabbitmq/connection.go; Topology/Names, Topology/Declared
--   Publisher   internal/rabbitmq/publisher.go and `PublishMessage`; Publisher/Loop, Batch, Format
--   Manager     internal/tenant/manager.go: `SpawnConsumer`, `StopConsumer`, `UpdateConcurrency`,
--               `GetConsumer`, `ShutdownAll`, `GetConsumerCount`, `ListConsumers`; Manager/Bounds,
--               Registry, Spawn, Limit, Lifecycle, Histories, Counts, Replay; Manager/Shared, Interleavings: calls that overlap
--   Delivery    internal/tenant/manager.go: `processMessage`, `consumeMessages`; Delivery/Replies,
--               Consumption, Loss, Roundtrip, Registry
--   Tenants     `TenantService` of internal/service/tenant_service.go; Tenants/Rows, Statements,
--               Cases, Calls, Replay, Creation, Pages
--   Messages    `MessageService` of the same file; Messages/Create, Page, Order, Walk
--   Auth        internal/service/auth_service.go, internal/repository/user_repository.go and
--               internal/model/user.go; Auth/Registration, Login, Tables,
--               Ids, References
--   Routes      internal/routes/tenant.go: the handlers there; Routes/Consistency, Routes/Deletion;
--               Routes/Steps, Routes/Race: requests that overlap
--   Http        statuses and bodies, and `ErrorHandler` of cmd/api/main.go; Http/Request: what the code
--               reads of a request
--   Handlers    internal/handler: Handlers/Tenants, Messages, Accounts; Handlers/Limits, Roundtrip;
--               Handlers/Cursor: the cursors that nothing uses; Base/Base64: their encoding
--   Middleware  internal/handler/middleware/jwt.go; Middleware/Bearer
--   Router      the tables of internal/routes and the walk through them; Router/Guard: requests without a
--               token; Router/Admitted: those with one; Router/Sessions: several requests
--   Config      internal/config/config.go; Config/Load, Config/Workers; Base/Text: `strconv.Atoi`,
--               `strings.SplitN`
--   Connection  internal/rabbitmq/connection.go: `Connection`; Connection/Steps: the interleavings;
--               Connection/Locking, Connection/Loss
--   Boot        `main` of cmd/api/main.go; Boot/Process: the process as a whole; Boot/Fresh, Boot/Restart,
--               Boot/Shutdown; Boot/Lost: the connection that the manager is given
--   Integrity   the constraints of the tables and of the registry in the running application:
--               Integrity/Database, Routes, Requests, Overlaps, Run; Integrity/Ending: the end of the process
--   Journey     a message from its publication to the answer of a request
--   Examples    concrete data (Examples/Web: a router and a token), and the theorems applied to it
--
-- State and effects. A Go struct is a record, a method that changes it a function from the old record to
-- the new one with the method's result. A map is an association list, a channel's buffer a list with
-- a capacity, a running goroutine a number in a counter. `select` statements and idle receivers are
-- arguments (`Select`) or steps of a relation (`Step`). Errors are values with a constructor for each
-- message; a panic is `none` or `panicked`.
--
-- Parameters. The broker's answers (`Answers`: a request is accepted, refused, or takes effect while its reply
-- is lost), the ends of SQL statements (`Outcome`: applied, refused,
-- or applied while the caller gets an error), clocks, the new UUIDs and the
-- order of tenants of the same time (`ties`) are arguments. `UuidFormat` is
-- what is relied on of github.com/google/uuid and the server's UUID type: a printed id reads back as
-- itself. `Bcrypt` is what is relied on of golang.org/x/crypto/bcrypt, and signing a token is an argument of
-- `login`; `Jwt` is what is relied on of github.com/golang-jwt/jwt, and `FiberRouter` of the path matching of
-- github.com/gofiber/fiber. `time.Parse` and `time.ParseDuration` are arguments. `FloatScale` is
-- multiplication by a fraction below a fifth in floating point, with that bound.
--
-- Bounds. Worker counts are 32 bits and wrap (`int32`), durations and buffer sizes 64 bits (`int64`). A
-- valid configuration (`IsConfigured`) has a default and a limit from 1 up to 2^31 - 1. The retry loop
-- recurses on its rounds, `maxRetry + 1` by the loop's own test, and so always ends. A client that follows
-- cursors recurses on a number of pages; the number of messages is enough.
--
-- Not modelled: metrics, the DTOs that nothing uses, the generated API documentation, SQL as a language and
-- the partition trigger; log lines; time that passes; memory; the order of JSON fields, the normal form of
-- JSONB and how far `json.Unmarshal` rounds a number (`AnyValue` keeps an answered payload apart from the stored
-- one); negative expiries of tokens. A call of the manager runs alone but in Manager/Shared.
pub mod Base
pub mod Handlers
pub mod Http
pub mod Json
pub mod Middleware
pub mod Pool
pub mod Boot
pub mod Integrity
pub mod Journey
pub mod Config
pub mod Connection
pub mod Db
pub mod Retry
pub mod Amqp
pub mod Topology
pub mod Publisher
pub mod Manager
pub mod Delivery
pub mod Tenants
pub mod Messages
pub mod Router
pub mod Routes
pub mod Auth
pub mod Examples
