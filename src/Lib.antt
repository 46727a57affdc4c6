-- ===== src/Lib.antt =====
-- Verification of the agreements generator API: an HTTP service that takes archives with
-- spreadsheets and templates, has a worker generate agreements from them, and hands the results
-- out. Paths are those of the repository.
--
-- How the parts interact. A request passes the metrics middleware and, for the routes about jobs,
-- the token middleware (internal/api/api_v1), and reaches a handler; the handler calls a service
-- (internal/service), the service calls a storage, a cache, a gRPC client or a queue, a hasher and a
-- token manager through their interfaces, and the handler writes the answer or the error.
--
-- The files. A Go function that returns (A, error) is a function of Effect.antt: it takes the state
-- of what it calls and gives the result and the new state.
--   Prelude       numbers, texts, maps with text keys, integers
--   Domain        internal/domain: error chains, jobs, statuses, the worker's response
--   Effect        results, and the chaining of calls
--   Storage       internal/storage: the interfaces; Storage.Memory is storage_in_memory,
--                 with Storage.Memory.Jobs and Storage.Memory.Users on what it promises;
--                 Storage.Postgres is postgres, with its errors (Errors, Methods), what it relies on
--                 in the database (Database), its transactions (Save), what its methods do to the
--                 tables (Effects) and the results of a job over many calls (Durable);
--                 Storage.Choice is New
--   Cache         internal/cache: the status cache over Redis
--   GenClient     internal/gen_client; GenClient.Handover is its channels, as a step relation,
--                 GenClient.Bounds the integers of a response
--   Metrics       internal/metrics
--   Hasher        internal/hasher
--   Publisher     internal/publisher, with the making of the queue
--   Dto, Encoder  internal/dto, internal/encoder
--   TokenManager  internal/token_manager
--   Service       internal/service: Service.Grpc (grpc_generator), Service.Queue
--                 (queue_generator), Service.Auth, Service.Gen (NewGen); Service.Grpc.Tasks takes
--                 the work on a job apart into its calls of the storage and the cache, and
--                 Service.Grpc.System interleaves those of any number of jobs;
--                 Service.Grpc.Stale is CheckJobStatus beside the end of a job, Service.Grpc.Agreement
--                 the results of a job over both storages, Service.Grpc.Pending those of one that
--                 is not finished
--   Api           internal/api/api_v1: Api.Response (writeError, writeResponse), Api.Jobs (api.go),
--                 Api.Users (auth.go; Api.Users.Login is the answer to a login), Api.Token (MWAuth;
--                 Api.Token.Session is the way from a registration to it), Api.Measure (MWMetrics),
--                 Api.Routes (RegisterRoutes, and the router of cmd/generator/main.go)
--   Config        internal/config; Config.Secrets is loadEnvVars, Config.Loaded is Load
--   Logger        internal/logger; Logger.Pairs is toZapFields, Logger.Calls the loggers
--   Main          cmd/generator/main.go: what main makes of the drivers, up to the routes, and
--                 Main.Start from the configuration on; Main.Closed and Main.Guarded are on it;
--                 Main.Serve is its two goroutines, as a step relation, with Main.Stop and
--                 Main.Returns on its end
--   Tests         concrete inputs
--
-- State. A component's state is a type S behind its interface, and a theorem about a service holds
-- for every S. `World S` adds the metrics and the goroutines that were started. The in-memory storage
-- is a record of its two maps, its counter, the lifetime of a job and the time. A method that holds
-- the storage's lock is one step.
--
-- Bounds. An int is its 64-bit pattern, an int32 its 32-bit pattern; the counter of user ids wraps at
-- 2 ^ 64. The clock of the token manager and a token's lifetime are numbers of nanoseconds, a date in
-- a token is one of whole seconds. No function of the model takes fuel: the loops of the source run
-- over lists and maps, and the two blocking receives of ProcessJob give `none` where they would block
-- for ever.
--
-- Parameters. Redis, RabbitMQ, the connection pool of pgx with the database, bcrypt, the JWT library,
-- zap, cleanenv, encoding/json, the generated gRPC stub, chi, net/http, the clock and uuid.NewUUID are
-- arguments. What a theorem assumes of them is a record of named hypotheses: IsCache, IsHasher,
-- IsEncoder, IsJwt, IsDatabase, IsServer, IsAnswering, IsRouter, IsConn; of net/http it is what
-- ListenAndServe and Shutdown may return.
--
-- Not modelled: the log messages of the components; deadlines and cancellation of contexts, which
-- reach the drivers only; durations in the metrics; what the HTTP server does between its start and
-- its stop; what zap does with the fields of a message.
pub mod Prelude
pub mod Domain
pub mod Effect
pub mod Storage
pub mod Cache
pub mod Config
pub mod Logger
pub mod Main
pub mod GenClient
pub mod Dto
pub mod Encoder
pub mod TokenManager
pub mod Metrics
pub mod Hasher
pub mod Publisher
pub mod Service
pub mod Api
pub mod Tests
