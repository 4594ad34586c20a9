-- ===== src/Lib.antt =====
-- Verification library of notes-microservices: three Go programs that share internal/. The gateway
-- (cmd/gateway) answers HTTP and calls the two services over gRPC; the auth service (cmd/auth) keeps
-- users and refresh tokens; the notes service (cmd/notes) keeps notes. Both services store in Postgres.
--
-- A request goes through Http (handlers), App/Gateway (services behind a circuit breaker), Rpc/Clients,
-- Rpc/Access and Rpc/Handlers (the two ends of a call), App/Auth or App/Notes (use cases), and
-- Postgres (repositories). An error goes the same way back: Rpc/Errors turns it into a status and the
-- status into an error again, and Http/Errors turns that into a response.
--
-- What models what:
--   Fault       internal/fault/fault.go. Breaker: `allow`, `record` (here `record_result`), `trip`,
--               `GetState`; Breaker/Schedule: `Execute` as an asking and a reporting step, so that
--               calls interleave; Retry: `retryExecute` (fuel: the attempts that are left, from
--               `MaxAttempts`, which the loop's own test counts); Resilience: `Execute`,
--               `NewServiceResilience` and its four entry points.
--   Domain      internal/domain/general.go. Pattern: the regular expressions as matchers, and their
--               language; Entities: the constructors, `ApplyUpdate` and the limits.
--   Failure     internal/domain/err.go, the other error variables, and how `fmt.Errorf` wraps.
--   Action      the convention `(value, error)` over a state that is passed on.
--   Ports       internal/ports: interfaces as records over the state of the adapter.
--   App         internal/app. Notes: `NoteUseCase`; Auth: `AuthUseCase` and `UserUseCase`; Gateway and
--               Gateway/Profile: `AuthService` and `NotesService`, with the cache of profiles.
--   Postgres    internal/adapters/postgres. Store: tables, statements, faults; Rows: `scanAll`, which
--               reads the rows in a turn of its own; Notes, Users, Tokens: the repositories, a query
--               beside each method; Errors: `mapUniqueViolation`; Keeps, Later, Stays and Live: rules
--               for what actions leave alone, for time, for properties of the tables, and for the live
--               tokens of a user; Consistent: what the constraints of the tables say;
--               Notes/Shelf: a map from owners and ids to notes, which a run of requests is compared
--               with; Connection: `NewDatabase` and `Migrate` of database.go.
--   Service     the use cases over the Postgres repositories, as internal/bootstrap joins them;
--               Auth/Account: a registration and what follows it; Auth/Sessions: runs of requests by the
--               holders of tokens.
--   Rpc         internal/adapters/grpc. Errors: `authStatusFromError`, `notesStatusFromError`,
--               `statusToDomain`; Access: `extractBearerToken` and the auth interceptor; Handlers and
--               Clients: the methods of the two sides; Connection: `newClientConn` and its callers,
--               with `waitUntilReady` on fuel, of which one more than the changes of state before the
--               context ends is enough; Server: `Start` and `Stop`; RequestId: `withRequestID`;
--               Interceptor: the two interceptors of request ids, with the lines they log.
--   Http        internal/adapters/http. Errors: `httpErrorFromDomain`, `handleError`; Request: the
--               auth middleware, `queryInt`, `requireTokenAndNoteID`; Middleware: the logger
--               middleware and the recovery, around a handler that may panic; Auth and Notes: the handlers;
--               Routes: `SetupRouter`, by the calls that fiber has matched to a route.
--   Jwt         internal/adapters/jwt/jwt.go: making and validating tokens; Tokens: theorems on it.
--   Bcrypt      internal/adapters/bcrypt/bcrypt.go.
--   Redis       internal/adapters/redis/cache.go; Keys: theorems on it.
--   System      a request for notes from the gateway's handlers to the tables, over all of the above;
--               a login with the issuer and the verifiers of the tokens; Accounts: the way of a
--               request for accounts, from the gateway's client to the tables.
--   Config      internal/config/config.go: the sections, and which secret is used.
--   Logger      internal/logger/logger.go and internal/authctx/authctx.go: the choice of a logger and
--               the values of a context; Lines: the methods that write a line, as a list of lines.
--   Bootstrap   internal/bootstrap. The file itself: loading and checking the configuration, Postgres;
--               Run: `Wait`, `runTokenCleanup`, `StartAuth`, `StartNotes`, `StartGateway`, over records
--               of what they start.
--   Prelude     shared lists, signed numbers, texts and tests.
--
-- Conventions. A pointer with an error is a `Result`, which is nil exactly when the error is not. A time
-- is its nanoseconds after Go's zero time, and a clock is read from the state. A text is UTF-8, as `len`
-- counts bytes and a regular expression reads code points. A method that holds the breaker's mutex is
-- one step at one reading of the clock. The entry points of Resilience run when no other call meets the
-- breaker; interleaved calls are in Breaker/Schedule. Each statement on the database takes a turn of a
-- script: time passes, and the driver may report an error in place of the statement, which then leaves
-- the tables alone; but a COMMIT that reports an error may have taken effect. Transactions run one after another. Timestamps keep their nanoseconds, and the
-- lengths of columns and the syntax of ids are not checked; the errors that Postgres would report there
-- are faults of a turn.
--
-- Parameters, for code that is not in the repository: the server's ids, order of rows and errors of
-- constraints (`Server`), SHA-256, the libraries of JWT, bcrypt and JSON, the clients of Redis, of the
-- pool, of the migrations and of grpc, zap, cleanenv, net/url, `strings.EqualFold`, `strconv.Atoi`, the
-- names of gRPC codes, and the generated stubs. The use cases take tokens, passwords and the cache by
-- their ports, which Jwt, Bcrypt and Redis fill.
--
-- Not modelled: the log lines of the other parts, the options of grpc and fiber, how fiber matches a path, the commands (each calls one function of internal/bootstrap), gen/,
-- api/, deploy/, and the text of migrations/, but for the constraints of users and refresh_tokens.
pub mod Prelude
pub mod Failure
pub mod Action
pub mod Fault
pub mod Domain
pub mod Ports
pub mod App
pub mod Postgres
pub mod Config
pub mod Logger
pub mod Redis
pub mod Jwt
pub mod Bcrypt
pub mod Service
pub mod Rpc
pub mod Http
pub mod Bootstrap
pub mod System
