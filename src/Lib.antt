-- ===== src/Lib.antt =====
-- The identity service of the family tree: accounts, passwords, sessions and the tokens that are
-- mailed. A gRPC server (internal/identity/adapters/grpc/server.go) parses requests and maps errors;
-- the use cases (internal/identity/application/service.go) check, hash, sign and send; a repository
-- (internal/identity/adapters/postgres/repository.go) keeps everything in PostgreSQL, on the tables
-- of migrations/000001_create_identity_schema.up.sql and 000002_add_refresh_token_history.up.sql.
--
-- Shared              names of the libraries, tests on numbers, lists as tables (find, update,
--                     find_join, Unique, All), texts
-- Domain/Errors       internal/identity/domain/errors.go, and Go's wrapped errors as a data type
-- Domain/Email        domain/email.go: NewEmail is new_email
-- Domain/User         domain/user.go and domain/session.go
-- Ports               application/ports.go: the records, and the interface Repository as a record
-- Postgres/Tables     the rows and the database
-- Postgres/Connection transactions and round trips
-- Postgres/Inserts, Selects, Updates
--                     the SQL statements of repository.go, one function each
-- Postgres/Registration, Sessions, Passwords
--                     the methods of repository.go, under their names in snake_case
-- Postgres/Repository the interface of Ports, filled by these methods
-- Postgres/Calls      the methods that write, as data, and histories of them
-- Application/Service, Metadata, Login, Accounts
--                     service.go, over any repository, password hasher, token generator, signer and
--                     mailer; a use case is a function of a World (the store, the letters that were
--                     sent, the checks of passwords) that ends with a result or an error
-- Grpc                server.go: the handlers, over any application, and mapError; Grpc/Wired puts
--                     them on the service, as internal/app/app.go does
-- Security/Password   internal/security/password/argon2id.go, as the service's password hasher
-- Security/Token      internal/security/token/token.go, as its token generator
-- Security/AccessToken
--                     internal/security/accesstoken/signer.go: the signer and its configuration
-- Security/Base64, Scan, Utf8
--                     what these use of encoding/base64, fmt and UTF-8
-- Config              internal/config/config.go: Load, from an environment
-- Platform/GrpcServer internal/platform/grpcserver/server.go: the readiness checks and the threads of
--                     Serve and monitorReadiness, as a step relation
-- Migrations/Loader   migrations/loader.go, on a directory as a list of entries
-- Migrations/Runner   migrations/runner.go, over any database on which texts are executed
-- Platform/Logger     internal/platform/logger/logger.go
-- Mailer              internal/identity/adapters/mailer/log_mailer.go
-- App                 internal/app/app.go: what Run starts before it serves
-- Tests               a small database and a service on it; small inputs of the other parts
--
-- The other files hold proofs and are named for what they prove.
--
-- A text is the list of its code points, so `len` is byte_length, the length of its UTF-8 form. A
-- time is a number of microseconds and a UUID a number, 0 for uuid.Nil. A table is a list of rows,
-- newest first; a statement is a function on all tables that yields a value with the new tables, or
-- an error of the driver. The constraints are tested where a statement can violate them, and
-- `version integer` and the count of a column keep their ranges.
--
-- A method of the repository takes a Network: for each of its round trips, whether it is answered,
-- fails before it took effect, or takes effect with its answer lost. Statements in a transaction
-- work on a copy that `commit` stores; what is not committed when the method returns is rolled back.
-- A method runs alone on its tables: the rows that it reads are locked FOR UPDATE until it commits,
-- and interleavings of two transactions are not modelled.
--
-- The steps of the server are those of its goroutines, of the gRPC server and of whoever cancels the
-- context, in any order. Of the gRPC server the documented behaviour is taken: it may fail while it
-- accepts calls; GracefulStop lets it end when its pending calls have finished, which they need not
-- do, and returns when it has ended; Stop ends it at once. The firing of a timer is a step of the
-- thread that waits for it. The runner's transactions are on a network as above; it holds an advisory
-- lock, so it runs alone.
--
-- The printing of a number has the number itself, and one, as its fuel: a number has fewer digits.
-- Nothing else needs fuel.
--
-- Parameters, since they are not code of this repository: net/mail.ParseAddress, strings.ToLower,
-- netip.ParseAddr, uuid.Parse, time.ParseDuration, PostgreSQL's lower and inet and the texts of the
-- migrations, Argon2, SHA-256, the signing and the dates of a JWT and what the random source gives.
-- Of Argon2 it is relied on that it derives as many bytes as it is asked for, and of NewNumericDate
-- that it truncates to whole seconds. The service is written over any hasher,
-- generator, signer and mailer; zap and net/url are parameters too. Not modelled: the connection
-- pool, which passes settings to pgxpool; the commands under cmd, which handle signals, arguments and
-- exit codes; and the generated code.
pub mod Shared
pub mod Domain
pub mod Ports
pub mod Postgres
pub mod Application
pub mod Grpc
pub mod Security
pub mod Config
pub mod Platform
pub mod Migrations
pub mod Mailer
pub mod App
pub mod Tests
