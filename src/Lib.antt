-- ===== src/Lib.antt =====
-- SSO gateway: a mirror of the employees of the VPS, and the API that serves it.
--
-- The program has two processes that meet in PostgreSQL. The synchroniser (cmd/sync) asks the
-- MySQL database of the VPS for the rows past a watermark, upserts each into the table `karyawan`,
-- and moves the watermark. The API (cmd/api) authenticates a request by its key, limits each key's
-- requests with counters in Redis, and answers from the table. The setup command asks for the VPS
-- and writes the API key, the master key, and the configuration with the encrypted password.
--
-- The files:
--   Base          names passed on from the libraries, Boolean tests, lists over native numbers,
--                 strings as bytes, integers, results, insertion sort
--   Postgres      what the program relies on of PostgreSQL and of its driver pgx
--   Decimal       itoa of internal/karyawan/repo.go, and strconv.Atoi
--   Karyawan      internal/karyawan/model.go; Karyawan.Table is the table of
--                 internal/db/migrations/0001_init.up.sql with Upsert and GetByNIK (upsert,
--                 get_by_nik), Karyawan.Query is List (build, list) of internal/karyawan/repo.go
--   Vps           internal/vpsmysql/client.go: the rows of the VPS and the queries (karyawan_query,
--                 fetch_karyawan_updated_since); Vps.Connect is BuildDSN and NewClientFromStoreConfig
--   Sync          internal/sync/sync.go: Sync.Store has the tables sync_runs and sync_state, their
--                 statements and the transaction; Sync.Rows the conversions of a fetched row;
--                 Sync.Run has SyncKaryawan (sync_karyawan, cut at its calls),
--                 markRunFailed and readWatermark; Sync.Cleanup has CleanupStaleRuns;
--                 Sync.Lock the key of the advisory lock; Sync.Steps has a pass call by call
--                 (advance), and Sync.Interleaving passes that run at the same time (Step, Reach)
--   RateLimit     internal/redisx/ratelimit.go: Allow (allow) and its script (incr_expire)
--   ApiKey        internal/apikey/store.go and insertAPIKey of cmd/setup/apikey_insert.go
--   Api           internal/api: Api.Handlers has List and Get (handle_list, handle_get), Api.View
--                 the responses, Api.Middleware APIKeyAuth and RateLimit, Api.Date the format of
--                 a date, Api.Wire writeJSON and the tags of the structs, Api.Json what
--                 encoding/json does with them, and Api.Json.Reader and Api.Wire.Client a client
--   Server        internal/server/server.go: the middlewares before the handlers (serve), and
--                 Server.Traffic a sequence of requests
--   Crypto        internal/crypto/aes.go: Encrypt and Decrypt around the cipher of the library
--   Stored        internal/store/config.go: the configuration file and its encrypted password
--   Setup         internal/setup/setup.go: the file of the master key (read_master_key,
--                 write_dotenv), RunPromptFlow (run_prompt_flow, cut into prepare and
--                 write_files), EnvPrompter (Setup.Environment), SurveyPrompter
--                 (Setup.Terminal), and apiKeyEntry of
--                 cmd/setup/apikey_insert.go (Setup.KeyEntry)
--   Settings      internal/config/config.go: Load (load)
--   Bootstrap     internal/bootstrap/bootstrap.go (run, close) with NewPool of internal/db/pg.go and
--                 NewClient of internal/redisx/redis.go
--   Commands      the commands: Commands.Setup is cmd/setup (main, run_migrations,
--                 run_initial_sync), Commands.Sync is cmd/sync (start, run_once), with the passes
--                 and the shutdown in Commands.Sync.Service and its life over restarts,
--                 with setups between, in Commands.Sync.Lives, Commands.Api is cmd/api (main),
--                 Commands.Connects what opens the VPS after a setup
--   Gateway       from a row of the VPS to what a client reads, after passes one by one and at any
--                 moment of passes that run at the same time
--   Samples       data of the tests; each module's tests stand in its child Tests
--
-- How code and model correspond. A table is a list of records in the order of insertion, and a
-- statement is a function on it; a column that may be NULL is an option. A call that can fail has
-- its error, if it fails, as an argument: World and Faults say which calls fail, with which text,
-- and the values of the clocks. A transaction is a copy of the tables that a commit puts back; a
-- failed statement aborts it, after which every statement is refused and a commit rolls back. A
-- commit with an error is one that PostgreSQL has not made. The raw payload is kept as the object
-- that was sent, of which `jsonb` keeps the pairs and not their order. A call of the limiter's
-- script may fail before the script has run or after it. The upserts of the employees and the
-- reading of the watermark go through the pool, not through the transaction, as in the code. A
-- time is a number of microseconds from the first of January of the year 1, in UTC; a Go duration
-- is in nanoseconds. An `int` is a 64-bit value where its size matters (Decimal, and twice the
-- interval in Commands.Sync). The LIKE and the collation of PostgreSQL, the driver's check of the
-- argument count, SHA-256, AES-GCM, base64, YAML and the page of the metrics are parameters.
--
-- No definition of the program runs on fuel: its loops are structural, and itoa recurses on the
-- accessibility of its number. The passes of Sync.Progress are as many as their argument says,
-- and so are the calls of Sync.Steps.steps, which stops at the return of the pass.
-- The reader of JSON, which is no part of the program, takes three steps for each byte of a body,
-- and Api.Json.RoundTrip shows that this is enough.
--
-- A pass is modelled twice: Sync.Run takes it at once, and Sync.Steps one call at a time, so that in
-- Sync.Interleaving the calls of several passes of one resource mix in any order. There the
-- transaction of a pass starts from the tables as they are when it takes the lock, since PostgreSQL
-- reads what is committed at each statement. A process may die between any two calls: then its
-- transaction is rolled back, its lock is free, and the rows that it has upserted stay.
--
-- Not modelled: logging and the HTTP server of cmd/api. The scheduler of cmd/sync is a library: it
-- ticks at any time (Commands.Sync.Service), and a timeout or a cancelled context is a call that
-- fails. The rendering of a DSN, viper, survey, time.ParseDuration and golang-migrate
-- are parameters. The matching of paths, request ids, timeouts and recovery from
-- panics are the router library's; a panic of the limiter is answered 500.
pub mod Base
pub mod Decimal
pub mod Postgres
pub mod Karyawan
pub mod Vps
pub mod Sync
pub mod RateLimit
pub mod ApiKey
pub mod Api
pub mod Server
pub mod Gateway
pub mod Samples
pub mod Crypto
pub mod Settings
pub mod Bootstrap
pub mod Stored
pub mod Setup
pub mod Commands
