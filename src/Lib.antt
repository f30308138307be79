-- ===== src/Lib.antt =====
-- Stratum V2 tools: a verification library for the core of a mining daemon.
--
-- The crate sv2-core holds the logic that the daemon (sv2d), the command-line client (sv2-cli) and
-- the web interface (sv2-web) share. Clients connect to a server of the daemon and present an API key;
-- the authentication opens a session for the connection, and every later operation is authorized
-- against that session. Operations on a database or on a node run under a recovery layer, with
-- retries, a circuit breaker and features that are switched off while they fail. The shares that miners
-- submit go through the share validator, which checks them against the work templates. The router
-- holds the handler of the mode that the daemon is in. All are set up from one configuration, which is
-- loaded from a file, the environment and overrides and then validated. Inputs from outside pass a
-- validator and a limiter, and a monitor checks the parts of the daemon at intervals.
--
-- The files and the code that they model:
--   Common           Boolean tests, lists, 32-bit and 64-bit words, hash maps, texts, floating-point numbers
--   Auth/Types       the data of sv2-core/src/auth.rs
--   Auth/RateLimit   check_rate_limit and record_rate_limit_attempt of AuthSystem
--   Auth/System      every other method of AuthSystem, under its own name
--   Auth/Run         histories of calls of an AuthSystem
--   Auth/Cases       the branches of authenticate and authorize, as rules for proofs
--   Auth/*           the other files prove what their names say
--   Error            Error of sv2-core/src/error.rs: is_recoverable, category and clone
--   Recovery/Breaker      RecoveryConfig and CircuitBreaker of sv2-core/src/recovery.rs
--   Recovery/Retry        RetryStrategy and RetryExecutor of sv2-core/src/recovery.rs
--   Recovery/Degradation  GracefulDegradation and DatabaseRecovery of sv2-core/src/recovery.rs
--   ConnectionAuth/Manager   ConnectionAuthManager of sv2-core/src/connection_auth.rs. Its `new` is
--                    new_manager, its cleanup_expired is cleanup_connections, its requires_auth is
--                    connection_requires_auth, and Success, AuthRequired, Failed and RateLimited are
--                    connected, auth_required, connection_failed and connection_rate_limited
--   Mining/Types     the data of mining in sv2-core/src/types.rs; `ConnectionInfo::add_share` is
--                    count_share and `Worker::add_share` is add_worker_share
--   Mining/Chain     what the code takes from the crates bitcoin, sha2, hex, uuid and chrono, as a
--                    parameter
--   Mining/Headers   the bytes that ShareValidator of sv2-core/src/share_validator.rs hashes
--   Mining/Validator every other method of ShareValidator, under its own name; judge is the part of
--                    validate_share that changes nothing, from the first check to the proof of work
--   Config/Types, Defaults   the data of sv2-core/src/config.rs with its Default instances; the mode of
--                    sv2-core/src/mode.rs. Defaults holds template_for_mode, too
--   Config/Validate, Dependencies   validate of DaemonConfig and the functions it calls
--   Config/Modes     the methods of UpstreamPool and of the settings of a mode; their `validate` are
--                    validate_upstream, validate_solo_own, validate_pool_own and so on
--   Config/Load, Overrides   from_file, merge_env, load_with_env, load_from_sources, apply_overrides
--   Config/Sections  what each section must satisfy, as propositions
--   Health/Types, Monitor   HealthMonitor and NotificationService of sv2-core/src/health.rs; its `start`
--                    is run_rounds, and `NotificationService::send_alert` is notify
--   Health/Checkers  the `check` of each checker of sv2-core/src/health.rs
--   Validation/Types the data of sv2-core/src/validation.rs, with its patterns and defaults
--   Validation/Validator, Sanitize   InputValidator of sv2-core/src/validation.rs; validate_field is the
--                    common body of validate_api_key and the four functions like it
--   Validation/Limiter   RateLimiter of sv2-core/src/validation.rs; its check_rate_limit is
--                    check_request and its cleanup is cleanup_requests
--   Upstream/Url     parse_stratum_url of sv2-core/src/modes/client.rs
--   Upstream/Messages   the messages that sv2-core/src/modes/client.rs makes and reads
--   Logging/Types, Redaction   the data of sv2-core/src/logging.rs and JsonFormatter::redact_fields
--   Logging/Entries  JsonFormatter::format_event, up to the entry that it prints, and the visitor
--   Router           ModeHandlerFactory and ModeRouter of sv2-core/src/mode_factory.rs, over the
--                    configuration of Config
--   Tests            small systems, and each theorem at one of them
--
-- Conventions. A method that takes `&mut self` is a function from the old state to the new one and
-- the result. A reading of the clock is an argument, one for each call of the clock; in auth.rs and
-- connection_auth.rs it counts seconds, elsewhere nanoseconds. Fresh identifiers and random keys
-- are arguments, and the hash of a key is a parameter of which nothing is assumed. Words wrap around
-- as in a release build. A hash map is a list of entries in some order of iteration, and the theorems
-- hold for each order. A method that always returns `Ok` gives its result directly. The calls on one
-- object follow one another, each as a whole; authenticate_connection, which drops its lock half-way,
-- is modelled in two parts (client_of and authenticate_client), and the interleavings at the locks
-- inside the other methods are left out.
-- Floating-point numbers are a parameter (Common/Floats) with the laws that the language documents.
-- A socket address is its address and its port, a path is its text. The environment, the files and the
-- parsers of TOML, of addresses and of floating-point numbers are a parameter (Config/Load, Machine).
-- The crate regex is a parameter (Validation/Types, Texts). What a health check comes to within its
-- time, with the readings of the clock, is an argument of each round, and a checker is its name.
-- A text that the share validator formats is given by a parameter from its parts.
-- Where chrono panics in the clean-up of the share validator, the answer is missing (`none`) and the
-- state is that before the clean-up.
--
-- Fuel and bounds. The loop of execute_with_condition runs max_retries + 1 times in the code as
-- in the model; execute-ok and execute-err show that this is enough for a result. A number is printed
-- with fuel for twenty digits, which 64 bits never exceed, and a message of the client is padded with
-- fuel for its full length. Counters of 32 bits are exact for histories of fewer than 2 ^ 32 events.
--
-- Not modelled: Share::validate, which names an error that is not declared; the handlers of the modes
-- but for the messages of client mode, the protocol translator, metrics, the set-up of the logger, the
-- database, the client of the Bitcoin node, the servers, the daemon, the command-line client and the
-- web interface.
-- They are left out for their size, or since they are mostly input and output.
pub mod Common
pub mod Auth
pub mod Error
pub mod Recovery
pub mod ConnectionAuth
pub mod Mining
pub mod Config
pub mod Health
pub mod Validation
pub mod Upstream
pub mod Logging
pub mod Router
pub mod Tests
