-- ===== src/Lib.antt =====
-- A model of the pairing server: its connectors module (how a browser device and a connector are paired,
-- how their credentials rotate, how either is revoked, and how a relay ticket admits its holder), its
-- identity module (how an account registers, proves its address, signs in by password or by Google, and
-- keeps a session by refresh tokens), the hub that relays the messages of the paired peers, and the
-- limiter of its requests. A revocation of the connectors module is what the hub disconnects by.
--
-- Files, by the part of the repository they model:
-- - Connectors/Types, Errors: internal/connectors/types.go, its structs as records and its errors.
-- - Connectors/Store, Schemas, Listing: internal/connectors/postgres/store.go and models.go. A statement
--   of the store is a statement of `Engine` (Database.antt), which stands for GORM and PostgreSQL and
--   may fail at any statement; its laws say what a statement that succeeds did, unique indexes included.
-- - Connectors/Tx: `WithinTransaction`, a state with rollback.
-- - Connectors/Tokens, Library, Base64: the tokens, codes, hashes and proofs at the end of
--   internal/connectors/service.go. SHA-256, HMAC, ECDSA, JSON and the Unicode functions are the record
--   `Library`.
-- - Connectors/Service: `ServiceOptions`, `Service`, `NewService`, and what one call reads from outside:
--   the time, the random bytes, the answers of the authorizers.
-- - Connectors/Pairing/Begin, Claim, Confirm, Poll, Approve: the operations on a pairing.
-- - Connectors/Credential, Revoke, Ticket, Admissions: the other operations of the service.
-- - Connectors/Lifecycle: the operations as steps between databases, and what they keep.
-- - Identity/Types, Errors, Db, Store: internal/identity/types.go, postgres/models.go and
--   postgres/store.go, over the same engine. A joined query is a query of the joined rows, and
--   `RowsAffected` is the number of the rows that an update meets.
-- - Identity/Tokens, Validation, Materials, Service: internal/identity/token.go, and the checks, the
--   materials and the constructor of service.go. The password hasher, the mailer, Google's verifier, the
--   detector of disposable addresses and the Unicode functions are parameters.
-- - Identity/Transactions: what service.go and google.go run within a transaction.
-- - Identity/Operations: the operations, on a world of the tables, the mails sent and the revocations
--   announced. The draws of a verification code are at most 64, the attempts of a Google sign-in at most
--   two, and both are structural.
-- - Identity/Lifecycle: the operations as steps between worlds, and what they keep.
-- - Database/Transaction: a state with rollback, and triples of what an action does if it succeeds.
-- - Relay/Hub: `securePeer` and `secureHub` of internal/relay/production.go. The map of peers is a list,
--   so what Go visits in any order is visited in that one; the queues and the stopped connections are a
--   function of the connection, and a `select` with two cases ready takes one by a sequence of choices.
-- - Server, Server/Authorizers: the callbacks of cmd/server/setup.go, by which a revocation reaches the hub
--   and the connectors module asks the identity module whether an account or a session is in force.
-- - Platform/RateLimit: the limiter of internal/platform/httpserver/rate_limit.go, its map and its list
--   as one list of entries; the client address is not modelled.
-- - Examples: an engine in memory, a library of toy hashes, and a run of each result on them.
--
-- Conventions: times and durations are natural numbers of nanoseconds, and the zero time is 0; a
-- subtraction of times that would pass below the zero time stops there. A duration of the options is an
-- integer, since the source tests whether it is positive. A string is its bytes. Each
-- operation takes the database and returns its result with the database it leaves; a transaction that
-- fails leaves the database it began with. A call reads one time, where the source may read its clock
-- again for an audit event. Transactions run one after another, since each of them locks the rows it
-- reads. Identity/Operations/Google/Loop runs the unbounded loop of a Google sign-in on fuel,
-- of which two rounds are enough since only one retry is allowed; every other function is structural.
--
-- Not modelled: the HTTP handlers, the password hasher, Google's tokens, the sockets of the relay and
-- the monitor of their authorizations, the development relay, mail,
-- configuration and start-up, contexts and their cancellation.
pub mod Prelude
pub mod Bytes
pub mod Base64
pub mod Database
pub mod Connectors
pub mod Platform
pub mod Identity
pub mod Relay
pub mod Server
pub mod Examples
