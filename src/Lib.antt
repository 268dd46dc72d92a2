-- ===== src/Lib.antt =====
-- Budge: a server that holds API credentials and lets devices call services through it, under
-- permissions that the owner grants, with the owner's approval where a permission asks for it.
--
-- Parts and files:
-- * `Access` models internal/access/access.go. `Access/Syntax` has the texts that are accepted as
--   paths, methods, service names, base URLs and targets, and `Route`; `Access/Scope` the
--   permissions, `Match` and `Overlap`; `Access/Methods` the method lists; `Access/Overlap` is
--   about overlap. `Authorize` reads the tables and stands in `Server/Authorize`.
-- * `Upstream` models internal/upstream/http.go: `Header` and `Filter` the header tests and the
--   filter, `Address` the addresses that may be dialed and the dialing, `Send` a request with its
--   credential, `Stream` the passing on of a response. `SentFields`, `Dialed` and `Streamed` are
--   about them.
-- * `Requests` models internal/requests/types.go: the records, `Normalize`, `ApplicationHeaders`
--   and the digests. `Requests/Environment` has what the program takes from its libraries, as
--   fields of a record: the clock, identifiers, hash, encryption, JSON, URL parsing, base64.
-- * `Store` models the tables of internal/store/migrations as lists of rows (`Tables`), and
--   transactions (`Transaction`): a state of tables and of faults, one for each statement that the
--   driver may fail; an error that leaves a handler rolls back. `Keeps`, `Relates` and `Inversion`
--   have the rules by which the other files argue about transactions. `Migrate` and `Vault` model
--   `migrate` and the unlocking of `Open` of internal/store/store.go, and `Seal` and `Unseal` of
--   internal/store/crypto.go; `Migrated` and `Unlocked` are about them.
-- * `Server` models internal/server, a definition for each function, its statements in their order.
--   Of requests.go: `Submit`, `Snapshot` (`snapshot`, `validSnapshot`), `Decide`, `Dispatch`
--   (`dispatch`, `finish`, `finishTx`), `Maintenance` (`maintenance`, `recoverDispatches`,
--   `cancelRequests`, `RecoverRestored`), `Status` (`RequestStatus`), `Worker` (a turn of
--   `RunWorker`). Of owner.go and review.go: `Owner` (`addPermission`, `revokePermission`,
--   `disableService`, `revoke`), `Services` (`addService`, `headerList`), `Session` (`login`,
--   `/logout`, and the passwords of internal/store/crypto.go), `OwnerRequests` and
--   `OwnerPages` (`OwnerHandler`, `review`). Of server.go: `Slots` (`acquire`, `release`, `throttle`), `Handler` (`decode`, the
--   map of times of `throttle`), `Device` (`device`, the proxy of `DeviceHandler`, `httpAudit`),
--   `DevicePages` (its routes, `services`, and `submit` and `status` of requests.go). `Enroll` has
--   `Invitation` and `issue` of tls.go, `enroll` of server.go and `renew` of renewal.go.
--   `System` puts them together: a server is its tables and its dispatches under way, and a step is
--   any operation, claim, end of an exchange or restart, with any faults. `RunWorker` is thereby any
--   order of claims. `Automaton` has the automaton of a request that a server refines. The other
--   files of `Server` are about these definitions.
-- * `Client` models internal/client: `Identity` (`Save` and `Load` of client.go on a list of files),
--   `Connector` (the handler of `ConnectorTransport`), `Refresh` (`Refresh` of renewal.go). `Saved`
--   and `Refreshed` are about them. A device shares with the server `Route`, the headers and
--   `Stream`, `Seal` and `Unseal`.
-- * `Examples` has a small server, tests and examples.
--
-- Texts are lists of byte values; numbers are natural, with the source's comparison written out. A
-- `map` and an `http.Header` are lists of fields. The loops are over lists; only the digits of a
-- number are made with fuel, one more than the number, while each digit divides it by ten. The loop
-- of `Stream` is over the reads and writes that happen, that of `status` over the polls.
-- Integers of the source are row counts, revisions and Unix times, far below 2 ^ 63, and are not
-- wrapped; times are whole seconds. The readings of the clock within one handler are one reading.
-- The URL of a snapshot is kept parsed, and two URLs are compared by the parts that `String` prints.
-- Columns that no decision reads (creation times, labels of audit rows) are left out.
--
-- Libraries are parameters: `X509` (requests and certificates), `Aead` (Argon2 and AES-GCM),
-- `Passwords` (base64 and Argon2), `NetIp` (net/netip), `Json`, `Checks` (crypto/x509 in the client),
-- `Outside`, `Trip` and `Round` (the exchange of net/http, its reads and writes). A migration is any
-- function on the contents of the database. What is drawn at random is an argument.
--
-- A turn of the worker is modelled as if no dispatch ended while it runs, and a failing call ends
-- `Refresh` with an error: a crash of a process is modelled for the server only, as a restart.
--
-- Not modelled: `New`, the server's own certificates and TLS configurations, the queries of `render`,
-- which only fill a template, the timeouts of connections, the file lock of the store, the client's
-- `Enroll`, the sockets, the tools of MCP, and the command line: they are calls of crypto/tls,
-- crypto/x509, templates, sockets, flags and signals around the parts above.
pub mod Base
pub mod Access
pub mod Upstream
pub mod Requests
pub mod Store
pub mod Server
pub mod Client
pub mod Examples
