-- ===== src/Lib.antt =====
-- The control plane of TYZ, a relay platform: a server on Cloudflare Workers that stores nodes,
-- tunnels, chains, rules, users and packages in a D1 database, renders a config for each node's agent,
-- and turns the counters that agents report into a billing ledger.
--
-- Parts and files (paths from the repository's root):
-- - Entities, Samples: packages/shared/src/entities.ts and schemas.ts, the types of both ends.
-- - Db: apps/server/src/db/schema.ts. The database is a record of tables, a table is a list of rows
--   in the order in which a statement returns them; Db.Statements has `ORDER BY`, the upsert on a
--   key, and `chunk`, which keeps statements below the cap of bound parameters.
-- - Traffic: apps/server/src/services/traffic.ts. `delta` to `ingest_sample` are the loop over the
--   samples, Traffic.Ingest the statements of `ingestTraffic` in their order: metrics, ledger
--   (`ledger_writes`), counters (`counter_writes`), totals of rules (`rule_writes`) and of the node,
--   a statement for each chunk of rows; `run` does them one after the other. The other
--   modules under it are proofs, named for what they prove.
-- - Quota: apps/server/src/services/quota.ts. `quota_for_user` decides for one user,
--   `quota_decisions_for_users` for a batch; `apply_rule_quotas` gates the rules of a config, and
--   `quota_sweep_stopped_users` names whose rules have to leave the configs after a report.
-- - Tls: apps/server/src/services/tls.ts, what keeps the material in the database: `ensureTlsMaterial`,
--   and in Tls.Admin the panel's writes and the renewal.
-- - Health: apps/server/src/services/health.ts, the heartbeat.
-- - Realm: apps/server/src/db/repo.ts. Realm has the ports and the targets of one rule, Realm.Render
--   the loops of `buildRealmNodeConfig` over tunnels and rules, Realm.Build the sort and the TLS
--   material, Realm.Snapshot the stored snapshot and `recomputeNodeConfig`, and Realm.Fanout
--   apps/server/src/services/recompute.ts, which recomputes the nodes of a tunnel or a user.
-- - Admin: apps/server/src/routes/admin.ts, the requests of the panel, with services/audit.ts. A
--   request returns a Response: the answer, the database and the work that it defers. Admin.Shape has
--   the checks of a tunnel's links, Admin.Ownership what a package allows; Admin.Tunnels, Chains,
--   Rules, Endpoints, Users, Packages, Nodes, Settings and Readings have the handlers; Admin.Deferred
--   runs the deferred work. The other modules under it are proofs.
-- - Session: apps/server/src/middleware/adminAuth.ts and utils/crypto.ts, and in Session.Setup
--   routes/setup.ts, the login and the change of a password.
-- - Agent: apps/server/src/routes/agent.ts and middleware/nodeAuth.ts: the token of a node and its
--   cache, the poll for a config, the report of traffic and the heartbeat.
-- - Js: what the code uses of JavaScript: `Map` and `Set` in insertion order, strings, `Number(text)`.
-- - Prelude: names of the libraries, Boolean tests, lists.
-- - Tests: a small deployment, runs, and instances of the theorems.
--
-- The parts meet in the database. A report runs the traffic ingest and then the quota sweep; the
-- sweep's answer says which configs to recompute; a recomputation reads rules through the quota gate,
-- which reads the ledger, and takes TLS material from the material service. A write of the panel
-- changes rows and defers recomputations, which Realm.Fanout carries out; a node polls what they store.
--
-- How the code is modelled:
-- - An operation takes the database and returns it with its result; its statements are function
--   applications in the order of the code. One operation is one unit: interleavings of two requests
--   on D1 are not modelled, a crash between two statements of the ingest is.
-- - The clock is an argument, one instant for an operation: `now` is an ISO text, the epoch in
--   seconds a number. Texts are lists of UTF-16 code units, compared by unit (the instants that are
--   compared are ASCII, where SQLite does the same). Of the statements that fail, those are modelled
--   whose foreign key names no row.
-- - Numbers are natural, and exact: ids and byte counts beyond 2^53 are not modelled. A billing rate
--   and a limit are in thousandths; `charge` rounds half up as `Math.round` does on the product.
--   `Number(text)` is exact too, and negative or fractional values are one case with NaN; a stored
--   number of days that is fractional is therefore read as the default.
-- - A missing value is `none`; a throw of `ensureTlsMaterial` is `none` with the database as it is.
-- - Recursion is structural. `chunk` has a round for each row and `show` more rounds than digits:
--   the theorems on both (all rows come back, the number is read back) need no bound.
-- - The payload of a request is `none` where the schema of shared/src/admin.ts or schemas.ts refuses
--   it. An update has an Option for each field, and for a field that may also be null an Option of
--   it. A new row's id, random tokens and salts are arguments. Foreign keys and cascades of the
--   schema are written out; a failed one answers 500 with the database as it was.
-- - SHA-256 and HMAC are parameters; what is assumed of them is said with each theorem, and is no more
--   than what hexadecimal digits have: the result is not empty and has no separator. A cookie is its text, without its attributes.
-- - Keys and certificates (WebCrypto), `Date.parse`, `localeCompare` and `JSON.stringify` are parameters.
--   The only hypothesis on one of these is that an issuer's row is of the kind that it was asked for.
--
-- Not modelled: the agent (Rust), the web panel, the parsing of payloads, websockets, the reads of
-- node statistics, the dashboard's aggregates, certificates as DER, and warnings on the console.
pub mod Admin
pub mod Agent
pub mod Db
pub mod Entities
pub mod Health
pub mod Js
pub mod Prelude
pub mod Quota
pub mod Realm
pub mod Samples
pub mod Session
pub mod Tests
pub mod Tls
pub mod Traffic
