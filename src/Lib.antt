-- ===== src/Lib.antt =====
-- constrainable: a model of the server that admits, watches and closes live streams, with proofs.
--
-- The program is a Nuxt application over SQLite. An SRS media server calls it when a publisher
-- starts and stops; it looks up who may publish, records a session for each attempt, probes the
-- stream against limits, and cleans up what is left open. The parts, and the files for them:
--
-- - Base and its children: numbers, texts, lists, tables, maps and results that the parts share.
-- - Schema, Schema/Status: the rows and enumerations of app/server/database/schema.ts, with the
--   limits of app/shared/config.ts.
-- - Database and its children: app/server/repositories/, a file for each repository. A table is the
--   list of its rows in the order of their ids, with the next id of its sequence; a query is a
--   filter, and NULL equals nothing.
-- - Server, Server/Audit, Server/Snapshot: what a service reads and writes beside the database (the
--   map `active`, the monitor loops), and what it sends out: audit entries (services/audit.ts), bus
--   events (app/shared/events.ts) and calls to the recorder, as lists with the newest first.
-- - Access: `authorizePublish` of app/server/services/access-control.ts, with its three paths.
-- - Lifecycle: app/server/services/stream-lifecycle.ts. The parent has `handlePublish`, its children
--   Unpublishing and Monitor have `handleUnpublish` and the loop of `monitorSession`. It uses Access for
--   the answer and the repositories for the sessions.
-- - Reconcile: `reconcileStaleSessions` of app/server/services/reconcile.ts.
-- - EventLifecycle: `runEventLifecycle` of app/server/services/event-lifecycle.ts.
-- - Semaphore: app/server/utils/semaphore.ts, which caps the probes, as a step relation: a task
--   that has been granted a slot resumes in a step of its own.
-- - EmailCode: app/server/utils/email-code.ts.
-- - Bans: app/server/services/stream-bans.ts.
-- - Invites: app/server/services/invites.ts, and `canViewEvent` of app/server/services/groups.ts.
-- - Membership: the other services of app/server/services/groups.ts.
-- - EventService: app/server/services/events.ts. Its child Removal has `deleteEvent`, Credentials the
--   publish token and key; Owners, Changes and Renames relate it to the lookup of Guide, which is
--   app/server/api/events/slug/[slug]/guide.get.ts.
-- - Roster: app/server/services/roster.ts. Its child Keys is app/server/services/stream-keys.ts, with
--   the names and previews of app/server/utils/token.ts.
-- - MediaNode: app/server/services/media-node-handlers.ts. Its child Starts has `handlePublishStart`,
--   Spec has `handleSpec`, Auth the questions of the gateway, Recordings the reports of recorded
--   files. It uses Access, Registry, Bans and ConfigStore, which is `getLimitsFor` of
--   app/server/utils/config-store.ts.
-- - Registry: app/server/services/media-node-registry.ts, with app/shared/rtmp.ts. Assignment: the
--   allocator of app/server/services/node-assignment.ts.
-- - Accounts: app/server/api/auth/ (Register, Login, SendCode), app/server/api/users/[id].patch.ts and
--   [id].delete.ts (Admin), app/server/api/me/password.post.ts (Passwords), and the visits and the
--   choice of a node (Nodes), of node-assignment.ts and app/server/api/nodes/select.post.ts. Unique
--   has the histories of these calls. It uses
--   Registration, which is app/server/utils/registration.ts, Password, which is
--   app/server/utils/password.ts, authmod.ts and the hashes of token.ts, EmailCode, Invites, Membership and Assignment.
-- - AuthGate: app/server/middleware/01-auth.ts, with app/server/utils/auth.ts and the session token.
-- - Archive: app/server/services/recordings.ts and app/server/services/retention.ts. FileServer:
--   `serveFile` of app/server/api/recordings/[id]/file.get.ts.
-- - Samples, and a module Tests in each part: concrete data, runs, and the theorems at them.
--
-- How the code is read. Names are those of the source in snake_case. A handler is one step between
-- two awaits, with the time of that step as its argument `now`; a sweep of Reconcile is one step.
-- Texts are native strings, a character being a UTF-16 unit; lower-casing changes the letters A to Z
-- only. Numbers are natural; times are milliseconds, and a column of mode `timestamp` keeps whole
-- seconds. Frame rates are counts of a fixed unit, and declared bitrates
-- fractions, which `Math.round` rounds. The JSON detail of audit entries is left out, and
-- the texts of the audit log are constructors that hold what the templates name. JSON columns are
-- held as their values. The tables refuse an event's groups that are not there or named twice;
-- other writes keep the constraints of the tables (unique and foreign keys) where a comment says so.
--
-- Parameters, for code outside the repository: `url_param`, the value of `token` that
-- URLSearchParams finds in a query; argon2id of @noble/hashes, and
-- `Bun.password.verify` for old hashes; the answer of the SRS API; the texts that randomBytes and getRandomValues give; the
-- check of a response of the gateway; of the accounts, the functions of `Crypto`, the globs of
-- picomatch, the answers of the limiter of email-poster and of the mail, and the verification of a
-- session token by jose. Only the theorems on rotated tokens, issued keys and passwords assume
-- something of them, which they state: argon2id gives bytes. Access takes `verifyToken`, and Roster
-- `hashToken`, as arguments, which Password defines: the theorem on issued keys assumes that the hash
-- of a token verifies it, which Password/RoundTrip proves. The limits of the configuration and the connections of media nodes are arguments too, and stand for the cache of
-- app/server/utils/config-store.ts and for app/server/services/media-node-ws.ts.
--
-- All recursion is structural. There is fuel in two places: the 8 rounds of `generateUniqueCode`, which
-- the source has too, and the search for a stream name, which gets as many rounds as there are keys
-- and one more.
--
-- Not modelled: the HTTP routes but those named above, most of which only call a service, and the user
-- interface; ciphers and digests, mail and ffmpeg, which are calls of other programs; the protobuf
-- frames of media nodes and the relay of files from them; the recorder, which drives ffmpeg; the
-- configuration and its cache; the views for the pages of administrators.
pub mod Base
pub mod Samples
pub mod Schema
pub mod Database
pub mod Server
pub mod Access
pub mod Lifecycle
pub mod EmailCode
pub mod Reconcile
pub mod Semaphore
pub mod Bans
pub mod Invites
pub mod EventLifecycle
pub mod EventService
pub mod Guide
pub mod Registry
pub mod Roster
pub mod Membership
pub mod MediaNode
pub mod ConfigStore
pub mod Assignment
pub mod Password
pub mod Registration
pub mod Accounts
pub mod AuthGate
pub mod FileServer
pub mod Archive
