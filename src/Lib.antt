-- ===== src/Lib.antt =====
-- Clawgress, an egress gateway for agents: its policy engine, identities, quotas, audit log, the proxy's
-- request handler, the store of configuration revisions, and the plans that enforce them.
--
-- A request enters at the gateway. It is identified by an API key or a token, its agent's quota is
-- charged, the policy decides, and the outcome is written to the audit log. An operator changes the
-- configuration by staging a revision and committing it; a commit becomes a plan of operations, which
-- is shown or carried out. The command line client edits a candidate file, which the table of commands
-- guards, and stages it over the admin API.
--
-- Base: Go's `strings`, `sort`, maps, slices, files and JSON values, as the program uses them. A map is
--   an association list in an order of iteration; a file is replaced through a temporary file, and the
--   outcome of each call of the operating system is an argument.
-- Policy: internal/policy. Policy.Rule has the data; Policy.Domain `sanitizeHost`, `stripPort`,
--   `matchDomain`; Policy.Engine the engine's methods; Policy.Conflict `DetectConflicts`; Policy.Signing
--   the signed bundles, with the HMAC and the JSON of rules as arguments.
-- Identity: internal/identity. Identity.Registry has the registry with its two maps, by key and by id;
--   Identity.Jwt `VerifyJWT` and `SignJWT` over a parameter for HMAC, base64url and JSON.
-- Quota: internal/quota/bucket.go. Quota.Bucket has one token bucket, Quota.Limiter the limiter. A limit
--   is a number of millionths of a request, each of 60 thousand million units, and a time a number of
--   nanoseconds, so that a rate is a whole number of units per nanosecond; Go's float64 rounds, and it has
--   finer limits, which is left out.
-- Audit: internal/audit. Audit.Event has the events, `Write` and `Validate`; Audit.Query `Query`.
-- Gateway: cmd/clawgress-gateway/main.go. Gateway.Auth has `extractProxyAuth` and `requestHost`;
--   Gateway.Handler `ServeHTTP`, `handleConnect`, `handleHTTP` and `writeAudit`. The registry, engine,
--   limiter, log and metrics are one state, and a request is one step of it. Gateway.Startup has what `main`
--   loads and the reload on SIGHUP, which the admin API causes.
-- Opmode: internal/opmode/store.go. Opmode.Revisions has the data and the files of JSON lines, Opmode.Store
--   `Configure`, `Commit` and `State` over the four files of the store, with the outcome of each read, write
--   and removal.
-- Enforcer: internal/enforcer. Enforcer.Tree has the readers of the tree of changes; Enforcer.Interfaces,
--   Enforcer.Families and Enforcer.Plan `BuildOpsPlan` and its builders (opsplan.go); Enforcer.Execution
--   `ExecuteOpsPlan` (ops_exec.go).
--   Enforcer.Nftables has the rules of a revision and `ApplyNftables` (nftables.go), Enforcer.PolicyNft the
--   sets of addresses of the policy (policy_nft.go), Enforcer.Transparent the redirection (transparent.go).
-- Dns: internal/dns/rpz.go. Dns.Rpz has the names of a response policy zone, Dns.Zone its text and its file.
-- Cmdmap: internal/cmdmap. Cmdmap.Values has `validateValueToken`, Cmdmap.Paths the rest of token_paths.go, and
--   Cmdmap.Catalog catalog.go. The embedded table of commands is an argument.
-- Ctl: cmd/clawgressctl/main.go. Ctl.Candidate has `setByPath` and `getByPath`, Ctl.Literal `parseValue`,
--   Ctl.Render `renderSetCommands`, Ctl.Edit `runSet`, and Ctl.Session the loop of `runConfigureMode`, as a function
--   of the lines that are typed and of what the system answers to each; Ctl.Token has `runToken`,
--   Ctl.Commands `runShowAudit` and `runInstall`.
-- Sqlite: internal/store/sqlite.go. Sqlite.Table is the interface of a table, with the laws of its
--   statements, and Sqlite.Store the loads, saves and deletions over it.
-- Config: internal/config/config.go. Security: internal/security/mtls.go.
-- Admin: cmd/clawgress-admin-api/main.go. Admin.Resource has the handlers of a collection over an interface,
--   which Admin.Agents, Admin.Policies and Admin.Quotas fill with the registry, the engine and the limiter;
--   Admin.Commit has the commit, which joins the store of revisions and the plans; Admin.Operate the
--   configure, state and audit endpoints, Admin.Tools those that sign, verify, render and write zones,
--   Admin.Environment `signalGateway` and `getenvBool`.
-- Each part's Tests apply its theorems to concrete data.
--
-- All loops are structural recursion; no definition has fuel. Texts are Unicode, with ASCII case
-- mapping. Mutexes make each method one step, since every method holds its mutex for its whole access
-- to the state. A handler that calls several methods is one step too, where no other request comes between
-- its change and its save (Admin.Resource); between the commit and the read of the state, Admin.Commit
-- has what other requests do to the store as an argument. What Go's library does beyond its strings, slices and maps (hashing, base64, JSON, time
-- stamps, the network, the clock, files) is an argument.
--
-- Not modelled: the rest of `main` of the three programs, their flags and servers; the HTTP client and the
-- spinner of the command line client; the opening and migration of the SQLite database; the
-- registration of metrics; the embedded user interface.
pub mod Base
pub mod Policy
pub mod Identity
pub mod Opmode
pub mod Enforcer
pub mod Quota
pub mod Audit
pub mod Gateway
pub mod Admin
pub mod Dns
pub mod Cmdmap
pub mod Ctl
pub mod Sqlite
pub mod Config
pub mod Security
