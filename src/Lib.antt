-- ===== src/Lib.antt =====
-- The gateway stands between analysts and MCP backends. A call of an analyst passes the kill switch,
-- the routing table, the policy, the quarantine of tools, the state of the backend, a cap on calls in
-- flight, the quota of the account that the call spends and the audit trail before it is sent; what the
-- backend answers is checked and scrubbed. This library models those parts and how they are composed.
--
-- Files, by the code they model:
--   Quarantine.antt, Quarantine/Identity.antt, Quarantine/Review.antt
--     internal/quarantine/quarantine.go: `Tool` and its transitions (`observed`, `approve` for Approved,
--     `approved_fingerprint`, `cleared`, `revoked`), the gate `usable`, `hash`, and `approved_set`.
--   Quarantine/Transitions.antt, Quarantine/History.antt, Quarantine/History/Served.antt,
--     Quarantine/Review/Reviewed.antt
--     proofs on one transition, on whole histories, and on bulk approval.
--   Access.antt, Access/Validate.antt, Access/Policy.antt
--     internal/access/access.go: roles, their validation, and the policy.
--   Access/Grants.antt, Access/Decisions.antt, Access/WellFormed.antt
--     proofs on grants, on the questions put to a policy, and on its construction.
--   Quarantine/Store.antt, Quarantine/Store/Sets.antt
--     internal/quarantine/sqlite/sqlite.go: `observe`, `approve_tool`, `approve_fingerprint`, `clear_tool`,
--     `revoke_tool`, `forget`, `definition` and `approve_review_set`, each one transaction over a `Shelf`.
--   Quarantine/Store/Rows.antt, Lookup.antt, Kept.antt, Transactions.antt, Sightings.antt, Departures.antt,
--     Evidence.antt
--     proofs on the definitions that the store keeps.
--   Quarantine/Store/Lives.antt, Seen.antt, Life.antt, Failed.antt, Served.antt
--     proofs on what the store makes of one row, and on transactions that fail.
--   Quarantine/Store/Bulk.antt, Quarantine/Store/Bulk/Keys.antt, Ready.antt, Told.antt, Histories.antt
--     histories with `approve_review_set` among the transactions, and proofs on the store after them.
--   Access/Blocks.antt, Access/Blocks/Replacing.antt
--     internal/access/block.go and internal/access/sqlite/sqlite.go: blocks, and their table.
--   Access/Blocks/Rows.antt, Enforced.antt, Switch.antt, Statements.antt, Blocked.antt
--     proofs on the table, and its refinement of a switch per subject.
--   Visible.antt
--     internal/visible/visible.go: what a terminal hides, and its escapes.
--   Audit.antt, Audit/Chain.antt
--     internal/audit/audit.go: the record, its validation, and the bytes that its hash covers.
--   Audit/Table.antt, Audit/Backfill.antt, Audit/Pages.antt
--     internal/audit/sqlite/sqlite.go: RecordChained, VerifyChain, backfillChain, ChainOrder, List, Page
--     and HasAnalyst over rows with the newest first.
--   Audit/Chain/Covered.antt, Audit/Table/Linked.antt, Sealed.antt, Written.antt,
--     Audit/Backfill/Rechained.antt, Audit/Pages/Found.antt
--     proofs on what a hash covers, on intact chains, on what writes and the backfill leave, and on what a page holds.
--   Quota.antt, Quota/Plan.antt, Quota/Gate.antt
--     internal/quota/quota.go: accounts, charges, the plan, and `admit` of the gate.
--   Quota/Store.antt
--     internal/quota/sqlite/sqlite.go: `reserve` as one transaction over the table of counters.
--   Quota/Store/Exact.antt, Quota/Index.antt, Quota/Declared.antt, Quota/Windows.antt, Quota/Calls.antt,
--     Quota/Ledger.antt
--     proofs on one reservation, the index by tool, what is declared, the windows, histories of calls and
--     their bound.
--   Gateway.antt, Gateway/Names.antt
--     internal/gateway/gateway.go: namespaced names, and their round trip.
--   Gateway/Trail.antt
--     internal/gateway/endpoint.go: record, auditRefusal, auditFailure, auditGatewayRow, classifyFailure.
--   Gateway/Slots.antt, Gateway/Slots/InFlight.antt
--     internal/gateway/resilience.go: callSlots, and calls that begin and end in any order.
--   Gateway/Admit.antt, Gateway/Admit/Gates.antt, Gateway/Admit/Listing.antt
--     internal/gateway/endpoint.go: readBlock, checkBlock, admit, lookup and ListTools.
--   Gateway/Front.antt
--     internal/gateway/endpoint.go: AdmitCaller and RecordAuthFailure.
--   Gateway/AuthLimit.antt, Gateway/AuthLimit/Sources.antt
--     internal/gateway/authlimit.go: which rejected requests reach the trail, and the bound on memory.
--   Gateway/Routes.antt, Gateway/Routes/Table.antt, Gateway/Routes/Withheld.antt
--     internal/gateway/endpoint.go: mergeRoutes, routesOf and the tools withheld for want of a quota.
--   Gateway/Coverage.antt, Gateway/Coverage/Shared.antt
--     internal/gateway/endpoint.go: quotaCoverage, and proofs on what it covers.
--   Registry.antt, Registry/Validate.antt, Registry/Validate/Names.antt
--     internal/registry/registry.go: the entry, its validation, and proofs on the names of its tools.
--   Gateway/World.antt, Gateway/Dispatch.antt
--     internal/gateway/endpoint.go: Dispatch, with availability of health.go and checkResult of
--     response.go. `World` holds what the call is told, `State` what it changes.
--   Gateway/Dispatch/View.antt, Finish.antt, Effect.antt, Release.antt, Rows.antt, Safety.antt
--     proofs on the ways through Dispatch and on what each of them leaves behind.
--   Tests.antt and the files below it
--     the code and the theorems at concrete inputs.
--   Base.antt and the files below it
--     texts as lists of bytes, lists, Boolean tests and results.
--
-- A Go map is an association list, a string the list of its bytes, an `int` or a `time.Duration` a signed
-- number without a bound, and an error the rule that it names. No definition takes fuel: every loop of
-- the code runs over a list. A store answers as a parameter says, call by call, so that each failure is
-- a case of every theorem. SHA-256 is a parameter, free of collisions where a theorem says so; the
-- parsers of URLs and JSON and the operations on float64 are parameters too, and so are the tables of
-- package unicode and the layouts of package time, with what their documentation says of
-- them as hypotheses; the lengths that the code writes on 64 bits are below 2^64 where a theorem says so.
--
-- Not modelled: the adapters for HTTP, processes, containers and REST, the identity provider, the
-- registry's table and its signatures, secrets, the operator API, configuration, the command line and the web
-- front; in the gateway, panics, discovery and reconciliation. The state of health that availability
-- reads, the schema library and the scrub of credentials are parameters of a call.
pub mod Base
pub mod Visible
pub mod Quarantine
pub mod Registry
pub mod Access
pub mod Audit
pub mod Quota
pub mod Gateway
pub mod Tests
