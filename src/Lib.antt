-- ===== src/Lib.antt =====
-- The control plane of agent-cloud: who may do what, what may be reserved, and what is asked of a cloud
-- provider.
--
-- The program and its parts. An agent holds a credential. Credentials form a tree: a credential issues
-- others under a narrower policy, and revoking one revokes all below it (apps/control/src/auth.ts). A
-- request on a machine is admitted in one transaction that checks the credential, the machine and the
-- budget, and that writes an operation for the worker (apps/control/src/lifecycle.ts, and for a destroy
-- request apps/control/src/cleanup-admission.ts). The worker carries an operation out in ticks
-- (apps/control/src/advance-operation.ts, and apps/control/src/machine-cleanup.ts once a cleanup has been
-- admitted). A tick settles an effect, submits the next one, or ends the operation. Each
-- effect is written to a journal before the provider is asked, its receipt is written after, and it is
-- settled by what the provider shows (apps/control/src/effect-journal.ts, with the ledger of owned
-- resources in apps/control/src/resource-journal.ts).
--
-- Which file models which part.
--   Base        the shared names: Boolean tests, lists on native numbers, tables as lists of rows, and
--               exceptions as values (Base/Result: a `CloudError` with its failure, or any other).
--   Contracts   packages/contracts/src: Errors, Policy and PolicySchema (auth.ts), Catalog, Lifecycle and
--               Provider (provider.ts, ids.ts), constructor by constructor.
--   Store       packages/db/src/schema.ts: Rows has the tables, State is the database with a trace of the
--               commands that were sent. Action is the monad of a handler: a state is passed on and
--               what was written before a throw stays, except in a transaction. Action/Keeps, Yields
--               and Runs have the rules by which handlers are reasoned about.
--   Auth        apps/control/src/auth.ts and access-closure.ts: Authority (loadAuthority, loadPrincipal,
--               authenticate), Policy (authorize, assertPolicySubset), Grants (issueGrant, revokeGrant,
--               closeGrantAccess, closeMachineAccess). Chain, Revoke, Delegation and Issue are proofs.
--   Admission   apps/control/src/lifecycle.ts: Command (authorizeCommand), Reservation
--               (assertReservation), Request, Admit and its child Prepare (admit);
--               apps/control/src/cleanup-admission.ts: Cleanup (admitCleanup). Budget, Limits, Replay
--               and Exclusive are proofs.
--   Journal     apps/control/src/resource-journal.ts: Resources; apps/control/src/effect-journal.ts:
--               Prepare and Submit (journalEffect, setProgress), Evaluate and its child Judge
--               (evaluate), Resolve (resolveEffect). Claims, Numbered, WriteAhead, Authorized,
--               Evidence, Settled and Writes are proofs.
--   Worker      apps/control/src/advance-operation.ts: Work (what a tick has at hand), Complete (fail,
--               complete), Effects (verifyRuntime, ensureProviderBackups, beginFailure, cleanupIp),
--               Create and Act (the lifecycles in advanceLocked), Advance (advanceLocked,
--               advanceOperation); apps/control/src/machine-cleanup.ts: Cleanup with its children History
--               (the effects that are found) and Check (what may be deleted). Frames has the rule by
--               which what holds of every write of a tick holds of the tick; WriteAhead, Isolation,
--               Retirement and Deletions are proofs.
--   Schedules   apps/control/src/backup-schedules.ts (create, disable, advance). Keyed, Bounded, Steps and
--               Paced are proofs.
--   Simulated   apps/control/src/simulated-provider.ts: Actions (getAction), Submit (submit, submitIp); the
--               reads are in Simulated itself. Once, Due, Created and Destroyed are proofs. A submission
--               takes one instant and three new ids.
--   Examples    runs at concrete inputs.
--
-- How the state corresponds. A table is a list of its rows in the order of insertion, and a query that
-- names a key is `find`. A handler that is one transaction (admit, admitCleanup, issueGrant, revokeGrant)
-- is a function from a state to an error, or to a value and the state that is committed. A handler that
-- commits in between (journalEffect, resolveEffect) is an `Action`. Identifiers, codes, names and label
-- texts are only compared by the program, so they are numbers. Instants are milliseconds and prices are
-- micro-units, as natural numbers without a bound: they are only compared and added.
--
-- Parameters. The clock, the new random ids, SHA-256 of a token or a request and whether an advisory
-- lock could be had are inputs. The provider is a record of functions, each with the number of calls so
-- far as its first argument, so that no two answers need to agree and any call can throw. So are the
-- functions of GuestProvisioning that resolve an image, prepare a bootstrap and probe a guest; the tables
-- that only they use are not part of the state. A tick takes one instant of each clock and one new id: it
-- submits at most one effect.
--
-- Bounds. The ancestry of a credential is read by recursion on 32, the depth at which the SQL query of
-- loadAuthority stops itself; a longer chain is then refused because its last row has a parent. The
-- subtree that a revocation closes stops at the same depth, as its query does. Everything else is
-- structural recursion on lists.
--
-- What is not modelled. Messages of failures and names for display. The triggers and constraints of the
-- SQL migrations, and the locks themselves: a handler runs as if alone, which its locks are there for.
-- The pinning of an image release to a new allocation in admit. Images, backups but for
-- their schedules, hosting, access sessions, the adapters, the command line and the gateways.
pub mod Base
pub mod Contracts
pub mod Store
pub mod Auth
pub mod Admission
pub mod Journal
pub mod Worker
pub mod Schedules
pub mod Simulated
mod Examples
