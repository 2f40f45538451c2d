-- ===== src/Lib.antt =====
-- A model of the core of wendkeep, and what is proved about it.
--
-- wendkeep keeps the memory of a project in a vault of files. This library models six of its
-- packages. packages/sync synchronises records between devices: an event carries one revision of a
-- record, a state collects events, keeps those that come too early, and opens a conflict where two
-- events compete. packages/migrations moves the files of the vault between formats: a run writes a
-- journal before each change, so that the next run can go on where one was interrupted, and a
-- receipt at the end, by which the change can be rolled back. packages/contracts decides when a
-- task of a change is done: it derives a contract from each task, evaluates it against
-- requirements, sensors, artifacts, other tasks and attestations of test-driven work, and passes
-- the outcome on in a hand-off. packages/observer decides who may read a project by a token,
-- packages/harness which steps a task goes through, by its operating profile, and packages/mcp which
-- effect a tool has that an agent calls.
--
-- Files and code:
--   Prelude        lists, texts (lists of UTF-16 units), tables (association lists), results, JSON
--                  as the language has it, with `stringify` for JSON.stringify
--   Platform       the parameters: SHA-256, Date parsing and printing
--   Sync.Canonical canonicalSyncJson and syncSha256 of packages/sync/src/sync-protocol.mjs, as all
--                  of Sync
--   Sync.Event     createSyncEvent and validateSyncEvent (Create), their data (Data), and the
--                  round trip (RoundTrip)
--   Sync.State     createSyncState and the records (Data), and what writes a state: rememberApplied,
--                  addPending, conflict, recordFromEvent
--   Sync.Apply     applySyncEvent and replayPending; Trace splits a run into moves, on which
--                  the other files stand
--   Sync.Resolve   resolveSyncConflict
--   Sync.Lease     acquireSyncLease
--   Sync.Private   encryptPrivatePayload, decryptPrivatePayload, rotatePrivatePayloadKey
--   Sync.Outbox    packages/sync/src/sync-outbox.mjs: the ledgers of events and acknowledgements
--   Sync.Backend   the filesystem adapter of packages/sync/src/sync-adapters.mjs, pushSyncEvents
--   Migrations.Data      the resources and hashMigrationState
--   Migrations.Registry  packages/migrations/src/registry.mjs: steps and planMigration
--   Migrations.Journal   assertJournal, createJournal, rebuildJournalFromBackup of runner.mjs
--   Migrations.Receipt   buildReceipt and assertReceipt
--   Migrations.Machine   file-store.mjs, and the process that writes the files
--   Migrations.Run       runMigration, with one step of it in Perform; Progress says what an
--                        interruption may leave, Step and Loop go on from there, Opening and Ending
--                        join them, Recovery is the result
--   Migrations.Repair    repairMigration
--   Migrations.Rollback  rollbackMigration
--   Contracts.Strings    uniqueStrings and canonicalJson of
--                        packages/contracts/src/task-contracts.mjs, as the next four
--   Contracts.Task       deriveTaskContracts
--   Contracts.Evaluate   evaluateTaskContract (Laws) and evaluateTaskContracts: Completable is the
--                        specification, Ends and Refinement say that the loops meet it
--   Contracts.Artifacts  normalizeExternalArtifactEvidence and evaluateArtifactSpecs
--   Contracts.Handoff    deriveHandoffContract, normalizeHandoffContract, evaluateHandoffContract,
--                        assertStructuredHandoffForProfile
--   Contracts.Verdict    packages/contracts/src/verdict.mjs
--   Contracts.Tdd        packages/contracts/src/tdd-attestation.mjs: Paths and Observe are its
--                        helpers, Attestation the states, Machine the transitions; Changes says
--                        which paths count as changed, History what an attestation vouches for
--   Harness.Profile      packages/harness/src/operating-profile.mjs: the profiles and their
--                        configuration
--   Harness.Lease        the leases of temporary profiles, of the same file
--   Mcp.Catalog          packages/mcp/src/effects.mjs: the catalog of tools, as the next two
--   Mcp.Verify           verifyMcpEffectManifest
--   Mcp.Effects          resolveMcpToolEffect
--   Observer.Tokens      packages/observer/src/token-registry.mjs over the table observer_tokens of
--                        schema/observer/006-observer-security.sql (Register); Unique and History
--                        follow the table through its changes, Rotation one token
--   Observer.Authz       authorizeObserverPrincipal of packages/observer/src/authz.mjs
--
-- How the code is read: a function that changes its argument `state` returns the new state, also
-- where it throws, and an error is a value of SyncError. applySyncEvent and replayPending call each
-- other; they recurse on fuel, one unit for each call, and `apply_sync_event` gives one unit more
-- than there are pending events. Objects used as maps are tables, so a key that names a property of
-- Object.prototype is outside the model. localeCompare on event ids, which are lower-case
-- hexadecimal digits, is the order of their units. Numbers are natural numbers up to 2 ^ 53 - 1
-- where the code asks Number.isSafeInteger.
--
-- A migration runs on a machine with a disk and a budget: how many more writes, or calls of the hook
-- `fault`, the process lives to make. A write replaces a file whole or not at all, as the rename of
-- atomicWriteJson does; copyFileSync of the backup is taken as such a write too. A journal or a
-- receipt that is no JSON is `corrupt`, and one that lacks a property of its record is outside the
-- model.
--
-- A ledger is a list of lines, each blank, no JSON, or a record, which JSON.parse reads back as it
-- was written. Every line ends in a newline, the last one too: the code also reads a ledger whose
-- last line has none, to which an append would then join its line, and that is outside the model,
-- as is a process that dies while a ledger is written. Whether a lock could be taken is a
-- parameter.
--
-- A set of texts, as `completed` in evaluateTaskContracts, is the list of its elements in the
-- order in which they came. The loop there has one unit of fuel more than there are contracts, and
-- each round that goes on completes one. A field that the code reads as `String(x || '')` is a
-- text, empty where it is missing. The authority of a hand-off is one of the two texts that the
-- code knows: a missing or another one, which deriving takes as verified and reading back as
-- reported, is outside the model. A property of a JSON object that is missing is read as null,
-- except where the code asks whether it is there. The token table is the list of its rows; an
-- insert fails if the id or the hash is there or the origin that it names is not, and a
-- transaction that throws leaves the table as it was. toUpperCase and toLowerCase are exact for
-- comparisons with ASCII texts, which is all that they are used for. Parameters are
-- sanitizeDiagnostic, a chain of regular expressions, the matching of a pattern that globRegExp
-- builds, and of the file system whether a path stays inside the project, is a file, and what a
-- scan lists.
--
-- Not modelled: file-system effects, the other packages, the command line, the hooks, and the
-- web page.
pub mod Prelude
pub mod Platform
pub mod Migrations
pub mod Sync
pub mod Contracts
pub mod Harness
pub mod Mcp
pub mod Observer
mod Tests
