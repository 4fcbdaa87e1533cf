-- ===== src/Lib.antt =====
-- Skillwire delivers agent skills from a verified catalog, and installs itself as a self-hosted
-- service beside the clients that use it. These modules model the parts of it that decide: the
-- journal that makes an onboarding operation recoverable, its recovery, the lifecycles of an
-- installation and of a client's integration, the ledger of what the installation owns, and the
-- chain of advisories that a release carries, and the upgrade, the repair and the removal of an
-- installation. Beside these: the classification and the dependencies of skills imported from
-- elsewhere, the ranking of a search's results, the revisions of the catalog with their integrity
-- check and their cache, and the use cases that search, load and read skills.
--
-- An onboarding operation runs each effect through the journal (`runEffect`), and after a crash
-- recovery reads the journal back (`OperationJournal.open`), asks what it left unresolved
-- (`journalNeedsRecovery`) and brings it to an end (`recoverOperation`). The assets that effects
-- make are recorded in the ownership ledger, which later decides what an uninstall or a purge may
-- remove. The installation record moves through its statuses as operations succeed or fail.
--
-- A request searches the catalog (`createSearchSkills`, which ranks), loads the instructions of an
-- exact revision (`createLoadSkill`, which verifies it and then records its use in the memory of
-- the repository) and reads its resources (`createReadSkillResource`). A revision is made by
-- `createSkillRevision`, checked by `assertRevisionIntegrity`, and kept by `VerifiedRevisionCache`.
--
-- Which file models which part:
-- - Base: names and lemmas that the others share. `Result` is a return or a throw; `Base.Dict` is
--   `Set` and `Map`, as lists in the order of insertion.
-- - Journal.Entry, .Append, .Opening, .Effect, .Unproven:
--   src/onboarding/domain/operation-journal.ts, `JournalEntrySchema`, `append` with its five
--   guards, `create` and `open`, `runEffect`, and `hasUnprovenEffect`, `hasIncompleteMutation`,
--   `failure`. A method of the journal is a function from the journal to a result and the journal
--   after it (`Exec`), so that what was written before a throw stays written.
-- - Journal.Recovery: src/onboarding/application/recovery.ts, all of it.
-- - Journal.Protocol: the order of phases, stated without the code's tests. Journal.Outstanding:
--   what the journal's summaries look for, stated without their sets.
-- - Journal.Invariant, .EffectLaws, .Reopening, .BadLines, .RecoveryEnds, .RecoverySettles,
--   .RecoveryStuck: proofs.
-- - Installation.Status, .Schema, .ClientState: src/onboarding/domain/installation.ts. `run` in
--   Installation.Lifecycle and Installation.ClientHistory is a sequence of its transitions.
-- - Canonical: `canonicalJson` of src/onboarding/domain/ownership.ts and `canonicalize` of
--   src/domain/catalog/canonical-revision.ts, which differ in the order of keys.
-- - Ownership.Record, .Ledger: src/onboarding/domain/ownership.ts. Ownership.Removable: what a
--   removal may remove, stated without its filter. Ownership.Distinct, .Plans, .Integrity,
--   .Disjoint: proofs.
-- - Advisory.Event, .Chain: src/domain/catalog/advisory-chain.ts. Advisory.Links, .Revocation:
--   proofs.
-- - Installation.Records: the schemas of the records stored beside the installation.
--   Installation.Secrets: proofs.
-- - Journal.OperationRecord: `OperationRecordSchema`. Ownership.Proof: `OwnershipProofSchema`.
-- - Ranking.Score: src/domain/catalog/ranking.ts and src/domain/repository-memory/outcome.ts.
--   Ranking.Best: proofs.
-- - Candidates.Policy: `applyCandidateTransition` of
--   src/domain/external-catalog/candidate-policy.ts.
-- - Candidates.Resolver: `resolveInternalDependencies` of
--   src/domain/external-catalog/dependency-resolver.ts. Candidates.Resolution: proofs.
-- - Candidates.Cycles: `dependencyCycleMembers` of the same file. Candidates.CycleFuel,
--   .CycleTrail, .CycleMembers: proofs.
-- - Catalog.Text: src/domain/catalog/text-normalization.ts. Catalog.Path: `assertSafeResourcePath`
--   of src/domain/catalog/resource-path.ts. Catalog.Revision and its child Record: the revision's
--   types of src/domain/catalog/types.ts, `createSkillRevision` of canonical-revision.ts and
--   revision-integrity.ts beside it. Catalog.TextLaws, .Created, .Again, .Bounds: proofs.
-- - Catalog.Cache: src/catalog/verified-revision-cache.ts. Catalog.CacheLaws: proofs.
-- - Delivery.Errors: src/application/errors.ts, request-execution.ts beside it, and
--   `repositoryMemoryScope` of src/domain/repository-memory/types.ts.
-- - Delivery.Exact, .Load: src/application/use-cases/load-skill.ts. Delivery.LoadLaws, .LoadOnce:
--   proofs. Delivery.Read: read-skill-resource.ts beside it, with its proofs. Delivery.Search:
--   search-skills.ts. Delivery.SearchLaws: proofs. Delivery.Unified:
--   src/catalog/unified-catalog-provider.ts. Delivery.UnifiedLaws: proofs.
-- - Installation.SourceChoice: src/onboarding/domain/source-choice.ts. Advisory.External:
--   src/domain/external-catalog/external-advisory-chain.ts.
-- - Lifecycle.SyncRun: a claimed run of src/lifecycle/github-sync-scheduler.ts, `#executeSyncRun`,
--   `#withLease` and the checks that they use. Lifecycle.SyncLaws: proofs. Lifecycle.Cleanup:
--   audit-cleanup-scheduler.ts and readiness-state.ts beside it, with its proofs.
-- - Onboarding.Op: how an operation of src/onboarding/application/ is modelled, as a function that
--   may throw, with the journal it may have, its local variables and calls, and its signal;
--   `runEffect` with an action that is such a function, and `confirmPreview` of
--   src/onboarding/cli/confirmation.ts. Onboarding.Triple: the rules for what holds after such a
--   function returns or throws.
-- - Onboarding.Schema: src/onboarding/adapters/postgres/schema-compatibility.ts, with its proofs in
--   Laws. Onboarding.Upgrade: src/onboarding/application/upgrade.ts. Its children Steps, Switch,
--   Admission, Outcome, Laws and Interrupted: proofs.
-- - Onboarding.Removal, .Removal.Purge, .Removal.Uninstall: src/onboarding/application/purge.ts and
--   uninstall.ts, over the ledger of Ownership. Removal.Proven, .Recorded, .Purged, .Groups,
--   .Grouped, .Retained, .Uninstalled: proofs. Onboarding.Repair:
--   src/onboarding/application/repair.ts, with its proofs in Laws.
-- - Onboarding.ClientRemoval: `evaluateClientLifecycleAction` and `uninstallClientLifecycle` of
--   src/onboarding/application/client-lifecycle.ts, with the proofs in Admitted and Laws.
-- - The modules called Tests: concrete inputs.
--
-- What is a parameter: the schema library's formats (`z.uuid()`, `z.iso.datetime()`), the URL
-- parser, the clock, SHA-256, `JSON.stringify` of texts and numbers, `localeCompare`, the Unicode
-- classes and foldings of tokens, UTF-8 and the normal form NFC, the outcome of each write, the
-- callbacks of `runEffect` and `recoverOperation`, what a catalog provider answers to each call,
-- what the stores answer to the calls of a scheduled run, the memory store, and what the functions
-- answer that an upgrade, a removal or a repair is given. Such an answer is fixed, or fixed by how
-- many calls went before it. Named hypotheses state what is documented of them: `IsUnicode`
-- (decoding an encoded text drops one byte order mark, and NFC is its own normal form and makes no
-- control characters), and `IsComparison` (a comparison of texts is strict and transitive), and
-- `IsCollisionFree` (the hash of advisory events has no collision among those of two chains). The
-- file of a journal is the list of its lines, each the entry that its JSON text stands for or a
-- text that is no JSON. A write is durable, or it fails with nothing of its line in the file, with
-- a part of it, or with all of it. Numbers are natural numbers: every number that this code stores
-- is a count, a sequence or a mode. An asynchronous call is its answer, so that two questions to a
-- provider may have different answers.
--
-- Loops are structural recursion over the entries, assets, events or texts. The search for
-- dependency cycles alone has fuel, as much as the graph has keys, and two: each level of it that
-- has dependencies is that of a key that no level above it visits.
--
-- Not modelled: the hash of an operation's preview, whose text is redacted first, which enters as a
-- value; the quarantine through which a purge removes a directory tree; the installation lock (a
-- child process that holds a file lock); the timers of the schedulers, whose ticks are events; the
-- services that register, discover and synchronise sources, which are sequences of calls on stores;
-- and the parts of the program that are input and output: processes, containers, databases, the
-- network and its servers, terminals and the command line.
pub mod Base
pub mod Journal
pub mod Installation
pub mod Canonical
pub mod Ownership
pub mod Advisory
pub mod Ranking
pub mod Catalog
pub mod Delivery
pub mod Lifecycle
pub mod Onboarding
pub mod Candidates
