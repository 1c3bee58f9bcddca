-- ===== src/Lib.antt =====
-- Verification of the backend of DIIaC PatchForge: the queue of automation work, the scheduler and the
-- worker that serve it, storage with its leases, cleanup and purge, the review of evidence, the
-- assessment of applicability, signed exports, the guard on outbound requests, the authorization of
-- requests, the review workflow, and the parsing of security flags.
--
-- The parts and the files that model them:
-- - Prelude, with Prelude/Tests, Lists, Texts and Numbers: Boolean tests, lists over native numbers,
--   texts as lists of character codes, JavaScript numbers as m / 2^k with NaN and the infinities, and
--   `boundedNumber`.
-- - Security: `parseSecurityBoolean` and `parseSecurityBooleanAny` of
--   backend-api/patchforge/securityBooleans.js.
-- - Store: the operations `list`, `append`, `appendImmutable` and `replace` of
--   `PatchForgeJsonStorage` (backend-api/patchforge/storage.js), on a list of records in insertion
--   order. Files are not modelled: a write is assumed to succeed.
-- - Leases: `acquireAutomationLease` and `releaseAutomationLease` of that class, and the acquisition
--   of `PatchForgePostgresStorage`, whose SQL is read as an upsert that updates only a row that yields.
-- - Automation: backend-api/patchforge/automationWork.js. `Db` holds its collections and `World` the
--   store during a run. The source-feed client, the clock, the random numbers and what other workers do
--   during a sleep are an environment `Env`; the digest is a parameter. Enqueue is
--   `enqueueSourceFeedWork`, Execute is `executeSourceFeedWork`, Pending is `runPendingAutomationWork`,
--   Reconcile is `reconcileAutomationWork`, Health is `automationHealth`, and Retry is `retryDelay`.
--   Replays is about the replay counts across these.
-- - Evidence: backend-api/patchforge/evidenceReview.js. Evidence/Replay is
--   `replayFindingEvidenceEvents`, Evidence/Actions the reviews and reopenings with their guards, and
--   Evidence/Projection is `projectFindingEvidenceRecord`. The digest of a value's canonical JSON is a
--   parameter.
-- - Outbound: backend-api/patchforge/outboundFetch.js. Outbound/Address is
--   `isDisallowedOutboundAddress`, Outbound is `assertApprovedOutboundUrl`, and Outbound/Fetch is
--   `guardedFetchBuffer`. The parser of URLs, `net.isIP`, DNS and the transport are an environment `Net`.
-- - Auth: backend-api/auth.js. `route_roles` is `ROUTE_ROLES`, `roles_for_route` is `rolesForRoute` and
--   `authorize_request` is `authorizeRequest`; the verification of a token is a parameter.
-- - Workflow: `createWorkflowItem` and `transitionWorkflowItem` of backend-api/patchforge/priority.js.
-- - PatchActions: `comparePatchActions` of backend-api/patchforge/priority.js, with its options and the
--   selection of a candidate.
-- - Applicability: `assessConfigApplicability` of backend-api/patchforge/configApplicability.js.
--   Applicability/Terms has its texts and aliases, Versions the comparison of versions and the ranges,
--   Status the statuses of version, product, feature and exposure, Gaps the gaps, and Posture the
--   postures and the assessment.
-- - Cycles: the lease of a cycle. Cycles/Worker is `runWorkerOnce` of backend-api/patchforge/worker.js,
--   and Cycles/Scheduler is `runSchedulerOnce` of backend-api/patchforge/scheduler.js: Priority is
--   `prioritizedCves`, Refresh the feeds, and Gather `recordIncompleteWork` with the sweep over the work
--   of the cycle.
-- - Exports: backend-api/patchforge/exportArtifacts.js. Exports/Materialize is
--   `materializeSignedExportArtifact`, Exports/Guards has its guards, and Exports/Verify is
--   `verifyStoredExportArtifact` with `verifyProductionSignature`, and Exports/Signatures says what a
--   signature is that these do not refuse. Digests, base64 and the check of a
--   signature are a record `Platform`; the bundle of the runtime is a parameter.
-- - Cleanup: the removal of records (backend-api/patchforge/storage.js), of the JSON storage but for
--   Cleanup/PgPurge, which is the purge of `PatchForgePostgresStorage`.
--   Cleanup/Plan is `buildUatCleanupPlan`, Cleanup/Execute is `cleanupUatRecords`, and Cleanup/Purge is
--   `purgePatchForgeData`. A record is its identifier and the values of its fields.
-- - Scenarios: test data, runs at concrete inputs, and the theorems applied to them.
--
-- How they interact: the queue reads and writes work items, dead letters and checkpoints through
-- Store, and takes and gives back one lease for each work item through Leases. The worker and the
-- scheduler take one lease for a cycle, and run the queue under it: the worker reconciles,
-- processes what is due and reports the health; the scheduler enqueues and executes the feeds of
-- its cycle. Exports are kept through the append-only write of Store, and the previews of a
-- cleanup are replaced through it.
--
-- Loops and bounds: the loop over the attempts recurs on the number of rounds left, which is the
-- attempt limit (8 at most) and one, less the first attempt; its result at no rounds left is that of the code
-- after the loop. The loop over the events of a record recurs on their number,
-- since each round takes one out. The loop over redirects recurs on the redirects that may
-- still follow, five at most. The comparison of versions recurs on the number of places that are
-- left, the greater number of parts at first. All other loops recur on a list or on a value.
--
-- Conventions: instants are milliseconds; an absent value, `null` and an empty text that the code treats
-- alike are `none` or the empty text; an error that is thrown is a constructor of the result type. A
-- sort is an insertion sort with the comparison of the code, which is stable as the built-in one is.
-- The parts of a version are natural numbers: JavaScript keeps them exactly below 2^53.
--
-- Not modelled: the timers of the scheduler and the worker with their guards against overlapping
-- runs; the cleanup of the PostgreSQL storage; the zip of a decision pack; the English
-- sentences of a gap; the priority index, whose score is rounded from a product of floating-point
-- numbers; the HTTP server, the reports, the search index, the source adapters and the other
-- parts that mostly move data between external services; the identifiers that are made of random
-- numbers; the rounding of floating-point numbers inside the jitter of a retry.
pub mod Prelude
pub mod Security
pub mod Store
pub mod Leases
pub mod Automation
pub mod Evidence
pub mod Outbound
pub mod Auth
pub mod Workflow
pub mod Applicability
pub mod Cycles
pub mod Exports
pub mod Cleanup
pub mod PatchActions
pub mod Scenarios
