-- ===== src/Lib.antt =====
-- A verification library for the PageSpeed auditor (lib/): the program that measures every page of a
-- site with Google's PageSpeed Insights API, on a phone and on a desktop, keeps the results, and
-- shows what became better or worse.
--
-- A run (lib/services/run.service.ts) is created with a scope and a committed number of jobs, one for
-- each pair of a page and a strategy. Its workflow (lib/workflows/auditRun.ts) dispatches the pairs
-- in batches and reads the run's status between them, so that a pause or a stop in the dashboard takes
-- effect. A job (auditOnePageStep, and auditPage of lib/services/audit.service.ts) takes a permit of
-- the rate limiter, calls the API, classifies the answer, and records a result, with retries. The job
-- that completes the run's count finalizes it; a sweep that meets an active run is recorded as
-- skipped; at boot, runs that were left open are resumed or failed.
--
-- The files, by the part of the program that they model:
--   Prelude       Boolean tests, lists, texts and integers over the native numbers
--   Domain        the shared types of lib/psi/types.ts and lib/services/types.ts, and a run
--   Tables        the tables of prisma/tenant/schema.prisma, and a run's lookup and update
--   Run           lib/services/run.service.ts: Labels and Scope (formatScopeLabel, parseScopeLabel),
--                 Lifecycle (createRun, createSkippedRun, finalizeRun, failRun, controlRun,
--                 findActiveRun, with the counts of lib/workflows/runControl.ts), Expand
--                 (expandScope, failedPairsForRun), Resume (resumeRun, reconcileStaleRuns); Missing
--                 and Owed are on diffMissingPairs; Lifecycle/Settled, Lifecycle/Control,
--                 Lifecycle/Traces, Scope/Shape, Resume/Counters and Resume/Reconcile are
--                 proofs
--   Audit         lib/services/audit.service.ts: recordAuditResult; Audit/Job has auditPage and
--                 auditOnePageStep; Waits, Accounting, Replay, Reports, Completion
--                 and Liveness are proofs
--   Workflow      auditRunWorkflow, reconcileIfNeededStep and lib/workflows/planSweep.ts; Batches and
--                 Sweep are proofs
--   Psi           lib/psi: Buckets, Response, Extract and Issues (extract.ts), Client; Backoff,
--                 Issues/Ranking and Issues/Failing are proofs
--   Limiter       lib/psi/rateLimiter.ts; Permits is its proofs
--   Regression    lib/services/regression.service.ts; Noise is its proofs
--   Roles         lib/auth/roles.ts, lib/onboarding/tourSteps.ts and tourProgress.ts; Tour is proofs
--   Groups        lib/services/group.service.ts; Aliases is its proofs
--   Login         lib/auth/rate-limit.ts; Windows is its proofs
--   Members       app/actions/members.ts and wouldOrphanOrganization of
--                 lib/services/account.service.ts; Admins is its proofs
--   Cron          choiceToCron and cronToChoice of lib/services/cronPhrase.ts; Parts and Picker are proofs
--   Sitemap       lib/sitemap/group.ts: Slug; Slug/Stable is its proofs
--   Retention     deleteRuns of lib/services/retention.service.ts; Kept is its proofs
--   Tests         a small organisation, at which the theorems are tried
--
-- How the code is modelled. A function of the source has the name of the source in snake case. A
-- table is the list of its rows in the order of insertion, and a query's `where` is a Boolean test on
-- them; a transaction is a function of the whole database that returns the database after it, or
-- throws with the database as it was. The key of AuditResult over run, page and strategy is checked
-- as the database does, which is what catches a replay. Times are milliseconds. A metric and a
-- Lighthouse score are in thousandths, so that 0.1 and 0.9 are exact, and Math.round is the
-- rounding of an exact quotient to the nearest, halves up; a floating-point product next to a half may
-- differ.
--
-- What is an argument of the model: the answer of the API, with what JSON.parse makes of its text; the
-- store of raw responses, which gives a key or throws one of two errors; a site's API key; the text of
-- a report and the stored form of a response; the order that the database's ORDER BY gives; the keys
-- and times of new rows; the spelling of a number. Logs, the live log (lib/opsState.ts) and
-- notifications are left out, since nothing that is modelled reads them. The sleep between two attempts of
-- a job is a function of its own in Audit/Job, on which the result of the job does not depend. The sort
-- of the language is an argument, with what is documented of it as a hypothesis; what may throw
-- around the reconciliation, and the lateness of a timer, are arguments too.
--
-- Interleavings are sequences. Calls of recordAuditResult are listed in the order in which their
-- transactions commit; the reads of the workflow at its boundaries are a list that the rest of the
-- program determines, and where the list ends the workflow waits. The loop over batches has fuel of
-- one more than the number of pairs, which is enough when a batch has at least one pair. The retry
-- loop of a job recurses on the attempts that are left.
--
-- What is not modelled: the user interface, sessions and passwords, notifications, the fetching and
-- the ingest of sitemaps, invitations, the pruning of old results, the texts of reports, the
-- recommendations of a language model, the MCP server, provisioning, and the demo data.
pub mod Prelude
pub mod Domain
pub mod Psi
pub mod Tables
pub mod Run
pub mod Audit
pub mod Workflow
pub mod Limiter
pub mod Roles
pub mod Regression
pub mod Groups
pub mod Login
pub mod Members
pub mod Cron
pub mod Sitemap
pub mod Retention
pub mod Tests
