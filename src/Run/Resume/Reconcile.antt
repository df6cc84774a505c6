-- ===== src/Run/Resume/Reconcile.antt =====
-- What reconcileStaleRuns of lib/services/run.service.ts makes of the runs that a crash left open:
-- the statements about one run, and about what a round leaves of the rest.
pub mod Rounds
pub mod Loop
use pagespeed_auditor.Prelude.{ℕ, ◌+◌, ◌*◌, ◌<◌, String, ◌≡◌, ◌≢◌, ◌⊎◌, true, some, List, In}
use pagespeed_auditor.Domain.{running, failed, abandoned, scope_grew, Run, AuditPair}
use pagespeed_auditor.Tables.{find_run}
use pagespeed_auditor.Run.Resume.{Faults, Reconciled}

-- The run as the reconciliation leaves it after resumeRun has returned: running, with a workflow
-- started for it, or failed, since its scope had outgrown its total.
abbrev pub IsResumed : Run → Reconciled → Type 0
IsResumed r c =
    (after : Run) × (find_run r.id c.db.runs ≡ some after)
    × (((after.status ≡ running)
          × ((pairs : List AuditPair) × In {A = String × List AuditPair} (r.id, pairs)
                c.dispatched))
        ⊎ ((after.status ≡ failed)
            × ((n : ℕ) × (after.error ≡ some (scope_grew n r.total_jobs)) × (r.total_jobs < n))))

-- The run was given up as stale.
abbrev pub IsAbandoned : (now stale_hours : ℕ) → Run → Reconciled → Type 0
IsAbandoned now stale_hours r c =
    (r.started_at + stale_hours * 3_600_000 < now)
    × In r.id c.summary.failed
    × ((after : Run) × (find_run r.id c.db.runs ≡ some after)
        × (after.status ≡ failed)
        × (after.error ≡ some (abandoned stale_hours)))

-- Something threw while the run was resumed.
abbrev pub IsFaulty : Faults → Run → Type 0
IsFaulty faults r =
    (faults.query r.id ≡ true) ⊎ ((pairs : List AuditPair) × (faults.dispatch r.id pairs ≡ true))

-- What becomes of an open run.
abbrev pub IsHandled : Faults → (now stale_hours : ℕ) → Run → Reconciled → Type 0
IsHandled faults now stale_hours r c =
    IsAbandoned now stale_hours r c
    ⊎ (((r.started_at + stale_hours * 3_600_000 < now) → ⊥)
        × ((In r.id c.summary.resumed × IsResumed r c)
            ⊎ (In r.id c.summary.failed × IsFaulty faults r)))

-- What a round on a run leaves of the rest.
pub record Extends (id : String) (c c' : Reconciled) : Type 0 where
  pub others : (other : String) → id ≢ other → find_run other c'.db.runs ≡ find_run other c.db.runs
  pub resumed : (i : String) → In i c.summary.resumed → In i c'.summary.resumed
  pub failed : (i : String) → In i c.summary.failed → In i c'.summary.failed
  pub dispatched : (d : String × List AuditPair) → In d c.dispatched → In d c'.dispatched
