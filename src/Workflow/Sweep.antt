-- ===== src/Workflow/Sweep.antt =====
-- The overlap guard of planAndStartSweep (lib/workflows/planSweep.ts).
use pagespeed_auditor.Prelude.{
  ℕ, ◌<◌, String, ◌≡◌, ◌≢◌, ◌⊎◌, ◌++◌, Bool, ◌&&◌, none, List, [], ◌∷◌, length, same,
}
use pagespeed_auditor.Domain.{queued, running, paused, Run, AuditPair}
use pagespeed_auditor.Tables.{Tenant}
use pagespeed_auditor.Run.Expand.{RowOrder, expand_scope}
use pagespeed_auditor.Run.Lifecycle.{is_active, NewRun}
use pagespeed_auditor.Workflow.{site_scope}

abbrev pub is_active_on : String → Run → Bool
is_active_on site_id r = same r.site_id site_id && is_active r.status

-- A run of the site is not in the way of another.
abbrev pub IsIdle : String → Run → Type 0
IsIdle site_id r =
    (r.site_id ≢ site_id) ⊎ ((r.status ≢ queued) × (r.status ≢ running) × (r.status ≢ paused))

-- What a sweep that is started promises: the pairs are those of the whole site, and there is at least
-- one. One run is added, of the site, running, committed to exactly that many jobs, and with none
-- counted yet.
abbrev pub IsStart :
    RowOrder
    → (new_id : String) (now : ℕ) → Tenant
    → NewRun
    → String
    → List AuditPair
    → List Run
    → Type 0
IsStart order new_id now db input id pairs runs =
    (id ≡ new_id)
    × (pairs ≡ expand_scope order db input.site_id site_scope)
    × (0 < length pairs)
    × (added : Run) × (runs ≡ db.runs ++ added ∷ [])
    × ((added.id ≡ new_id) × (added.site_id ≡ input.site_id))
    × ((added.status ≡ running) × (added.finished_at ≡ none))
    × (added.total_jobs ≡ length pairs)
    × ((added.completed_jobs ≡ 0) × (added.failed_jobs ≡ 0))
