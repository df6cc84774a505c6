-- ===== src/Run.antt =====
-- The pure part of lib/services/run.service.ts: scope pairs that a run still owes, and progress.
-- Divisions are exact here; in the source they are floating point, so a tie may round the other
-- way there. `Math.round(a / b)` is `(2 * a + b) / (2 * b)`.
pub mod Lifecycle
pub mod Expand
pub mod Resume
pub mod Labels
pub mod Scope
pub mod Missing
pub mod Owed
use Prim.Native.String
use pagespeed_auditor.Prelude.{
  ℕ, ◌+◌, ◌-◌, ◌*◌, ◌/◌, min, String, Bool, not, ◌&&◌, Option, none, some, List, map, ltb, leb,
  ◌==◌, if◌then◌else◌, includes, keep,
}
use pagespeed_auditor.Domain.{Strategy, AuditPair}
use pagespeed_auditor.Run.Labels.{pair_key}

unfoldable pub should_finalize : (completed_jobs total_jobs : ℕ) → Bool
should_finalize completed_jobs total_jobs = ltb 0 total_jobs && leb total_jobs completed_jobs

-- The set `done` is the list of its keys.
unfoldable pub diff_missing_pairs : List AuditPair → List (String × Strategy) → List AuditPair
diff_missing_pairs expected existing =
    let done = map (λ (e : String × Strategy). pair_key e.0 e.1) existing in
    keep (λ p. not (includes done (pair_key p.page_id p.strategy))) expected

unfoldable pub percent_complete : (completed_jobs total_jobs : ℕ) → ℕ
percent_complete completed_jobs total_jobs =
    if total_jobs == 0 then 0 else min 100 ((200 * completed_jobs + total_jobs) / (2 * total_jobs))

-- Times in milliseconds.
unfoldable pub eta_seconds : (completed_jobs total_jobs : ℕ) → Option ℕ → (now : ℕ) → Option ℕ
eta_seconds completed_jobs total_jobs none now = none
eta_seconds completed_jobs total_jobs (some started_at) now =
    if completed_jobs == 0
    then none
    else if leb total_jobs completed_jobs
    then none
    else if leb now started_at
    then none
    else some (
        (2 * ((now - started_at) * (total_jobs - completed_jobs)) + 1000 * completed_jobs)
        / (2000 * completed_jobs))

-- Whether a run that started then has been open for more than so many hours.
unfoldable pub is_stale : (started_at now stale_hours : ℕ) → Bool
is_stale started_at now stale_hours = ltb (started_at + stale_hours * 3_600_000) now
