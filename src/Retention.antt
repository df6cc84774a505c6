-- ===== src/Retention.antt =====
-- lib/services/retention.service.ts: deleteRuns, which removes runs of the past at the operator's
-- choice. The database removes the results and the issues of a run with it; the keys of the raw
-- responses are given to the store, which is outside the database.
pub mod Kept
use pagespeed_auditor.Prelude.{
  ℕ, String, Bool, true, false, not, ◌&&◌, Option, none, some, List, [], ◌∷◌, ◌++◌, map, same,
  includes, keep, length,
}
use pagespeed_auditor.Domain.{Run}
use pagespeed_auditor.Tables.{AuditResult, AuditIssue, Tenant}
use pagespeed_auditor.Run.Lifecycle.{is_terminal}

pub record Deleted : Type 0 where
  pub runs_deleted : ℕ
  pub results_deleted : ℕ
  pub blob_keys : List String
  pub db : Tenant

-- `where: { siteId, id: { in: runIds }, status: { in: [...] } }`
abbrev pub is_deletable : (site_id : String) (run_ids : List String) → Run → Bool
is_deletable site_id run_ids r =
    same r.site_id site_id && (includes run_ids r.id && is_terminal r.status)

-- The ids of the runs that may go.
unfoldable pub deletable_ids : (site_id : String) (run_ids : List String) → List Run → List String
deletable_ids site_id run_ids runs =
    map (λ (r : Run). r.id) (keep (is_deletable site_id run_ids) runs)

abbrev key_in : Option String → List String → List String
key_in none keys = keys
key_in (some k) keys = k ∷ keys

unfoldable pub blob_keys_of : List AuditResult → List String
blob_keys_of [] = []
blob_keys_of (r ∷ rows) = key_in r.raw_json_blob_key (blob_keys_of rows)

-- `auditRun.deleteMany({ where: { id: { in: ids } } })`, with what the database removes with a run.
abbrev pub without_runs : List String → Tenant → Tenant
without_runs ids db = record db {
  runs = keep (λ (r : Run). not (includes ids r.id)) db.runs;
  results = keep (λ (r : AuditResult). not (includes ids r.run_id)) db.results;
  issues = keep (λ (i : AuditIssue). not (includes ids i.run_id)) db.issues;
}

abbrev pub nothing_deleted : Tenant → Deleted
nothing_deleted db = record { runs_deleted = 0; results_deleted = 0; blob_keys = []; db = db }

abbrev pub deleted_rows : List String → Tenant → Deleted
deleted_rows ids db = record {
  runs_deleted = length (keep (λ (r : Run). includes ids r.id) db.runs);
  results_deleted = length (keep (λ (r : AuditResult). includes ids r.run_id) db.results);
  blob_keys = blob_keys_of (keep (λ (r : AuditResult). includes ids r.run_id) db.results);
  db = without_runs ids db;
}

-- The early return on nothing to delete.
abbrev pub delete_ids : List String → Tenant → Deleted
delete_ids [] db = nothing_deleted db
delete_ids (id ∷ ids) db = deleted_rows (id ∷ ids) db

unfoldable pub delete_runs : (site_id : String) (run_ids : List String) → Tenant → Deleted
unfolding blob_keys_of
delete_runs site_id [] db = nothing_deleted db
delete_runs site_id (id ∷ run_ids) db = delete_ids (deletable_ids site_id (id ∷ run_ids) db.runs) db
