-- ===== src/Tests.antt =====
-- A small organisation, at which the theorems are tried: one site with two pages, one run in
-- progress and one that was stopped.
mod Sorting
mod Runs
mod Audits
mod Readings
mod People
mod History
use pagespeed_auditor.Prelude.{
  ℕ, String, Bool, true, false, ◌≡◌, refl, Option, none, some, List, [], ◌∷◌,
}
use pagespeed_auditor.Domain.{
  Strategy, mobile, desktop, RunStatus, running, cancelled, full_sweep, schedule, stopped, Run,
  AuditPair,
}
use pagespeed_auditor.Psi.Response.{PsiResponse}
use pagespeed_auditor.Psi.{ExtractedResult}
use pagespeed_auditor.Psi.Client.{PsiFetchResult}
use pagespeed_auditor.Tables.{AuditResult, Page, Group, GroupAlias, Tenant}
use pagespeed_auditor.Audit.{RecordArgs, StoreRawJson, Stored, stored, error_result_for, result_row}
use pagespeed_auditor.Audit.Job.{Job, Services}
use pagespeed_auditor.Run.Expand.{RowOrder}

abbrev pub run_of : String → RunStatus → Option ℕ → (total done : ℕ) → Run
run_of id status finished total done = record {
  id = id;
  site_id = "site";
  type = full_sweep;
  triggered_by = schedule;
  status = status;
  scope_label = some "site:mobile+desktop";
  skip_reason = none;
  started_at = 1000;
  finished_at = finished;
  completed_at = none;
  total_jobs = total;
  completed_jobs = done;
  failed_jobs = 0;
  error = none;
}

abbrev pub open_run : Run
open_run = run_of "r1" running none 2 0

abbrev pub stopped_run : Run
stopped_run = run_of "r2" cancelled (some 2000) 4 1

abbrev pub two_runs : List Run
two_runs = open_run ∷ stopped_run ∷ []

abbrev pub page_of : String → Option String → Page
page_of id group_id = record {
  id = id;
  site_id = "site";
  url = "https://example.com/about";
  path = "/about";
  group_id = group_id;
  lastmod = none;
  sitemap_index = none;
  is_active = true;
  is_manually_grouped = false;
  last_audited_at = none;
  latest_result_mobile_id = none;
  latest_result_desktop_id = none;
}

abbrev pub group_of : String → String → Group
group_of id slug = record {
  id = id;
  site_id = "site";
  slug = slug;
  name = slug;
  is_manual = false;
  priority = none;
}

abbrev pub fresh_db : Tenant
fresh_db = record {
  runs = open_run ∷ [];
  results = [];
  issues = [];
  pages = page_of "p1" (some "g1") ∷ [];
  groups = group_of "g1" "blog" ∷ group_of "g2" "news" ∷ [];
  aliases = [];
}

abbrev pub pair_at : Strategy → AuditPair
pair_at s = record { page_id = "p1"; url = "https://example.com/about"; strategy = s }

abbrev pub job : Job
job = record { run_id = "r1"; page_id = "p1"; url = "https://example.com/about"; strategy = mobile }

abbrev pub keep_all : StoreRawJson
keep_all run_id page_id s raw = stored "key"

-- Every site has a key, and a report is an empty text.
abbrev pub services : Services
services = record {
  store = keep_all;
  site_key = λ id. some "key-of-the-site";
  shared_key = "";
  spell = λ n. "500";
  markdown = λ j r. "";
  markdown_after = λ rs j r. "";
  pruned = λ r. "{}";
  field_json = λ r. none;
  sort = λ cmp xs. xs;
}

abbrev pub failed_args : RecordArgs
failed_args = record {
  run_id = "r1";
  page_id = "p1";
  url = "https://example.com/about";
  strategy = mobile;
  extracted = error_result_for "NO_FCP";
  raw_json = none;
  field_json = none;
  markdown_report = "";
  is_failure = true;
  duration_ms = some 30000;
}

-- The order of insertion.
abbrev pub insertion_order : RowOrder
insertion_order = record { by_priority = λ ps. ps; by_creation = λ rs. rs }
