-- ===== src/Audit.antt =====
-- recordAuditResult and errorResultFor of lib/services/audit.service.ts: one measurement is written
-- in one transaction. The raw response goes to a store outside the database, which is an argument,
-- as are the new row's key and the time.
pub mod Accounting
pub mod Replay
pub mod Job
pub mod Waits
pub mod Reports
pub mod Liveness
pub mod Completion
use mathlib.Core.Option
use pagespeed_auditor.Prelude.{
  ℕ, ◌+◌, String, Bool, true, false, not, ◌&&◌, Option, none, some, List, [], ◌∷◌, ◌++◌, same, find,
  any, update_first, if◌then◌else◌,
}
use pagespeed_auditor.Domain.{Strategy, mobile, desktop, same_strategy, ResultStatus, error, Run}
use pagespeed_auditor.Psi.{
  ExtractedField, ExtractedFieldMetric, ExtractedAudit, ExtractedResult, no_field,
}
use pagespeed_auditor.Tables.{
  AuditResult, AuditIssue, FieldColumns, Page, Tenant, find_run, update_run,
}
use pagespeed_auditor.Run.{should_finalize}

pub record RecordOutcome : Type 0 where
  pub written : Bool
  pub status : ResultStatus
  pub ready_to_finalize : Bool

pub record RecordArgs : Type 0 where
  pub run_id : String
  pub page_id : String
  pub url : String
  pub strategy : Strategy
  pub extracted : ExtractedResult
  pub raw_json : Option String
  pub field_json : Option String
  pub markdown_report : String
  pub is_failure : Bool
  pub duration_ms : Option ℕ

-- What storeRawJson of lib/blob.ts may do: give the key, or throw one of two errors.
pub data Stored : Type 0 where
  stored : String → Stored
  store_permanent : Stored
  store_retryable : Stored

abbrev pub StoreRawJson : Type 0
StoreRawJson = (run_id page_id : String) → Strategy → (raw_json : String) → Stored

-- A call returns with the database after it, or throws with the database as it was: the store's
-- error, or that of a page or run that is not there.
pub data Recorded : Type 0 where
  recorded : RecordOutcome → Tenant → Recorded
  throws_retryable : Recorded
  throws_missing : Recorded

abbrev field_value : Option ExtractedFieldMetric → Option ℕ
field_value m = Option.map (λ (v : ExtractedFieldMetric). v.value) m

abbrev field_columns : ExtractedField → FieldColumns
field_columns f = record {
  source = f.source;
  overall = f.overall;
  lcp = field_value f.metrics.lcp;
  inp = field_value f.metrics.inp;
  cls = field_value f.metrics.cls;
  fcp = field_value f.metrics.fcp;
  ttfb = field_value f.metrics.ttfb;
}

abbrev pub result_row : (id : String) (now : ℕ) → RecordArgs → Option String → AuditResult
result_row id now args raw_json_blob_key = record {
  id = id;
  run_id = args.run_id;
  page_id = args.page_id;
  strategy = args.strategy;
  status = args.extracted.status;
  runtime_error = args.extracted.runtime_error;
  scores = args.extracted.scores;
  lab = args.extracted.lab;
  field = field_columns args.extracted.field;
  field_json = args.field_json;
  final_url = args.extracted.final_url;
  lighthouse_version = args.extracted.lighthouse_version;
  raw_json_blob_key = raw_json_blob_key;
  markdown_report = args.markdown_report;
  duration_ms = args.duration_ms;
  created_at = now;
}

abbrev issue_row : String → RecordArgs → ExtractedAudit → AuditIssue
issue_row id args a = record {
  result_id = id;
  run_id = args.run_id;
  page_id = args.page_id;
  strategy = args.strategy;
  audit_id = a.audit_id;
  category = a.category;
  group = a.kind;
  title = a.title;
  score = a.score;
  display_value = a.display_value;
  savings_ms = a.savings_ms;
  savings_bytes = a.savings_bytes;
  weight = a.weight;
}

-- `createMany` with `skipDuplicates`, under the key (auditResultId, auditId).
pub create_issues : String → RecordArgs → List ExtractedAudit → List AuditIssue → List AuditIssue
create_issues id args [] issues = issues
create_issues id args (a ∷ audits) issues = create_issues id args audits (
    if any (λ (i : AuditIssue). same i.result_id id && same i.audit_id a.audit_id) issues
    then issues
    else issues ++ issue_row id args a ∷ [])

abbrev pub pointed : (id : String) (now : ℕ) → Strategy → Page → Page
pointed id now mobile p = record p { last_audited_at = some now; latest_result_mobile_id = some id }
pointed id now desktop p = record p {
  last_audited_at = some now;
  latest_result_desktop_id = some id;
}

abbrev pub has_page_id : String → Page → Bool
has_page_id id p = same p.id id

abbrev pub counted : (is_failure : Bool) → Run → Run
counted is_failure r = record r {
  completed_jobs = r.completed_jobs + 1;
  failed_jobs = if is_failure then r.failed_jobs + 1 else r.failed_jobs;
}

-- The key of AuditResult: @@unique([auditRunId, pageId, strategy])
abbrev pub is_result_of : (run_id page_id : String) → Strategy → AuditResult → Bool
is_result_of run_id page_id strategy r =
    same r.run_id run_id && same r.page_id page_id && same_strategy r.strategy strategy

-- The transaction's writes.
abbrev pub written_db : (id : String) (now : ℕ) → RecordArgs → Option String → Tenant → Tenant
written_db id now args blob_key db = record db {
  results = db.results ++ result_row id now args blob_key ∷ [];
  issues = create_issues id args args.extracted.audits db.issues;
  pages = update_first (has_page_id args.page_id) (pointed id now args.strategy) db.pages;
  runs = update_run args.run_id (counted args.is_failure) db.runs;
}

abbrev pub written_outcome : RecordArgs → Run → RecordOutcome
written_outcome args run = record {
  written = true;
  status = args.extracted.status;
  ready_to_finalize = should_finalize run.completed_jobs run.total_jobs;
}

abbrev pub replayed : RecordArgs → RecordOutcome
replayed args = record {
  written = false;
  status = args.extracted.status;
  ready_to_finalize = false;
}

abbrev pub commit :
    (id : String) (now : ℕ)
    → Tenant
    → RecordArgs
    → Option String
    → Option Page
    → Option Run
    → Recorded
commit id now db args blob_key none run = throws_missing
commit id now db args blob_key (some p) none = throws_missing
commit id now db args blob_key (some p) (some r) =
    recorded (written_outcome args (counted args.is_failure r)) (written_db id now args blob_key db)

-- `prisma.$transaction`, with its catch of the unique violation.
unfoldable pub transaction :
    (id : String) (now : ℕ) → Tenant → RecordArgs → Option String → Recorded
unfolding create_issues
transaction id now db args blob_key =
    if any (is_result_of args.run_id args.page_id args.strategy) db.results
    then recorded (replayed args) db
    else commit id now db args blob_key (find (has_page_id args.page_id) db.pages)
        (find_run args.run_id db.runs)

abbrev pub upload : StoreRawJson → RecordArgs → Option Stored
upload store args = Option.map (store args.run_id args.page_id args.strategy) args.raw_json

abbrev pub record_uploaded :
    (id : String) (now : ℕ) → Tenant → RecordArgs → Option Stored → Recorded
record_uploaded id now db args none = transaction id now db args none
record_uploaded id now db args (some (stored key)) = transaction id now db args (some key)
record_uploaded id now db args (some store_permanent) = transaction id now db args none
record_uploaded id now db args (some store_retryable) = throws_retryable

unfoldable pub record_audit_result :
    StoreRawJson → (id : String) (now : ℕ) → Tenant → RecordArgs → Recorded
unfolding transaction
record_audit_result store id now db args = record_uploaded id now db args (upload store args)

unfoldable pub error_result_for : String → ExtractedResult
error_result_for code = record {
  status = error;
  runtime_error = some code;
  final_url = none;
  lighthouse_version = none;
  fetch_time = none;
  scores = record { performance = none; accessibility = none; best_practices = none; seo = none };
  lab = record {
    lcp = none;
    cls = none;
    fcp = none;
    ttfb = none;
    inp = none;
    tbt = none;
    speed_index = none;
  };
  field = record {
    source = no_field;
    overall = none;
    metrics = record { lcp = none; inp = none; cls = none; fcp = none; ttfb = none };
  };
  audits = [];
}
