-- ===== src/Audit/Job.antt =====
-- auditPage of lib/services/audit.service.ts, and auditOnePageStep of lib/workflows/auditRun.ts:
-- one (page, strategy) is measured, with retries, until it has a result. The answer of each call of
-- the API is an argument, and so are the site's key, the report's text, and the stored form of a
-- response; the answer comes with the time that it took. The loop's
-- sleeps stand in a function of their own, since its results do not depend on them; the live log is
-- left out.
use Prim.Native.String
use pagespeed_auditor.Prelude.{
  ℕ, zero, suc, min, max, ◌+◌, ◌-◌, String, Bool, true, ◌&&◌, Option, none, some, List, ◌==◌,
  if◌then◌else◌, same, find, or_else,
}
use pagespeed_auditor.Domain.{Strategy, is_error}
use pagespeed_auditor.Psi.{ExtractedResult}
use pagespeed_auditor.Psi.Response.{PsiResponse}
use pagespeed_auditor.Psi.Issues.{Sort, extract_result}
use pagespeed_auditor.Psi.Client.{
  PsiFetchResult, fetched, retryable, permanent, content, fifteen_minutes, backoff_ms,
}
use pagespeed_auditor.Tables.{AuditResult, Page, Tenant}
use pagespeed_auditor.Audit.{
  RecordOutcome, RecordArgs, StoreRawJson, Recorded, recorded, throws_retryable, throws_missing,
  record_audit_result, error_result_for, has_page_id,
}

pub record Job : Type 0 where
  pub run_id : String
  pub page_id : String
  pub url : String
  pub strategy : Strategy

-- What the step takes from the rest of the program. The report of a measured page compares it with
-- the results before it.
pub record Services : Type 0 where
  pub store : StoreRawJson
  pub site_key : (site_id : String) → Option String
  pub shared_key : String
  pub spell : ℕ → String
  pub markdown : Job → ExtractedResult → String
  pub markdown_after : (results : List AuditResult) → Job → ExtractedResult → String
  pub pruned : PsiResponse → String
  pub field_json : PsiResponse → Option String
  pub sort : Sort

-- How a call of auditPage ends: it returns, or throws a RetryableError with the wait that it asks
-- for, a PermanentError, or anything else. The database is the one that it leaves.
pub data PageOutcome : Type 0 where
  returns : RecordOutcome → Tenant → PageOutcome
  throws_retry : (wait : Option ℕ) → Tenant → PageOutcome
  throws_permanent : (message : String) → Tenant → PageOutcome
  throws_other : Tenant → PageOutcome

abbrev pub of_recorded : Tenant → Recorded → PageOutcome
of_recorded db (recorded out db') = returns out db'
of_recorded db throws_retryable = throws_retry none db
of_recorded db throws_missing = throws_other db

abbrev pub failure_args : Services → Job → (code : String) → (duration_ms : Option ℕ) → RecordArgs
failure_args sv job code duration_ms = record {
  run_id = job.run_id;
  page_id = job.page_id;
  url = job.url;
  strategy = job.strategy;
  extracted = error_result_for code;
  raw_json = none;
  field_json = none;
  markdown_report = sv.markdown job (error_result_for code);
  is_failure = true;
  duration_ms = duration_ms;
}

abbrev pub success_args : Services → Tenant → Job → PsiResponse → (elapsed_ms : ℕ) → RecordArgs
success_args sv db job raw elapsed_ms = record {
  run_id = job.run_id;
  page_id = job.page_id;
  url = job.url;
  strategy = job.strategy;
  extracted = extract_result sv.sort raw;
  raw_json = some (sv.pruned raw);
  field_json = sv.field_json raw;
  markdown_report = sv.markdown_after db.results job (extract_result sv.sort raw);
  is_failure = is_error (extract_result sv.sort raw).status;
  duration_ms = some elapsed_ms;
}

-- A row is written for a bad key or an exhausted quota, and then the step is told.
abbrev pub alarm : (status : ℕ) (message : String) → PageOutcome → PageOutcome
alarm status message (returns out db) =
    if status == 403
    then throws_permanent (String.◌++◌ "PSI rejected the API key or quota: " message) db
    else returns out db
alarm status message o = o

abbrev pub handle_fetch :
    Services
    → (id : String) (now : ℕ) → Job
    → Tenant
    → PsiFetchResult
    → (elapsed_ms : ℕ) → PageOutcome
handle_fetch sv id now job db (retryable status wait message) ms = throws_retry wait db
handle_fetch sv id now job db (permanent status message) ms = alarm status message (
    of_recorded db (
      record_audit_result sv.store id now db
        (failure_args sv job (String.◌++◌ "HTTP_" (sv.spell status)) (some ms))))
handle_fetch sv id now job db (content code message) ms =
    of_recorded db (record_audit_result sv.store id now db (failure_args sv job code (some ms)))
handle_fetch sv id now job db (fetched raw) ms =
    of_recorded db (record_audit_result sv.store id now db (success_args sv db job raw ms))

-- The site's own key, and else the shared one.
abbrev pub key_for : Services → Option Page → String
key_for sv none = sv.shared_key
key_for sv (some p) = or_else (sv.site_key p.site_id) sv.shared_key

unfoldable pub audit_page :
    Services
    → (id : String) (now : ℕ) → Job
    → (fetch : (api_key : String) → PsiFetchResult × ℕ) → Tenant
    → PageOutcome
audit_page sv id now job fetch db =
    let api_key = key_for sv (find (has_page_id job.page_id) db.pages) in
    if same api_key ""
    then throws_permanent
        "No Google API key is configured for this site. An admin can add one under Settings → Site."
        db
    else handle_fetch sv id now job db (fetch api_key).0 (fetch api_key).1

-- `sleepMs` waits so long: never below 0, and at most 15 minutes.
abbrev pub sleep_ms : (ms : ℕ) → ℕ
sleep_ms ms = min (max ms 0) fifteen_minutes

-- The wait that the loop asks for after an attempt that has thrown: what a RetryableError names, and
-- else the backoff of the attempt.
abbrev pub wait_after : PageOutcome → (attempt rand : ℕ) → ℕ
wait_after (throws_retry (some wait) db) attempt rand = wait
wait_after _ attempt rand = backoff_ms attempt rand

-- How long the loop sleeps before the next attempt; `rand` is in thousandths.
unfoldable pub retry_sleep : PageOutcome → (attempt rand : ℕ) → ℕ
retry_sleep o attempt rand = sleep_ms (wait_after o attempt rand)

-- The end of a step: whether it finalizes the run, and how many attempts were made; or an error
-- that the step itself throws.
pub data StepEnd : Type 0 where
  finished : (finalize : Bool) (attempts : ℕ) → Tenant → StepEnd
  crashed : (attempts : ℕ) → Tenant → StepEnd

abbrev pub end_of : (attempts : ℕ) → Tenant → Recorded → StepEnd
end_of attempts db (recorded out db') = finished out.ready_to_finalize attempts db'
end_of attempts db throws_retryable = crashed attempts db
end_of attempts db throws_missing = crashed attempts db

-- An error row, written when a job will not be tried again.
abbrev pub give_up :
    Services → (id : String) (now : ℕ) → Job → (attempts : ℕ) → (code : String) → Tenant → StepEnd
give_up sv id now job attempts code db =
    end_of attempts db (record_audit_result sv.store id now db (failure_args sv job code none))

-- The loop of auditOnePageStep. The attempt is numbered from 1, and `left` more may follow it.
unfoldable pub step_loop :
    Services
    → (id : String) (now : ℕ) → Job
    → (attempt_at : ℕ → Tenant → PageOutcome) → (left attempt : ℕ) → Tenant
    → StepEnd
step_loop sv id now job attempt_at zero attempt db = elim (attempt_at attempt db) [
  | returns out db' ↦ finished (out.written && out.ready_to_finalize) attempt db'
  | throws_permanent message db' ↦ give_up sv id now job attempt message db'
  | throws_retry wait db' ↦ give_up sv id now job attempt "RETRIES_EXHAUSTED" db'
  | throws_other db' ↦ give_up sv id now job attempt "RETRIES_EXHAUSTED" db'
]
step_loop sv id now job attempt_at (suc left) attempt db = elim (attempt_at attempt db) [
  | returns out db' ↦ finished (out.written && out.ready_to_finalize) attempt db'
  | throws_permanent message db' ↦ give_up sv id now job attempt message db'
  | throws_retry wait db' ↦ step_loop sv id now job attempt_at left (attempt + 1) db'
  | throws_other db' ↦ step_loop sv id now job attempt_at left (attempt + 1) db'
]

-- The last attempt is the first one that reaches the maximum.
unfoldable pub audit_one_page_step :
    Services
    → (max_attempts : ℕ) (id : String) (now : ℕ) → Job
    → (fetch : (attempt : ℕ) (api_key : String) → PsiFetchResult × ℕ) → Tenant
    → StepEnd
unfolding step_loop audit_page
audit_one_page_step sv max_attempts id now job fetch db =
    step_loop sv id now job (λ (n : ℕ). audit_page sv id now job (fetch n)) (max_attempts - 1) 1 db
