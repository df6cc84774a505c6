-- ===== src/Audit/Reports.antt =====
-- Every job reports: the retry loop of auditOnePageStep ends with a result in the database.
use Prim.Native.String
use pagespeed_auditor.Prelude.{
  ℕ, String, ◌≡◌, refl, Bool, true, Option, none, some, List, [], ◌∷◌, arith, any, find,
  update_first, Bool-cases, inl, inr, same, is_some, ◌==◌,
}
use pagespeed_auditor.Domain.{Strategy, mobile, desktop, Run}
use pagespeed_auditor.Psi.Client.{PsiFetchResult, fetched, retryable, permanent, content}
use pagespeed_auditor.Tables.{Page, Tenant, find_run, update_run, find-update_run}
use pagespeed_auditor.Audit.{
  RecordArgs, Stored, stored, store_permanent, store_retryable, Recorded, recorded,
  throws_retryable, throws_missing, counted, is_result_of, commit, transaction, upload,
  record_uploaded, record_audit_result, has_page_id, pointed,
}
use pagespeed_auditor.Audit.Accounting.{after}
use pagespeed_auditor.Audit.Replay.{uploaded-Present}
use pagespeed_auditor.Audit.Job.{
  Job, Services, PageOutcome, returns, throws_retry, throws_permanent, throws_other, of_recorded,
  failure_args, success_args, alarm, handle_fetch, audit_page, key_for,
}

-- The job's page and run are in the database.
abbrev pub HasJob : Job → Tenant → Type 0
HasJob job db =
    (is_some (find (has_page_id job.page_id) db.pages) ≡ true)
    × (is_some (find_run job.run_id db.runs) ≡ true)

-- The job has a result.
abbrev pub HasResult : Job → Tenant → Type 0
HasResult job db = any (is_result_of job.run_id job.page_id job.strategy) db.results ≡ true

pointed-id : (id : String) (now : ℕ) (s : Strategy) (p : Page) → (pointed id now s p).id ≡ p.id
pointed-id id now mobile p = refl
pointed-id id now desktop p = refl

page_stays :
    (page_id other id : String) (now : ℕ) (s : Strategy) (pages : List Page)
    → is_some
        (find (has_page_id page_id) (update_first (has_page_id other) (pointed id now s) pages))
      ≡ is_some (find (has_page_id page_id) pages)
page_stays page_id other id now s [] = refl
page_stays page_id other id now s (p ∷ pages) =
    ground (arith, pointed-id id now s p, page_stays page_id other id now s pages)

run_stays :
    (run_id other : String) (is_failure : Bool) (runs : List Run)
    → is_some (find_run run_id (update_run other (counted is_failure) runs))
      ≡ is_some (find_run run_id runs)
run_stays run_id other is_failure runs =
    ground (arith, find-update_run other run_id (counted is_failure) runs (λ q. refl))

module _ (id : String) (now : ℕ) (job : Job) (db : Tenant) (args : RecordArgs) where
  commit-HasJob :
      (key : Option String) (p : Option Page) (r : Option Run)
      → HasJob job db
      → HasJob job (after db (commit id now db args key p r))
  commit-HasJob key none r h = h
  commit-HasJob key (some p) none h = h
  commit-HasJob key (some p) (some r) h = (
    rw (page_stays job.page_id args.page_id id now args.strategy db.pages) h.0,
    rw (run_stays job.run_id args.run_id args.is_failure db.runs) h.1,
  )

  transaction-HasJob :
      (key : Option String) → HasJob job db → HasJob job (after db (transaction id now db args key))
  unfolding transaction
  transaction-HasJob key h =
      elim (Bool-cases (any (is_result_of args.run_id args.page_id args.strategy) db.results)) [
        | inl e ↦ rw (e, after) h
        | inr e ↦ rw (e, after) (commit-HasJob key _ _ h)
      ]

  uploaded-HasJob :
      (s : Option Stored) → HasJob job db → HasJob job (after db (record_uploaded id now db args s))
  uploaded-HasJob none h = transaction-HasJob none h
  uploaded-HasJob (some (stored key)) h = transaction-HasJob (some key) h
  uploaded-HasJob (some store_permanent) h = transaction-HasJob none h
  uploaded-HasJob (some store_retryable) h = h

-- What the loop needs of an attempt: the page and the run are still there, and if it returns, the
-- job has a result.
abbrev pub IsAttempt : Job → PageOutcome → Type 0
IsAttempt job (returns out db) = HasResult job db × HasJob job db
IsAttempt job (throws_retry wait db) = HasJob job db
IsAttempt job (throws_permanent message db) = HasJob job db
IsAttempt job (throws_other db) = HasJob job db

-- What a write of the job's own result gives, if it returns.
abbrev pub IsWrite : Job → Tenant → Recorded → Type 0
IsWrite job db (recorded out db') = HasResult job db' × HasJob job db'
IsWrite job db throws_retryable = HasJob job db
IsWrite job db throws_missing = HasJob job db

module _ (sv : Services) (id : String) (now : ℕ) (job : Job) (db : Tenant)
    (there : HasJob job db) where
  IsWrite-intro :
      (args : RecordArgs) (o : Recorded)
      → args.run_id ≡ job.run_id
      → args.page_id ≡ job.page_id
      → args.strategy ≡ job.strategy
      → record_uploaded id now db args (upload sv.store args) ≡ o
      → IsWrite job db o
  IsWrite-intro args (recorded out db') run page strategy e = (
    rw (← run, ← page, ← strategy) (uploaded-Present id now db args (upload sv.store args) e),
    rw e at (uploaded-HasJob id now job db args (upload sv.store args) there),
  )
  IsWrite-intro args throws_retryable run page strategy e = there
  IsWrite-intro args throws_missing run page strategy e = there

  pub failure-IsWrite :
      (code : String) (ms : Option ℕ)
      → IsWrite job db (record_audit_result sv.store id now db (failure_args sv job code ms))
  unfolding record_audit_result
  failure-IsWrite code ms = IsWrite-intro (failure_args sv job code ms) _ refl refl refl refl

  of_recorded-IsAttempt : (o : Recorded) → IsWrite job db o → IsAttempt job (of_recorded db o)
  of_recorded-IsAttempt (recorded out db') h = h
  of_recorded-IsAttempt throws_retryable h = h
  of_recorded-IsAttempt throws_missing h = h

  alarm-IsAttempt :
      (status : ℕ) (text : String) (o : PageOutcome)
      → IsAttempt job o
      → IsAttempt job (alarm status text o)
  alarm-IsAttempt status text (returns out db') h = elim (Bool-cases (status == 403)) [
    | inl e ↦ rw (e, IsAttempt) h.1
    | inr e ↦ rw (e, IsAttempt) h
  ]
  alarm-IsAttempt status text (throws_retry wait db') h = h
  alarm-IsAttempt status text (throws_permanent message db') h = h
  alarm-IsAttempt status text (throws_other db') h = h

  handle_fetch-IsAttempt :
      (r : PsiFetchResult) (ms : ℕ) → IsAttempt job (handle_fetch sv id now job db r ms)
  unfolding record_audit_result
  handle_fetch-IsAttempt (retryable status wait message) ms = there
  handle_fetch-IsAttempt (permanent status message) ms =
      alarm-IsAttempt status message _ (
        of_recorded-IsAttempt _ (failure-IsWrite (String.◌++◌ "HTTP_" (sv.spell status)) (some ms)))
  handle_fetch-IsAttempt (content code message) ms =
      of_recorded-IsAttempt _ (failure-IsWrite code (some ms))
  handle_fetch-IsAttempt (fetched raw) ms =
      of_recorded-IsAttempt _ (IsWrite-intro (success_args sv db job raw ms) _ refl refl refl refl)

  pub audit_page-IsAttempt :
      (fetch : String → PsiFetchResult × ℕ) → IsAttempt job (audit_page sv id now job fetch db)
  unfolding audit_page
  audit_page-IsAttempt fetch =
      let key = key_for sv (find (has_page_id job.page_id) db.pages) in
      elim (Bool-cases (same key "")) [
        | inl e ↦ rw (e, IsAttempt) there
        | inr e ↦ rw (e, IsAttempt) (handle_fetch-IsAttempt (fetch key).0 (fetch key).1)
      ]
