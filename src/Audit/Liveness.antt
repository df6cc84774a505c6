-- ===== src/Audit/Liveness.antt =====
-- The retry loop of auditOnePageStep (lib/workflows/auditRun.ts) ends, and ends with a result.
use pagespeed_auditor.Prelude.{
  ℕ, zero, suc, ◌+◌, ◌-◌, ◌≤◌, String, ◌≡◌, refl, true, Option, none, some, arith, any, find, max,
  Bool-cases, inl, inr, is_some,
}
use pagespeed_auditor.Domain.{Run}
use pagespeed_auditor.Psi.Client.{PsiFetchResult}
use pagespeed_auditor.Tables.{Page, Tenant, find_run}
use pagespeed_auditor.Audit.{
  RecordArgs, Recorded, recorded, throws_retryable, throws_missing, is_result_of, commit,
  record_audit_result, has_page_id,
}
use pagespeed_auditor.Audit.Job.{
  Job, Services, PageOutcome, returns, throws_retry, throws_permanent, throws_other, failure_args,
  StepEnd, finished, crashed, end_of, give_up, step_loop, audit_page, audit_one_page_step,
}
use pagespeed_auditor.Audit.Reports.{
  HasJob, HasResult, IsAttempt, IsWrite, failure-IsWrite, audit_page-IsAttempt,
}

-- The step ends, after so many attempts at most, with a result of the job in the database.
abbrev pub Finishes : Job → (most : ℕ) → StepEnd → Type 0
Finishes job most (finished finalize attempts db) = HasResult job db × (attempts ≤ most)
Finishes job most (crashed attempts db) = ⊥

Finishes-mono : (job : Job) (n m : ℕ) (e : StepEnd) → n ≤ m → Finishes job n e → Finishes job m e
Finishes-mono job n m (finished f k db) le h = (h.0, omega arith)
Finishes-mono job n m (crashed k db) le h = h

abbrev Returns : Recorded → Type 0
Returns (recorded out db) = Unit {0}
Returns throws_retryable = ⊥
Returns throws_missing = ⊥

commit-Returns :
    (id : String) (now : ℕ) (db : Tenant) (args : RecordArgs) (p : Option Page) (r : Option Run)
    → is_some p ≡ true
    → is_some r ≡ true
    → Returns (commit id now db args none p r)
commit-Returns id now db args none r h k = cc
commit-Returns id now db args (some p) none h k = cc
commit-Returns id now db args (some p) (some r) h k = tt

module _ (sv : Services) (id : String) (now : ℕ) (job : Job) where
  failure-Returns :
      (code : String) (db : Tenant)
      → HasJob job db
      → Returns (record_audit_result sv.store id now db (failure_args sv job code none))
  unfolding record_audit_result
  failure-Returns code db h =
      elim (Bool-cases (any (is_result_of job.run_id job.page_id job.strategy) db.results)) [
        | inl e ↦ rw (e, Returns) tt
        | inr e ↦
            rw (e, Returns)
              (commit-Returns id now db (failure_args sv job code none)
                (find (has_page_id job.page_id) db.pages) (find_run job.run_id db.runs) h.0 h.1)
      ]

  end_of-Finishes :
      (most attempts : ℕ) (db : Tenant) (o : Recorded)
      → attempts ≤ most
      → IsWrite job db o
      → Returns o
      → Finishes job most (end_of attempts db o)
  end_of-Finishes most attempts db (recorded out db') le w r = (w.0, le)
  end_of-Finishes most attempts db throws_retryable le w r = r
  end_of-Finishes most attempts db throws_missing le w r = r

  give_up-Finishes :
      (most attempts : ℕ) (code : String) (db : Tenant)
      → attempts ≤ most
      → HasJob job db
      → Finishes job most (give_up sv id now job attempts code db)
  give_up-Finishes most attempts code db le h =
      end_of-Finishes most attempts db _ le (failure-IsWrite sv id now job db h code none)
        (failure-Returns code db h)

  module _ (attempt_at : ℕ → Tenant → PageOutcome)
      (attempts : (n : ℕ) (db : Tenant) → HasJob job db → IsAttempt job (attempt_at n db)) where
    last-Finishes :
        (attempt : ℕ) (db : Tenant) (o : PageOutcome)
        → attempt_at attempt db ≡ o
        → IsAttempt job o
        → Finishes job (attempt + 0) (step_loop sv id now job attempt_at zero attempt db)
    unfolding step_loop
    last-Finishes attempt db (returns out db') e h = rw (e, Finishes) (h.0, omega arith)
    last-Finishes attempt db (throws_permanent m db') e h =
        rw (e, Finishes) (give_up-Finishes (attempt + 0) attempt m db' (omega arith) h)
    last-Finishes attempt db (throws_retry wait db') e h =
        rw (e, Finishes)
          (give_up-Finishes (attempt + 0) attempt "RETRIES_EXHAUSTED" db' (omega arith) h)
    last-Finishes attempt db (throws_other db') e h =
        rw (e, Finishes)
          (give_up-Finishes (attempt + 0) attempt "RETRIES_EXHAUSTED" db' (omega arith) h)

    -- An attempt that others may follow.
    earlier-Finishes :
        (left attempt : ℕ) (db : Tenant)
        → ((d : Tenant)
            → HasJob job d
            → Finishes job
                (attempt + 1 + left)
                (step_loop sv id now job attempt_at left (attempt + 1) d))
        → (o : PageOutcome) → attempt_at attempt db ≡ o
        → IsAttempt job o
        → Finishes job
            (attempt + suc left)
            (step_loop sv id now job attempt_at (suc left) attempt db)
    unfolding step_loop
    earlier-Finishes left attempt db next (returns out db') e h =
        rw (e, Finishes) (h.0, omega arith)
    earlier-Finishes left attempt db next (throws_permanent m db') e h =
        rw (e, Finishes) (give_up-Finishes (attempt + suc left) attempt m db' (omega arith) h)
    earlier-Finishes left attempt db next (throws_retry wait db') e h =
        rw (e, Finishes)
          (Finishes-mono job (attempt + 1 + left) (attempt + suc left) _ (omega arith) (next db' h))
    earlier-Finishes left attempt db next (throws_other db') e h =
        rw (e, Finishes)
          (Finishes-mono job (attempt + 1 + left) (attempt + suc left) _ (omega arith) (next db' h))

    step_loop-Finishes :
        (left attempt : ℕ) (db : Tenant)
        → HasJob job db
        → Finishes job (attempt + left) (step_loop sv id now job attempt_at left attempt db)
    step_loop-Finishes zero attempt db h =
        last-Finishes attempt db (attempt_at attempt db) refl (attempts attempt db h)
    step_loop-Finishes (suc left) attempt db h =
        earlier-Finishes left attempt db (step_loop-Finishes left (attempt + 1))
          (attempt_at attempt db) refl (attempts attempt db h)

-- Every job reports: if its page and its run are in the database, the step ends by itself, without
-- an error, after as many attempts as are configured at most (one, if none are), and a result for
-- its run, page and strategy is in the database, whatever the API, the store of raw responses and
-- the keys do on each attempt. So no job can leave its run one short of finalizing.
pub audit_one_page_step-Finishes :
    (sv : Services) (max_attempts : ℕ) (id : String) (now : ℕ) (job : Job)
    (fetch : ℕ → String → PsiFetchResult × ℕ) (db : Tenant)
    → HasJob job db
    → Finishes job (max 1 max_attempts) (audit_one_page_step sv max_attempts id now job fetch db)
unfolding audit_one_page_step
audit_one_page_step-Finishes sv max_attempts id now job fetch db h =
    Finishes-mono job (1 + (max_attempts - 1)) (max 1 max_attempts) _ (omega arith) (
      step_loop-Finishes sv id now job (λ (n : ℕ). audit_page sv id now job (fetch n))
        (λ n d k. audit_page-IsAttempt sv id now job d k (fetch n)) (max_attempts - 1) 1 db h)
