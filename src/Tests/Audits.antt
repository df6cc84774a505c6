-- ===== src/Tests/Audits.antt =====
-- The theorems on the jobs of a run at one job, which fails at first.
use pagespeed_auditor.Prelude.{
  ℕ, max, String, ◌≡◌, refl, none, some, List, [], ◌∷◌, arith, All, same, if◌then◌else◌, inl, inr,
  Bool-cases, ◌==◌,
}
use pagespeed_auditor.Domain.{desktop, Run}
use pagespeed_auditor.Psi.Client.{PsiFetchResult, retryable, permanent}
use pagespeed_auditor.Tables.{Tenant, find_run, update_run}
use pagespeed_auditor.Audit.{record_audit_result, error_result_for, written_db}
use pagespeed_auditor.Audit.Accounting.{OncePerPair, IsAccounted}
use pagespeed_auditor.Audit.Replay.{Call, Agrees, record_all, record_all_counts}
use pagespeed_auditor.Audit.Completion.{readies, readies-once}
use pagespeed_auditor.Audit.Job.{audit_one_page_step}
use pagespeed_auditor.Audit.Liveness.{Finishes, audit_one_page_step-Finishes}
use pagespeed_auditor.Tests.{open_run, fresh_db, job, keep_all, services, failed_args}

-- The API is busy on the first attempt and rejects the key on the second.
abbrev answers : (attempt : ℕ) (api_key : String) → PsiFetchResult × ℕ
answers n api_key =
    if n == 1 then (retryable (some 503) none "busy", 900) else (permanent 403 "denied", 900)

audit_one_page_step-Finishes_example :
    Finishes job (max 1 4) (audit_one_page_step services 4 "a1" 2000 job answers fresh_db)
unfolding find_run
audit_one_page_step-Finishes_example =
    audit_one_page_step-Finishes services 4 "a1" 2000 job answers fresh_db (refl, refl)

abbrev calls : List Call
calls =
    record { id = "a1"; now = 2000; args = failed_args }
    ∷ record { id = "a2"; now = 3000; args = failed_args }
    ∷ []

calls-Agree : All Agrees calls
unfolding error_result_for
calls-Agree = (refl, (refl, tt))

fresh_db-IsAccounted : IsAccounted fresh_db
unfolding find_run
fresh_db-IsAccounted id r e = elim (Bool-cases (same "r1" id)) [
  | inl here ↦ let q : open_run ≡ r = ground arith in rw (← q) (refl, refl)
  | inr other ↦ absurd (ground arith)
]

record_all_counts_example :
    OncePerPair (record_all keep_all calls fresh_db).results
    × IsAccounted (record_all keep_all calls fresh_db)
record_all_counts_example =
    record_all_counts keep_all calls fresh_db calls-Agree (tt, fresh_db-IsAccounted)

-- Both jobs of the run report, and one of them is played twice.
abbrev both_calls : List Call
both_calls =
    record { id = "a1"; now = 2000; args = failed_args }
    ∷ record { id = "a2"; now = 3000; args = failed_args }
    ∷ record { id = "a3"; now = 4000; args = record failed_args { strategy = desktop } }
    ∷ []

abbrev reported_run : Run
reported_run = record open_run { completed_jobs = 2; failed_jobs = 2 }

readies-once_example :
    (reported_run.total_jobs ≡ open_run.total_jobs)
    × (readies keep_all "r1" both_calls fresh_db
        ≡ (if reported_run.completed_jobs == open_run.total_jobs then 1 else 0))
unfolding find_run record_all record_audit_result update_run
readies-once_example =
    readies-once keep_all "r1" both_calls fresh_db open_run reported_run refl (omega arith) refl
      (omega arith)

abbrev first_call : Call
first_call = record { id = "a1"; now = 2000; args = failed_args }

abbrev second_call : Call
second_call = record { id = "a2"; now = 3000; args = failed_args }

-- What the first call leaves.
abbrev written : Tenant
written = written_db "a1" 2000 failed_args none fresh_db

-- The organisation without its run.
abbrev idle_db : Tenant
idle_db = record fresh_db { runs = [] }
