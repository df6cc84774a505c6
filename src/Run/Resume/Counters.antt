-- ===== src/Run/Resume/Counters.antt =====
-- What a resume does to a run's committed work and its counters.
use pagespeed_auditor.Prelude.{
  ℕ, ◌⊎◌, ◌+◌, ◌≤◌, String, ◌≡◌, refl, min, max, true, false, none, some, List, [], ◌∷◌, map, arith,
  ltb, length, length-keep, count_by, count_by-le, not, includes,
}
use pagespeed_auditor.Domain.{Strategy, running, Run, AuditPair, is_error}
use pagespeed_auditor.Tables.{AuditResult, find_run, find-update_self}
use pagespeed_auditor.Run.{should_finalize, diff_missing_pairs}
use pagespeed_auditor.Run.Labels.{pair_key}
use pagespeed_auditor.Run.Owed.{Distinct, length-diff_missing_pairs, length-map}
use pagespeed_auditor.Run.Resume.{pair_of, reopened, resume_with}

length-diff_missing_pairs-le :
    (expected : List AuditPair) (existing : List (String × Strategy))
    → length (diff_missing_pairs expected existing) ≤ length expected
unfolding diff_missing_pairs
length-diff_missing_pairs-le expected existing =
    let done = map (λ (e : String × Strategy). pair_key e.0 e.1) existing in
    let wanted = λ (p : AuditPair). not (includes done (pair_key p.page_id p.strategy)) in
    omega (arith, length-keep wanted expected, count_by-le wanted expected)

due : (total done : ℕ) → total ≤ done → (total ≡ 0) ⊎ (should_finalize done total ≡ true)
unfolding should_finalize
due total done h = ground arith

module _ (now : ℕ) (r : Run) (expected : List AuditPair) (existing : List AuditResult)
    (runs : List Run) (found : find_run r.id runs ≡ some r) where
  abbrev missing : List AuditPair
  missing = diff_missing_pairs expected (map pair_of existing)

  -- An accepted resume dispatches one workflow with exactly the pairs that have no result, never
  -- more of them than the run committed to. The run is running again, open and without an error. Its
  -- completed jobs are the number of its results, its failed jobs that of its error results, and its
  -- total is the committed one, or less where fewer pairs are expected and fewer have results. Once
  -- every dispatched pair has reported, the total is reached and the run is due to finalize, if it
  -- has any work at all. The expected pairs must be distinct.
  pub resume_accepted :
      length expected ≤ r.total_jobs
      → Distinct expected
      → (after : Run) × (find_run r.id (resume_with now r expected existing runs).runs ≡ some after)
        × ((resume_with now r expected existing runs).dispatched ≡ (r.id, missing) ∷ [])
        × (length missing ≤ r.total_jobs)
        × ((after.status ≡ running) × (after.finished_at ≡ none) × (after.error ≡ none))
        × (after.total_jobs ≡ min r.total_jobs (max (length expected) (length existing)))
        × (after.completed_jobs ≡ length existing)
        × (after.failed_jobs ≡ count_by (λ (e : AuditResult). is_error e.status) existing)
        × (after.total_jobs ≤ after.completed_jobs + length missing)
        × ((after.total_jobs ≡ 0)
            ⊎ (should_finalize (after.completed_jobs + length missing) after.total_jobs ≡ true))
  unfolding resume_with should_finalize
  resume_accepted h distinct =
      let errors = λ (e : AuditResult). is_error e.status in
      let change = reopened (length expected) (length existing) (count_by errors existing) in
      let kept : ltb r.total_jobs (length expected) ≡ false = ground arith in
      let enough = length-diff_missing_pairs expected (map pair_of existing) distinct in
      let same_length = length-map pair_of existing in
      let all = length existing + length (diff_missing_pairs expected (map pair_of existing)) in
      let reached : (change r).total_jobs ≤ all = omega (arith, enough, same_length) in
      (
        change r,
        rw kept (find-update_self r.id change runs (λ q. refl) found),
        rw kept,
        omega (arith, length-diff_missing_pairs-le expected (map pair_of existing)),
        (refl, refl, refl),
        refl,
        refl,
        refl,
        reached,
        due (change r).total_jobs all reached,
      )
