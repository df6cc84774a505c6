-- ===== src/Audit/Completion.antt =====
-- Who finalizes a run: the outcomes of all the calls of recordAuditResult, in any order.
use pagespeed_auditor.Prelude.{
  ℕ, ◌+◌, ◌-◌, ◌<◌, ◌≤◌, ◌==◌, max, String, ◌≡◌, refl, ◌&&◌, Option, none, some, List, [], ◌∷◌,
  arith, any, find, Bool-cases, inl, inr, same, same_iff, if◌then◌else◌,
}
use pagespeed_auditor.Domain.{Run}
use pagespeed_auditor.Tables.{Page, Tenant, find_run, find-update_run}
use pagespeed_auditor.Run.{should_finalize}
use pagespeed_auditor.Audit.{
  RecordArgs, Stored, stored, store_permanent, store_retryable, StoreRawJson, Recorded, recorded,
  throws_retryable, throws_missing, counted, is_result_of, commit, transaction, upload,
  record_uploaded, record_audit_result, has_page_id,
}
use pagespeed_auditor.Audit.Accounting.{after}
use pagespeed_auditor.Audit.Replay.{Call, record_all}

count_up :
    (done total : ℕ)
    → 0 < total
    → (if should_finalize (done + 1) total then 1 else 0) + max done (total - 1)
      ≡ max (done + 1) (total - 1)
unfolding should_finalize
count_up done total h = ground arith

one_or_none :
    (told before done total : ℕ)
    → told + max before (total - 1) ≡ max done (total - 1)
    → before < total
    → done ≤ total
    → told ≡ (if done == total then 1 else 0)
one_or_none told before done total e h k = ground arith

-- 1 if the call is of the run and is told that the run is ready.
abbrev pub ready_of : String → RecordArgs → Recorded → ℕ
ready_of id args (recorded out db) = if same args.run_id id && out.ready_to_finalize then 1 else 0
ready_of id args throws_retryable = 0
ready_of id args throws_missing = 0

-- How many of the calls are told that the run is ready to finalize.
unfoldable pub readies : StoreRawJson → String → List Call → Tenant → ℕ
readies store id [] db = 0
readies store id (c ∷ calls) db =
    let o = record_audit_result store c.id c.now db c.args in
    ready_of id c.args o + readies store id calls (after db o)

-- What so many ready calls say of the run's counter: it has passed that many values from its total on.
abbrev pub IsTold : String → Run → ℕ → Tenant → Type 0
IsTold id r told db =
    (r' : Run) × (find_run id db.runs ≡ some r')
    × (r'.total_jobs ≡ r.total_jobs)
    × (told + max r.completed_jobs (r.total_jobs - 1) ≡ max r'.completed_jobs (r.total_jobs - 1))

module _ (run_id : String) (id : String) (now : ℕ) (db : Tenant) (args : RecordArgs) (r : Run)
    (found : find_run run_id db.runs ≡ some r) (work : 0 < r.total_jobs) where
  untold : IsTold run_id r 0 db
  untold = (r, found, refl, omega arith)

  commit-IsTold :
      (key : Option String) (p : Option Page) (o : Option Run)
      → find_run args.run_id db.runs ≡ o
      → let out = commit id now db args key p o in
        IsTold run_id r (ready_of run_id args out) (after db out)
  commit-IsTold key none o e = untold
  commit-IsTold key (some p) none e = untold
  commit-IsTold key (some p) (some q) e =
      let back = find-update_run args.run_id run_id (counted args.is_failure) db.runs (λ x. refl) in
      elim (Bool-cases (same args.run_id run_id)) [
        | inl s ↦
            let own : some q ≡ some r = ground (arith, same_iff args.run_id run_id, e, found) in
            let here : q ≡ r = ground (arith, own) in
            (
              counted args.is_failure r,
              ground (arith, back, found, s),
              refl,
              rw (s, here) (count_up r.completed_jobs r.total_jobs work),
            )
        | inr s ↦ (r, ground (arith, back, found, s), refl, rw s (omega arith))
      ]

  transaction-IsTold :
      (key : Option String)
      → let out = transaction id now db args key in
        IsTold run_id r (ready_of run_id args out) (after db out)
  unfolding transaction
  transaction-IsTold key =
      elim (Bool-cases (any (is_result_of args.run_id args.page_id args.strategy) db.results)) [
        | inl e ↦ rw (e, after) (r, found, refl, ground arith)
        | inr e ↦
            rw (e, after, ready_of)
              (commit-IsTold key (find (has_page_id args.page_id) db.pages)
                (find_run args.run_id db.runs) refl)
      ]

  uploaded-IsTold :
      (s : Option Stored)
      → let out = record_uploaded id now db args s in
        IsTold run_id r (ready_of run_id args out) (after db out)
  uploaded-IsTold none = transaction-IsTold none
  uploaded-IsTold (some (stored key)) = transaction-IsTold (some key)
  uploaded-IsTold (some store_permanent) = transaction-IsTold none
  uploaded-IsTold (some store_retryable) = untold

readies-IsTold :
    (store : StoreRawJson) (id : String) (calls : List Call) (db : Tenant) (r : Run)
    → find_run id db.runs ≡ some r
    → 0 < r.total_jobs
    → IsTold id r (readies store id calls db) (record_all store calls db)
unfolding readies record_all record_audit_result
readies-IsTold store id [] db r found work = (r, found, refl, omega arith)
readies-IsTold store id (c ∷ calls) db r found work =
    let (r1, found1, total1, told1) =
      uploaded-IsTold id c.id c.now db c.args r found work (upload store c.args) in
    let (r2, found2, total2, told2) =
      readies-IsTold store id calls (after db (record_audit_result store c.id c.now db c.args)) r1
        found1 (omega (arith, total1, work)) in
    (r2, found2, omega (arith, total1, total2), omega (arith, total1, total2, told1, told2))

-- Exactly one call finalizes a run: however the calls of all runs interleave, are replayed or
-- throw, if the run's counter was below its total before them and is not above it after them, then
-- one call and only one is told that the run is ready if the total has been reached, and none is
-- otherwise. The total stays as it was.
pub readies-once :
    (store : StoreRawJson) (id : String) (calls : List Call) (db : Tenant) (r r' : Run)
    → find_run id db.runs ≡ some r
    → r.completed_jobs < r.total_jobs
    → find_run id (record_all store calls db).runs ≡ some r'
    → r'.completed_jobs ≤ r.total_jobs
    → (r'.total_jobs ≡ r.total_jobs)
      × (readies store id calls db ≡ (if r'.completed_jobs == r.total_jobs then 1 else 0))
readies-once store id calls db r r' found below found' most =
    let (q, found_q, total, told) =
      readies-IsTold store id calls db r found (omega (arith, below)) in
    let last : q ≡ r' = ground (arith, found_q, found') in
    rw (← last) (
      total,
      one_or_none (readies store id calls db) r.completed_jobs q.completed_jobs r.total_jobs told
          below (rw last most),
    )
