-- ===== src/Audit/Accounting.antt =====
-- The two invariants that lib/services/audit.service.ts keeps under concurrent and replayed jobs.
use pagespeed_auditor.Prelude.{
  ℕ, ◌+◌, String, ◌≡◌, refl, Bool, false, ◌&&◌, ◌||◌, Option, none, some, List, [], ◌∷◌, ◌++◌,
  arith, any, find, count_by, count_by-append, Bool-cases, inl, inr, same, same_iff, if◌then◌else◌,
}
use pagespeed_auditor.Domain.{Strategy, mobile, desktop, same_strategy, Run, is_error}
use pagespeed_auditor.Tables.{AuditResult, Page, Tenant, find_run, find-update_run}
use pagespeed_auditor.Audit.{
  RecordArgs, Recorded, recorded, throws_retryable, throws_missing, counted, result_row,
  is_result_of, commit, transaction, has_page_id,
}

abbrev pub of_run : String → AuditResult → Bool
of_run id r = same r.run_id id

abbrev pub error_of_run : String → AuditResult → Bool
error_of_run id r = same r.run_id id && is_error r.status

-- Every run's counters are the numbers of its results and of its error results.
abbrev pub IsAccounted : Tenant → Type 0
IsAccounted db =
    (id : String) (r : Run)
    → find_run id db.runs ≡ some r
    → (r.completed_jobs ≡ count_by (of_run id) db.results)
      × (r.failed_jobs ≡ count_by (error_of_run id) db.results)

-- No two results are of one run, page and strategy.
abbrev pub OncePerPair : List AuditResult → Type 0
OncePerPair [] = Unit
OncePerPair (r ∷ rows) =
    (any (is_result_of r.run_id r.page_id r.strategy) rows ≡ false) × OncePerPair rows

-- The database after a call; a throw rolls everything back.
abbrev pub after : Tenant → Recorded → Tenant
after db (recorded outcome db') = db'
after db throws_retryable = db
after db throws_missing = db

same_strategy_comm : (s t : Strategy) → same_strategy s t ≡ same_strategy t s
same_strategy_comm mobile mobile = refl
same_strategy_comm mobile desktop = refl
same_strategy_comm desktop mobile = refl
same_strategy_comm desktop desktop = refl

is_result_of_comm :
    (q r : AuditResult)
    → is_result_of q.run_id q.page_id q.strategy r ≡ is_result_of r.run_id r.page_id r.strategy q
is_result_of_comm q r = ground (
  arith,
  same_iff q.run_id r.run_id,
  same_iff r.run_id q.run_id,
  same_iff q.page_id r.page_id,
  same_iff r.page_id q.page_id,
  same_strategy_comm q.strategy r.strategy,
)

pub any-append_last :
    (p : AuditResult → Bool) (rows : List AuditResult) (r : AuditResult)
    → any p (rows ++ r ∷ []) ≡ (any p rows || p r)
any-append_last p [] r = ground arith
any-append_last p (q ∷ rows) r = ground (arith, any-append_last p rows r)

OncePerPair-append_last :
    (rows : List AuditResult) (r : AuditResult)
    → any (is_result_of r.run_id r.page_id r.strategy) rows ≡ false
    → OncePerPair rows
    → OncePerPair (rows ++ r ∷ [])
OncePerPair-append_last [] r e h = (refl, tt)
OncePerPair-append_last (q ∷ rows) r e h = (
  ground (
    arith,
    any-append_last (is_result_of q.run_id q.page_id q.strategy) rows r,
    is_result_of_comm q r,
  ),
  OncePerPair-append_last rows r (ground arith) h.1,
)

module _ (id : String) (now : ℕ) (db : Tenant) (args : RecordArgs) where
  commit-OncePerPair :
      (blob_key : Option String) (p : Option Page) (r : Option Run)
      → any (is_result_of args.run_id args.page_id args.strategy) db.results ≡ false
      → OncePerPair db.results
      → OncePerPair (after db (commit id now db args blob_key p r)).results
  commit-OncePerPair blob_key none r e h = h
  commit-OncePerPair blob_key (some p) none e h = h
  commit-OncePerPair blob_key (some p) (some r) e h =
      OncePerPair-append_last db.results (result_row id now args blob_key) e h

  pub transaction-OncePerPair :
      (blob_key : Option String)
      → OncePerPair db.results
      → OncePerPair (after db (transaction id now db args blob_key)).results
  unfolding transaction
  transaction-OncePerPair blob_key h =
      elim (Bool-cases (any (is_result_of args.run_id args.page_id args.strategy) db.results)) [
        | inl e ↦ rw (e, after) h
        | inr e ↦
            rw (e, after)
              (commit-OncePerPair blob_key (find (has_page_id args.page_id) db.pages)
                (find_run args.run_id db.runs) e h)
      ]

  row_counts :
      (other : String) (blob_key : Option String)
      → args.is_failure ≡ is_error args.extracted.status
      → let row = result_row id now args blob_key in
        (count_by (of_run other) (db.results ++ row ∷ [])
          ≡ count_by (of_run other) db.results + (if same args.run_id other then 1 else 0))
        × (count_by (error_of_run other) (db.results ++ row ∷ [])
            ≡ count_by (error_of_run other) db.results
              + (if same args.run_id other && args.is_failure then 1 else 0))
  row_counts other blob_key agree =
      let row = result_row id now args blob_key in
      (
        ground (arith, count_by-append (of_run other) db.results (row ∷ [])),
        ground (arith, agree, count_by-append (error_of_run other) db.results (row ∷ [])),
      )

  -- The new row counts for its own run, and for no other.
  commit-IsAccounted :
      (blob_key : Option String) (p : Option Page) (o : Option Run)
      → args.is_failure ≡ is_error args.extracted.status
      → find_run args.run_id db.runs ≡ o
      → IsAccounted db
      → IsAccounted (after db (commit id now db args blob_key p o))
  commit-IsAccounted blob_key none o agree e h = h
  commit-IsAccounted blob_key (some p) none agree e h = h
  commit-IsAccounted blob_key (some p) (some run) agree e h = λ other r found.
      let back = find-update_run args.run_id other (counted args.is_failure) db.runs (λ q. refl) in
      let rows = row_counts other blob_key agree in
      elim (Bool-cases (same args.run_id other)) [
        | inl s ↦
            let own : find_run other db.runs ≡ some run =
              rw (← (same_iff args.run_id other).0 s) e in
            let new : counted args.is_failure run ≡ r = ground (arith, back, own, found) in
            rw (← new) (ground (arith, rows.0, rows.1, h other run own))
        | inr s ↦
            let old : find_run other db.runs ≡ some r = ground (arith, back, found) in
            ground (arith, rows.0, rows.1, h other r old)
      ]

  pub transaction-IsAccounted :
      (blob_key : Option String)
      → args.is_failure ≡ is_error args.extracted.status
      → IsAccounted db
      → IsAccounted (after db (transaction id now db args blob_key))
  unfolding transaction
  transaction-IsAccounted blob_key agree h =
      elim (Bool-cases (any (is_result_of args.run_id args.page_id args.strategy) db.results)) [
        | inl e ↦ rw (e, after) h
        | inr e ↦
            rw (e, after)
              (commit-IsAccounted blob_key (find (has_page_id args.page_id) db.pages)
                (find_run args.run_id db.runs) agree refl h)
      ]
