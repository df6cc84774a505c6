-- ===== src/Audit/Replay.antt =====
-- recordAuditResult called any number of times, in any order: lib/services/audit.service.ts.
use pagespeed_auditor.Prelude.{
  ℕ, String, ◌≡◌, refl, true, Option, none, some, List, [], ◌∷◌, arith, All, any, Bool-cases, inl,
  inr, same_refl,
}
use pagespeed_auditor.Domain.{Strategy, mobile, desktop, same_strategy, Run, is_error}
use pagespeed_auditor.Tables.{Page, Tenant}
use pagespeed_auditor.Audit.{
  RecordOutcome, RecordArgs, Stored, stored, store_permanent, store_retryable, StoreRawJson,
  recorded, result_row, is_result_of, written_db, commit, transaction, upload, record_uploaded,
  record_audit_result,
}
use pagespeed_auditor.Audit.Accounting.{
  IsAccounted, OncePerPair, after, transaction-OncePerPair, transaction-IsAccounted,
  any-append_last,
}

module _ (id : String) (now : ℕ) (db : Tenant) (args : RecordArgs) where
  uploaded-OncePerPair :
      (s : Option Stored)
      → OncePerPair db.results
      → OncePerPair (after db (record_uploaded id now db args s)).results
  uploaded-OncePerPair none h = transaction-OncePerPair id now db args none h
  uploaded-OncePerPair (some (stored key)) h = transaction-OncePerPair id now db args (some key) h
  uploaded-OncePerPair (some store_permanent) h = transaction-OncePerPair id now db args none h
  uploaded-OncePerPair (some store_retryable) h = h

  uploaded-IsAccounted :
      (s : Option Stored)
      → args.is_failure ≡ is_error args.extracted.status
      → IsAccounted db
      → IsAccounted (after db (record_uploaded id now db args s))
  uploaded-IsAccounted none a h = transaction-IsAccounted id now db args none a h
  uploaded-IsAccounted (some (stored key)) a h =
      transaction-IsAccounted id now db args (some key) a h
  uploaded-IsAccounted (some store_permanent) a h = transaction-IsAccounted id now db args none a h
  uploaded-IsAccounted (some store_retryable) a h = h

-- A call of recordAuditResult, with the new row's key and the time.
pub record Call : Type 0 where
  pub id : String
  pub now : ℕ
  pub args : RecordArgs

abbrev pub Agrees : Call → Type 0
Agrees c = c.args.is_failure ≡ is_error c.args.extracted.status

-- Calls of any number of jobs, in the order in which their transactions commit.
unfoldable pub record_all : StoreRawJson → List Call → Tenant → Tenant
record_all store [] db = db
record_all store (c ∷ calls) db =
    record_all store calls (after db (record_audit_result store c.id c.now db c.args))

-- However the jobs of any runs interleave, and however often they are replayed or throw: there is
-- one result at most for each run, page and strategy, and every run's counters are the numbers of
-- its results and of its error results. A call counts a failure if and only if its result is an
-- error.
pub record_all_counts :
    (store : StoreRawJson) (calls : List Call) (db : Tenant)
    → All Agrees calls
    → OncePerPair db.results × IsAccounted db
    → OncePerPair (record_all store calls db).results × IsAccounted (record_all store calls db)
unfolding record_all record_audit_result
record_all_counts store [] db a h = h
record_all_counts store (c ∷ calls) db a h =
    record_all_counts store calls (after db (record_audit_result store c.id c.now db c.args)) a.1 (
      uploaded-OncePerPair c.id c.now db c.args (upload store c.args) h.0,
      uploaded-IsAccounted c.id c.now db c.args (upload store c.args) a.0 h.1,
    )

same_strategy_refl : (s : Strategy) → same_strategy s s ≡ true
same_strategy_refl mobile = refl
same_strategy_refl desktop = refl

module _ (id : String) (now : ℕ) (db : Tenant) (args : RecordArgs) where
  abbrev pub Present : Tenant → Type 0
  Present d = any (is_result_of args.run_id args.page_id args.strategy) d.results ≡ true

  commit-Present :
      (key : Option String) (p : Option Page) (r : Option Run) {out : RecordOutcome} {db' : Tenant}
      → commit id now db args key p r ≡ recorded out db'
      → Present db'
  commit-Present key none r e = cc
  commit-Present key (some p) none e = cc
  commit-Present key (some p) (some r) {db'} e =
      let made : written_db id now args key db ≡ db' = ground arith in
      let pair = is_result_of args.run_id args.page_id args.strategy in
      rw (← made) (
        ground (
          arith,
          any-append_last pair db.results (result_row id now args key),
          same_refl args.run_id,
          same_refl args.page_id,
          same_strategy_refl args.strategy,
        ))

  transaction-Present :
      (key : Option String) {out : RecordOutcome} {db' : Tenant}
      → transaction id now db args key ≡ recorded out db'
      → Present db'
  unfolding transaction
  transaction-Present key {db'} e =
      elim (Bool-cases (any (is_result_of args.run_id args.page_id args.strategy) db.results)) [
        | inl old ↦ let kept : db ≡ db' = ground arith in rw (← kept) old
        | inr new ↦ commit-Present key _ _ (rw new at e)
      ]

  pub uploaded-Present :
      (s : Option Stored) {out : RecordOutcome} {db' : Tenant}
      → record_uploaded id now db args s ≡ recorded out db'
      → Present db'
  uploaded-Present none e = transaction-Present none e
  uploaded-Present (some (stored key)) e = transaction-Present (some key) e
  uploaded-Present (some store_permanent) e = transaction-Present none e
  uploaded-Present (some store_retryable) e = cc
