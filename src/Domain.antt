-- ===== src/Domain.antt =====
-- The data that the parts share: lib/services/types.ts, lib/psi/types.ts, and the tables of
-- prisma/tenant/schema.prisma that the audit path reads and writes.
--
-- A key of a table is the text that the database made. A time is a number of milliseconds. A score
-- is a whole number, and a metric is a number of thousandths of its unit, so a layout shift of 0.1
-- is 100 and a paint after 2500 ms is 2500000.
use pagespeed_auditor.Prelude.{ℕ, String, Bool, true, false, Option, List}

-- lib/psi/types.ts: PsiStrategy
pub data Strategy : Type 0 where
  mobile desktop : Strategy

abbrev pub same_strategy : Strategy → Strategy → Bool
same_strategy mobile mobile = true
same_strategy desktop desktop = true
same_strategy _ _ = false

-- lib/services/types.ts: RunStatus
pub data RunStatus : Type 0 where
  queued running paused completed failed cancelled skipped : RunStatus

pub data RunType : Type 0 where
  full_sweep group page : RunType

pub data Trigger : Type 0 where
  schedule manual : Trigger

pub data ScopeKind : Type 0 where
  site group page pages retry : ScopeKind

-- run.service.ts: RunScope
pub record RunScope : Type 0 where
  pub kind : ScopeKind
  pub ref : Option String
  pub strategies : List Strategy

-- run.service.ts: AuditPair
pub record AuditPair : Type 0 where
  pub page_id : String
  pub url : String
  pub strategy : Strategy

-- The texts that the code writes into a run's `error` column, by their reason.
pub data RunError : Type 0 where
  nothing_measured : RunError
  abandoned : (hours : ℕ) → RunError
  scope_grew : (expanded committed : ℕ) → RunError
  stopped : (done total : ℕ) → RunError

-- schema.prisma: AuditRun
pub record Run : Type 0 where
  pub id : String
  pub site_id : String
  pub type : RunType
  pub triggered_by : Trigger
  pub status : RunStatus
  pub scope_label : Option String
  pub skip_reason : Option String
  pub started_at : ℕ
  pub finished_at : Option ℕ
  pub completed_at : Option ℕ
  pub total_jobs : ℕ
  pub completed_jobs : ℕ
  pub failed_jobs : ℕ
  pub error : Option RunError

pub data ResultStatus : Type 0 where
  ok error : ResultStatus

abbrev pub is_ok : ResultStatus → Bool
is_ok ok = true
is_ok error = false

abbrev pub is_error : ResultStatus → Bool
is_error ok = false
is_error error = true
