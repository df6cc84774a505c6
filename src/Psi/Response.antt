-- ===== src/Psi/Response.antt =====
-- The parts of a PageSpeed Insights response that lib/psi/extract.ts reads (lib/psi/types.ts). A
-- Lighthouse score between 0 and 1 and a metric are in thousandths; a record by key is the list of
-- its entries, in the order of the response.
use pagespeed_auditor.Prelude.{ℕ, String, Bool, Option, List}

pub record PsiAuditDetails : Type 0 where
  pub type : Option String
  pub overall_savings_ms : Option ℕ
  pub overall_savings_bytes : Option ℕ

pub record PsiAudit : Type 0 where
  pub title : Option String
  pub description : Option String
  pub score : Option ℕ
  pub score_display_mode : Option String
  pub display_value : Option String
  pub numeric_value : Option ℕ
  pub details : Option PsiAuditDetails
  pub savings_lcp : Option ℕ
  pub savings_fcp : Option ℕ
  pub savings_tbt : Option ℕ

pub record PsiAuditRef : Type 0 where
  pub id : String
  pub weight : Option ℕ
  pub group : Option String

pub record PsiCategory : Type 0 where
  pub score : Option ℕ
  pub audit_refs : List PsiAuditRef

pub record PsiCategories : Type 0 where
  pub performance : Option PsiCategory
  pub accessibility : Option PsiCategory
  pub best_practices : Option PsiCategory
  pub seo : Option PsiCategory

pub record PsiLighthouseResult : Type 0 where
  pub requested_url : Option String
  pub final_url : Option String
  pub final_displayed_url : Option String
  pub lighthouse_version : Option String
  pub fetch_time : Option String
  pub runtime_error_code : Option String
  pub audits : Option (List (String × PsiAudit))
  pub categories : Option PsiCategories

-- `percentile` is the hundredfold of a layout shift, and a number of milliseconds otherwise.
pub record PsiCruxMetric : Type 0 where
  pub percentile : Option ℕ
  pub category : Option String
  pub distributions : Option (List (Option ℕ))

pub record PsiLoadingExperience : Type 0 where
  pub overall_category : Option String
  pub metrics : Option (List (String × PsiCruxMetric))
  pub origin_fallback : Option Bool

pub record PsiResponse : Type 0 where
  pub loading_experience : Option PsiLoadingExperience
  pub origin_loading_experience : Option PsiLoadingExperience
  pub lighthouse_result : Option PsiLighthouseResult
