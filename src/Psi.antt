-- ===== src/Psi.antt =====
-- lib/psi/types.ts: what the rest of the program reads of a PageSpeed Insights response.
pub mod Buckets
pub mod Response
pub mod Client
pub mod Backoff
pub mod Extract
pub mod Issues
use pagespeed_auditor.Prelude.{ℕ, String, Option, List}
use pagespeed_auditor.Domain.{ResultStatus}

pub data Bucket : Type 0 where
  good ni poor : Bucket

pub data MetricId : Type 0 where
  lcp inp cls fcp ttfb : MetricId

pub data FieldSource : Type 0 where
  page origin_fallback no_field : FieldSource

pub data IssueKind : Type 0 where
  opportunity diagnostic other : IssueKind

pub data Category : Type 0 where
  performance accessibility best_practices seo : Category

pub record ExtractedScores : Type 0 where
  pub performance : Option ℕ
  pub accessibility : Option ℕ
  pub best_practices : Option ℕ
  pub seo : Option ℕ

pub record ExtractedLab : Type 0 where
  pub lcp : Option ℕ
  pub cls : Option ℕ
  pub fcp : Option ℕ
  pub ttfb : Option ℕ
  pub inp : Option ℕ
  pub tbt : Option ℕ
  pub speed_index : Option ℕ

pub record ExtractedFieldMetric : Type 0 where
  pub value : ℕ
  pub bucket : Bucket
  pub distribution : Option (ℕ × ℕ × ℕ)

-- `metrics` is the partial record of the source, a field for each metric.
pub record FieldMetrics : Type 0 where
  pub lcp : Option ExtractedFieldMetric
  pub inp : Option ExtractedFieldMetric
  pub cls : Option ExtractedFieldMetric
  pub fcp : Option ExtractedFieldMetric
  pub ttfb : Option ExtractedFieldMetric

pub record ExtractedField : Type 0 where
  pub source : FieldSource
  pub overall : Option Bucket
  pub metrics : FieldMetrics

pub record ExtractedAudit : Type 0 where
  pub audit_id : String
  pub title : String
  pub description : String
  pub category : Category
  pub kind : IssueKind
  pub score : Option ℕ
  pub score_display_mode : String
  pub display_value : Option String
  pub savings_ms : Option ℕ
  pub savings_bytes : Option ℕ
  pub weight : ℕ

pub record ExtractedResult : Type 0 where
  pub status : ResultStatus
  pub runtime_error : Option String
  pub final_url : Option String
  pub lighthouse_version : Option String
  pub fetch_time : Option String
  pub scores : ExtractedScores
  pub lab : ExtractedLab
  pub field : ExtractedField
  pub audits : List ExtractedAudit
