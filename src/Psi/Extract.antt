-- ===== src/Psi/Extract.antt =====
-- lib/psi/extract.ts: a response turned into the flat result that is stored.
use mathlib.Core.Option
use pagespeed_auditor.Prelude.{
  ℕ, ◌+◌, ◌*◌, ◌/◌, String, Bool, true, Option, none, some, List, [], ◌∷◌, if◌then◌else◌, same,
  or_else,
}
use pagespeed_auditor.Psi.{
  MetricId, lcp, inp, cls, fcp, ttfb, FieldSource, page, origin_fallback, no_field, ExtractedScores,
  ExtractedLab, ExtractedFieldMetric, FieldMetrics, ExtractedField,
}
use pagespeed_auditor.Psi.Buckets.{bucket_from_crux_category}
use pagespeed_auditor.Psi.Response.{
  PsiAudit, PsiCategory, PsiCategories, PsiCruxMetric, PsiLoadingExperience, PsiResponse,
}

-- 0..1 in thousandths to 0..100, rounded half up.
unfoldable pub pct : Option ℕ → Option ℕ
pct s = Option.map (λ (v : ℕ). (v + 5) / 10) s

abbrev category_score : Option PsiCategory → Option ℕ
category_score none = none
category_score (some c) = c.score

abbrev pub scores_of : Option PsiCategories → ExtractedScores
scores_of none = record {
  performance = none;
  accessibility = none;
  best_practices = none;
  seo = none;
}
scores_of (some c) = record {
  performance = pct (category_score c.performance);
  accessibility = pct (category_score c.accessibility);
  best_practices = pct (category_score c.best_practices);
  seo = pct (category_score c.seo);
}

abbrev pub lookup : {V : Type 0} → String → List (String × V) → Option V
lookup key [] = none
lookup key ((k, v) ∷ entries) = if same k key then some v else lookup key entries

abbrev numeric_of : Option PsiAudit → Option ℕ
numeric_of none = none
numeric_of (some a) = a.numeric_value

unfoldable pub numeric : Option (List (String × PsiAudit)) → String → Option ℕ
numeric none id = none
numeric (some audits) id = numeric_of (lookup id audits)

unfoldable pub lab_of : Option (List (String × PsiAudit)) → ExtractedLab
lab_of a = record {
  lcp = numeric a "largest-contentful-paint";
  cls = numeric a "cumulative-layout-shift";
  fcp = numeric a "first-contentful-paint";
  ttfb = numeric a "server-response-time";
  inp = numeric a "interaction-to-next-paint";
  tbt = numeric a "total-blocking-time";
  speed_index = numeric a "speed-index";
}

unfoldable pub crux_key : String → Option MetricId
crux_key k =
    if same k "LARGEST_CONTENTFUL_PAINT_MS"
    then some lcp
    else if same k "INTERACTION_TO_NEXT_PAINT"
    then some inp
    else if same k "CUMULATIVE_LAYOUT_SHIFT_SCORE"
    then some cls
    else if same k "FIRST_CONTENTFUL_PAINT_MS"
    then some fcp
    else if same k "EXPERIMENTAL_TIME_TO_FIRST_BYTE"
    then some ttfb
    else none

abbrev source_of : Option (List (String × PsiCruxMetric)) → Option Bool → FieldSource
source_of none fallback = no_field
source_of (some []) fallback = no_field
source_of (some (m ∷ ms)) (some true) = origin_fallback
source_of (some (m ∷ ms)) _ = page

unfoldable pub field_source_of : Option PsiLoadingExperience → FieldSource
field_source_of none = no_field
field_source_of (some le) = source_of le.metrics le.origin_fallback

unfoldable pub distribution_of : Option (List (Option ℕ)) → Option (ℕ × ℕ × ℕ)
distribution_of (some (a ∷ b ∷ c ∷ _)) = some (or_else a 0, or_else b 0, or_else c 0)
distribution_of _ = none

-- A percentile in the unit of the stored value, in thousandths: CLS is reported a hundredfold.
unfoldable pub metric_value : MetricId → ℕ → ℕ
metric_value cls p = p * 10
metric_value _ p = p * 1000

abbrev put_metric : MetricId → ExtractedFieldMetric → FieldMetrics → FieldMetrics
put_metric lcp m ms = record ms { lcp = some m }
put_metric inp m ms = record ms { inp = some m }
put_metric cls m ms = record ms { cls = some m }
put_metric fcp m ms = record ms { fcp = some m }
put_metric ttfb m ms = record ms { ttfb = some m }

-- One round of the loop over `Object.entries(le.metrics)`.
add_metric : String → PsiCruxMetric → FieldMetrics → FieldMetrics
add_metric key m ms = elim (crux_key key) [
  | none ↦ ms
  | some id ↦ elim m.percentile [
    | none ↦ ms
    | some p ↦ elim (bucket_from_crux_category m.category) [
      | none ↦ ms
      | some bucket ↦
          put_metric id
            (record {
              value = metric_value id p;
              bucket = bucket;
              distribution = distribution_of m.distributions;
            })
            ms
    ]
  ]
]

field_metrics : List (String × PsiCruxMetric) → FieldMetrics → FieldMetrics
field_metrics [] ms = ms
field_metrics ((k, m) ∷ entries) ms = field_metrics entries (add_metric k m ms)

abbrev pub no_metrics : FieldMetrics
no_metrics = record { lcp = none; inp = none; cls = none; fcp = none; ttfb = none }

abbrev pub no_field_data : ExtractedField
no_field_data = record { source = no_field; overall = none; metrics = no_metrics }

unfoldable pub field_from : FieldSource → Option PsiLoadingExperience → ExtractedField
unfolding add_metric field_metrics
field_from source none = no_field_data
field_from source (some le) = record {
  source = source;
  overall = bucket_from_crux_category le.overall_category;
  metrics = field_metrics (or_else le.metrics []) no_metrics;
}

abbrev from_origin : FieldSource → PsiResponse → ExtractedField
from_origin no_field res = no_field_data
from_origin _ res = field_from origin_fallback res.origin_loading_experience

abbrev from_page : FieldSource → PsiResponse → ExtractedField
from_page no_field res = from_origin (field_source_of res.origin_loading_experience) res
from_page source res = field_from source res.loading_experience

unfoldable pub extract_field : PsiResponse → ExtractedField
extract_field res = from_page (field_source_of res.loading_experience) res
