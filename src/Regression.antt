-- ===== src/Regression.antt =====
-- lib/services/regression.service.ts: which changes between audits are reported as regressions.
-- Texts for people (labels, and `from` and `to` as text) are left out: a change holds the two
-- scores or the two bands that they spell.
pub mod Noise
use pagespeed_auditor.Prelude.{
  ℕ, ◌+◌, ◌-◌, Bool, true, false, ◌&&◌, Option, none, some, List, [], ◌∷◌, ◌++◌, ltb, leb,
  if◌then◌else◌,
}
use pagespeed_auditor.Prelude.Int.{ℤ, pos, negsuc, sub_ℕ, at_least}
use pagespeed_auditor.Psi.{
  Bucket, good, ni, poor, MetricId, lcp, inp, cls, fcp, ttfb, Category, performance, accessibility,
  best_practices, seo,
}
use pagespeed_auditor.Psi.Buckets.{bucket_of, metric, bucket_rank}

abbrev pub sustained_drop : ℕ
sustained_drop = 10

abbrev pub single_run_drop : ℕ
single_run_drop = 20

pub data Severity : Type 0 where
  warning critical : Severity

-- A regression by its kind: the score or the metric, from what, to what.
pub data Regression : Type 0 where
  sustained : Category → (from to : ℕ) → (delta : ℤ) → Severity → Regression
  single_run : Category → (from to : ℕ) → (delta : ℤ) → Severity → Regression
  cwv_downgrade : MetricId → (from to : Bucket) → Severity → Regression

pub record ScoreSnapshot : Type 0 where
  pub performance : Option ℕ
  pub accessibility : Option ℕ
  pub best_practices : Option ℕ
  pub seo : Option ℕ
  pub lcp : Option ℕ
  pub cls : Option ℕ
  pub fcp : Option ℕ
  pub ttfb : Option ℕ
  pub inp : Option ℕ

abbrev pub score_in : Category → ScoreSnapshot → Option ℕ
score_in performance s = s.performance
score_in accessibility s = s.accessibility
score_in best_practices s = s.best_practices
score_in seo s = s.seo

abbrev pub metric_in : MetricId → ScoreSnapshot → Option ℕ
metric_in lcp s = s.lcp
metric_in inp s = s.inp
metric_in cls s = s.cls
metric_in fcp s = s.fcp
metric_in ttfb s = s.ttfb

-- `a - b >= n`
abbrev pub drops_by : ℕ → (a b : ℕ) → Bool
drops_by n a b = at_least n (sub_ℕ a b)

-- The older score, if there is one.
abbrev pub score_of : Category → Option ScoreSnapshot → Option ℕ
score_of c none = none
score_of c (some s) = score_in c s

abbrev pub check_sustained : Category → (now before : ℕ) → Option ℕ → List Regression
check_sustained c now before none = []
check_sustained c now before (some older) =
    if drops_by sustained_drop older before && drops_by sustained_drop older now
    then sustained c older now (sub_ℕ now older) warning ∷ []
    else []

-- One round of the loop over the scores.
abbrev pub check_score : Category → (current previous older : Option ℕ) → List Regression
check_score c (some now) (some before) older =
    if drops_by single_run_drop before now
    then single_run c before now (sub_ℕ now before) critical ∷ []
    else check_sustained c now before older
check_score c _ _ older = []

abbrev severity_of : Bucket → Severity
severity_of poor = critical
severity_of _ = warning

-- One round of the loop over the metrics: the bands now, before, and earlier.
abbrev pub check_bands : MetricId → (b0 b1 b2 : Option Bucket) → List Regression
check_bands m (some b0) (some b1) (some b2) =
    if ltb (bucket_rank b2) (bucket_rank b1) && leb (bucket_rank b1) (bucket_rank b0)
    then cwv_downgrade m b2 b0 (severity_of b0) ∷ []
    else []
check_bands m _ _ _ = []

abbrev pub check_metric : MetricId → (current previous older : ScoreSnapshot) → List Regression
check_metric m current previous older =
    check_bands m (bucket_of (metric m) (metric_in m current))
      (bucket_of (metric m) (metric_in m previous)) (bucket_of (metric m) (metric_in m older))

abbrev pub check_metrics :
    (current previous : ScoreSnapshot) → Option ScoreSnapshot → List Regression
check_metrics current previous none = []
check_metrics current previous (some older) =
    check_metric lcp current previous older
    ++ check_metric cls current previous older
    ++ check_metric inp current previous older
    ++ check_metric fcp current previous older
    ++ check_metric ttfb current previous older

abbrev pub check_scores :
    (current previous : ScoreSnapshot) → Option ScoreSnapshot → List Regression
check_scores current previous older =
    check_score performance (score_in performance current) (score_in performance previous)
      (score_of performance older)
    ++ check_score accessibility (score_in accessibility current) (score_in accessibility previous)
        (score_of accessibility older)
    ++ check_score best_practices (score_in best_practices current)
        (score_in best_practices previous) (score_of best_practices older)
    ++ check_score seo (score_in seo current) (score_in seo previous) (score_of seo older)

abbrev pub compare_runs :
    (current previous : ScoreSnapshot) → Option ScoreSnapshot → List Regression
compare_runs current previous older =
    check_scores current previous older ++ check_metrics current previous older

-- The history is newest first, and only its first three are read.
unfoldable pub detect_regressions : List ScoreSnapshot → List Regression
detect_regressions [] = []
detect_regressions (current ∷ []) = []
detect_regressions (current ∷ previous ∷ []) = compare_runs current previous none
detect_regressions (current ∷ previous ∷ older ∷ _) = compare_runs current previous (some older)
