-- ===== src/Psi/Issues/Failing.antt =====
-- Which audits of a response the stored result holds: extractAudits of lib/psi/extract.ts.
use pagespeed_auditor.Prelude.{ℕ, ◌<◌, String, ◌≡◌, ◌⊎◌, Option, none, some, List, [], All, or_else}
use pagespeed_auditor.Psi.{ExtractedAudit}
use pagespeed_auditor.Psi.Response.{PsiAudit, PsiLighthouseResult}
use pagespeed_auditor.Psi.Extract.{lookup}
use pagespeed_auditor.Psi.Issues.Ranking.{IsRanked}

-- Which audits judge, and did not pass.
abbrev pub IsJudged : Option String → Type 0
IsJudged mode = (mode ≡ some "binary") ⊎ ((mode ≡ some "numeric") ⊎ (mode ≡ some "metricSavings"))

-- An issue comes from an audit of the response: the one under its id, which judges, whose score is
-- there and below the pass threshold of 0.9, and whose score and mode the issue has.
pub record ComesFrom (audits : List (String × PsiAudit)) (i : ExtractedAudit) : Type 0 where
  pub audit : PsiAudit
  pub found : lookup i.audit_id audits ≡ some audit
  pub judged : IsJudged audit.score_display_mode
  pub points : ℕ
  pub scored : audit.score ≡ some points
  pub failed : points < 900
  pub kept : (i.score ≡ audit.score) × (some i.score_display_mode ≡ audit.score_display_mode)

-- The issues of a response, each from one of its audits, and in the order of the report.
abbrev pub IsReport : Option PsiLighthouseResult → List ExtractedAudit → Type 0
IsReport none issues = issues ≡ []
IsReport (some lr) issues = All (λ i. ComesFrom (or_else lr.audits []) i) issues × IsRanked issues
