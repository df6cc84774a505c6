-- ===== src/Psi/Issues.antt =====
-- extractAudits and extractResult of lib/psi/extract.ts: the failing audits of a response, and the
-- whole flat result.
pub mod Ranking
pub mod Failing
use Prim.Native.String
use mathlib.Core.Option
use pagespeed_auditor.Prelude.{
  ℕ, zero, max, String, Bool, true, false, not, ◌&&◌, ◌||◌, Option, none, some, List, [], ◌∷◌, ◌++◌,
  ltb, leb, ◌==◌, if◌then◌else◌, same, or_else, is_none, includes,
}
use pagespeed_auditor.Prelude.Int.{ℤ, pos, negsuc, sub_ℕ}
use pagespeed_auditor.Domain.{ResultStatus, ok, error}
use pagespeed_auditor.Psi.{
  IssueKind, opportunity, diagnostic, other, Category, performance, accessibility, best_practices,
  seo, ExtractedAudit, ExtractedResult, no_field,
}
use pagespeed_auditor.Psi.Response.{
  PsiAuditDetails, PsiAudit, PsiAuditRef, PsiCategory, PsiCategories, PsiLighthouseResult,
  PsiResponse,
}
use pagespeed_auditor.Psi.Extract.{scores_of, lookup, lab_of, extract_field, no_field_data}

abbrev detail_type : Option PsiAuditDetails → String
detail_type none = ""
detail_type (some d) = or_else d.type ""

unfoldable pub perf_kind : Option String → Option PsiAuditDetails → Option IssueKind
perf_kind none details = none
perf_kind (some group) details =
    if same group "insights"
    then some opportunity
    else if same group "diagnostics"
    then some diagnostic
    else if same group "metrics"
    then none
    else if same group "hidden"
    then (if same (detail_type details) "table" || same (detail_type details) "opportunity"
        then some diagnostic
        else none)
    else none

abbrev pub scored_modes : List String
scored_modes = "binary" ∷ "numeric" ∷ "metricSavings" ∷ []

-- Lighthouse's pass threshold of 0.9.
abbrev pub pass_threshold : ℕ
pass_threshold = 900

-- The larger of the savings, of those that are above 0.
abbrev best_of : Option ℕ → Option ℕ → Option ℕ
best_of best none = best
best_of none (some v) = if ltb 0 v then some v else none
best_of (some b) (some v) = some (max b v)

abbrev savings_in : Option PsiAuditDetails → Option ℕ
savings_in none = none
savings_in (some d) = d.overall_savings_ms

abbrev bytes_in : Option PsiAuditDetails → Option ℕ
bytes_in none = none
bytes_in (some d) = d.overall_savings_bytes

unfoldable pub savings_ms_of : PsiAudit → Option ℕ
savings_ms_of a =
    best_of (best_of (best_of (best_of none a.savings_lcp) a.savings_fcp) a.savings_tbt)
      (savings_in a.details)

abbrev pub kind_of : Category → PsiAuditRef → PsiAudit → Option IssueKind
kind_of performance ref a = perf_kind ref.group a.details
kind_of _ ref a = some other

-- Whether the audit is one that failed: a judgement, with a score below the threshold.
abbrev pub below_threshold : Option ℕ → Bool
below_threshold none = false
below_threshold (some s) = ltb s pass_threshold

abbrev pub is_failing : PsiAudit → Bool
is_failing a = includes scored_modes (or_else a.score_display_mode "") && below_threshold a.score

abbrev pub issue_of : Category → PsiAuditRef → PsiAudit → IssueKind → ExtractedAudit
issue_of category ref a kind = record {
  audit_id = ref.id;
  title = or_else a.title ref.id;
  description = or_else a.description "";
  category = category;
  kind = kind;
  score = a.score;
  score_display_mode = or_else a.score_display_mode "";
  display_value = a.display_value;
  savings_ms = savings_ms_of a;
  savings_bytes = bytes_in a.details;
  weight = or_else ref.weight 0;
}

abbrev pub category_text : Category → String
category_text performance = "performance"
category_text accessibility = "accessibility"
category_text best_practices = "best-practices"
category_text seo = "seo"

-- `${catId}:${ref.id}`
unfoldable pub seen_key : Category → String → String
seen_key category id = String.◌++◌ (category_text category) (String.◌++◌ ":" id)

pub record Found : Type 0 where
  pub seen : List String
  pub out : List ExtractedAudit

abbrev pub add_kind : Category → PsiAuditRef → PsiAudit → Option IssueKind → Found → Found
add_kind category ref a none f = f
add_kind category ref a (some kind) f =
    if includes f.seen (seen_key category ref.id) then f else record {
      seen = seen_key category ref.id ∷ f.seen;
      out = f.out ++ issue_of category ref a kind ∷ [];
    }

abbrev pub add_audit : Category → PsiAuditRef → Option PsiAudit → Found → Found
add_audit category ref none f = f
add_audit category ref (some a) f =
    if is_failing a then add_kind category ref a (kind_of category ref a) f else f

unfoldable pub add_refs : List (String × PsiAudit) → Category → List PsiAuditRef → Found → Found
add_refs audits category [] f = f
add_refs audits category (ref ∷ refs) f =
    add_refs audits category refs (add_audit category ref (lookup ref.id audits) f)

abbrev pub refs_of : Option PsiCategory → List PsiAuditRef
refs_of none = []
refs_of (some c) = c.audit_refs

unfoldable pub find_issues : List (String × PsiAudit) → PsiCategories → List ExtractedAudit
unfolding add_refs
find_issues audits c =
    let f = add_refs audits performance (refs_of c.performance) (record { seen = []; out = [] }) in
    let g = add_refs audits accessibility (refs_of c.accessibility) f in
    let h = add_refs audits best_practices (refs_of c.best_practices) g in
    (add_refs audits seo (refs_of c.seo) h).out

-- The comparator of the final sort: `(y.savingsMs ?? 0) - (x.savingsMs ?? 0)`, and where that is 0,
-- which is falsy, `(x.score ?? 1) - (y.score ?? 1)`. A score of 1 is 1000 thousandths.
abbrev pub or_by_score : ExtractedAudit → ExtractedAudit → ℤ → ℤ
or_by_score x y (pos zero) = sub_ℕ (or_else x.score 1000) (or_else y.score 1000)
or_by_score x y d = d

unfoldable pub compare_issues : ExtractedAudit → ExtractedAudit → ℤ
compare_issues x y = or_by_score x y (sub_ℕ (or_else y.savings_ms 0) (or_else x.savings_ms 0))

-- `Array.prototype.sort` of the language, which is an argument of what calls it.
abbrev pub Sort : Type 0
Sort = (ExtractedAudit → ExtractedAudit → ℤ) → List ExtractedAudit → List ExtractedAudit

unfoldable pub sort_issues : Sort → List ExtractedAudit → List ExtractedAudit
sort_issues sort xs = sort compare_issues xs

abbrev pub extract_from :
    Sort → Option (List (String × PsiAudit)) → Option PsiCategories → List ExtractedAudit
extract_from sort (some audits) (some categories) = sort_issues sort (find_issues audits categories)
extract_from sort _ _ = []

abbrev pub audits_of : Sort → Option PsiLighthouseResult → List ExtractedAudit
audits_of sort none = []
audits_of sort (some lr) = extract_from sort lr.audits lr.categories

unfoldable pub extract_audits : Sort → PsiResponse → List ExtractedAudit
extract_audits sort res = audits_of sort res.lighthouse_result

-- `a ?? b`
abbrev first_of_two : Option String → Option String → Option String
first_of_two none b = b
first_of_two (some a) b = some a

-- A code that is there and not empty.
abbrev truthy : Option String → Option String
truthy none = none
truthy (some s) = if same s "" then none else some s

abbrev result_for : Sort → Option String → PsiLighthouseResult → PsiResponse → ExtractedResult
result_for sort (some code) lr res = record {
  status = error;
  runtime_error = some code;
  final_url = first_of_two lr.final_displayed_url (first_of_two lr.final_url lr.requested_url);
  lighthouse_version = lr.lighthouse_version;
  fetch_time = lr.fetch_time;
  scores = scores_of none;
  lab = lab_of none;
  field = no_field_data;
  audits = [];
}
result_for sort none lr res = record {
  status = ok;
  runtime_error = none;
  final_url = first_of_two lr.final_displayed_url (first_of_two lr.final_url lr.requested_url);
  lighthouse_version = lr.lighthouse_version;
  fetch_time = lr.fetch_time;
  scores = scores_of lr.categories;
  lab = lab_of lr.audits;
  field = extract_field res;
  audits = extract_audits sort res;
}

abbrev no_lighthouse : PsiLighthouseResult
no_lighthouse = record {
  requested_url = none;
  final_url = none;
  final_displayed_url = none;
  lighthouse_version = none;
  fetch_time = none;
  runtime_error_code = none;
  audits = none;
  categories = none;
}

unfoldable pub extract_result : Sort → PsiResponse → ExtractedResult
extract_result sort res =
    let lr = or_else res.lighthouse_result no_lighthouse in
    result_for sort (truthy lr.runtime_error_code) lr res
