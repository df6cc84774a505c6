-- ===== src/Tests/Readings.antt =====
-- The theorems on the client of the PageSpeed Insights API, its answers and its limiter.
use mathlib.Core.List.{Permᴰ}
use pagespeed_auditor.Prelude.{
  ℕ, ◌+◌, ◌≤◌, ◌≡◌, ◌↔◌, ◌⊎◌, true, Option, none, some, List, [], ◌∷◌, arith, All, String,
}
use pagespeed_auditor.Psi.{ExtractedAudit, performance, opportunity}
use pagespeed_auditor.Psi.Response.{PsiAudit, PsiResponse, PsiCategory}
use pagespeed_auditor.Psi.Issues.{sort_issues}
use pagespeed_auditor.Psi.Issues.Ranking.{IsRanked, sort_issues-IsRanked}
use pagespeed_auditor.Tests.Sorting.{insertion_sort, insertion_sort-IsSorting}
use pagespeed_auditor.Audit.Job.{PageOutcome, throws_retry, retry_sleep}
use pagespeed_auditor.Audit.Waits.{IsSleep, retry_sleep_bounds}
use pagespeed_auditor.Tests.{fresh_db}
use pagespeed_auditor.Psi.Client.{Fetched, replied, run_pagespeed}
use pagespeed_auditor.Psi.Backoff.{is_retryable, IsTransient, run_pagespeed-retryable}
use pagespeed_auditor.Limiter.{Limiter, RateLimitBucket, Nap, window_start, acquire, permits}
use pagespeed_auditor.Limiter.Permits.{permits-le-max, acquire_alone}
use pagespeed_auditor.Regression.{ScoreSnapshot, detect_regressions}
use pagespeed_auditor.Regression.Noise.{IsReal, detect_regressions-IsReal}

abbrev issue : String → Option ℕ → Option ℕ → ExtractedAudit
issue id score savings = record {
  audit_id = id;
  title = id;
  description = "";
  category = performance;
  kind = opportunity;
  score = score;
  score_display_mode = "metricSavings";
  display_value = none;
  savings_ms = savings;
  savings_bytes = none;
  weight = 1;
}

abbrev two_issues : List ExtractedAudit
two_issues = issue "font-display" (some 500) none ∷ issue "unused-css" (some 0) (some 1200) ∷ []

sort_issues-IsRanked_example :
    IsRanked (sort_issues insertion_sort two_issues)
    × Permᴰ (sort_issues insertion_sort two_issues) two_issues
sort_issues-IsRanked_example =
    sort_issues-IsRanked insertion_sort two_issues insertion_sort-IsSorting

abbrev audit : PsiAudit
audit = record {
  title = some "Reduce unused CSS";
  description = none;
  score = some 300;
  score_display_mode = some "metricSavings";
  display_value = none;
  numeric_value = none;
  details = none;
  savings_lcp = some 450;
  savings_fcp = none;
  savings_tbt = none;
}

abbrev performance_category : PsiCategory
performance_category = record {
  score = some 640;
  audit_refs = record { id = "unused-css"; weight = some 1; group = none } ∷ [];
}

abbrev response : PsiResponse
response = record {
  loading_experience = none;
  origin_loading_experience = none;
  lighthouse_result = some (record {
    requested_url = none;
    final_url = none;
    final_displayed_url = none;
    lighthouse_version = none;
    fetch_time = none;
    runtime_error_code = none;
    audits = some (("unused-css", audit) ∷ []);
    categories = some (record {
      performance = some performance_category;
      accessibility = none;
      best_practices = none;
      seo = none;
    });
  });
}

-- A 2xx whose body is cut off.
abbrev cut_off : Fetched
cut_off =
    replied
      (record { status = 200; text = "{"; error_body = none; parsed = none; retry_after = none })

run_pagespeed-retryable_example :
    (is_retryable (run_pagespeed (λ n. "") 0 "key" cut_off) ≡ true) ↔ IsTransient cut_off
run_pagespeed-retryable_example = run_pagespeed-retryable (λ n. "") 0 "key" cut_off

-- The third attempt was told to come back in an hour.
abbrev busy : PageOutcome
busy = throws_retry (some 3_600_000) fresh_db

retry_sleep_bounds_example : IsSleep busy 3 (retry_sleep busy 3 250)
retry_sleep_bounds_example = retry_sleep_bounds busy 3 250 (omega arith)

abbrev limiter : Limiter
limiter = record { max = 2; window_ms = 1000 }

permits-le-max_example : permits limiter 5000 (5000 ∷ 5100 ∷ 5200 ∷ 6000 ∷ []) none ≤ limiter.max
unfolding window_start
permits-le-max_example =
    permits-le-max limiter 5000 (5000 ∷ 5100 ∷ 5200 ∷ 6000 ∷ []) none
      (omega arith, (omega arith, (omega arith, (omega arith, tt))))

abbrev nap : Nap
nap = record { jitter = 149; late = 3 }

-- The row of a window that is used up.
abbrev full : RateLimitBucket
full = record { window_start = 5000; count = 2 }

acquire_alone_example :
    ((acquire limiter 5100 (nap ∷ []) (some full)).permitted ≡ true)
    × (((acquire limiter 5100 (nap ∷ []) (some full)).time ≡ 5100)
        ⊎ ((acquire limiter 5100 (nap ∷ []) (some full)).time
            ≡ window_start limiter 5100 + limiter.window_ms + nap.jitter + nap.late))
acquire_alone_example = acquire_alone limiter 5100 nap (some full) (omega arith) (omega arith)

abbrev scored : ℕ → ScoreSnapshot
scored n = record {
  performance = some n;
  accessibility = some 90;
  best_practices = none;
  seo = none;
  lcp = some 2000000;
  cls = none;
  fcp = none;
  ttfb = none;
  inp = none;
}

detect_regressions-IsReal_example :
    All
      (IsReal (scored 60) (scored 85) (some (scored 95)))
      (detect_regressions (scored 60 ∷ scored 85 ∷ scored 95 ∷ []))
detect_regressions-IsReal_example =
    detect_regressions-IsReal (scored 60) (scored 85) (scored 95 ∷ [])
