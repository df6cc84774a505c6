-- ===== src/Psi/Backoff.antt =====
-- What lib/psi/client.ts promises of its waits, and of what it calls retryable.
use pagespeed_auditor.Prelude.{
  ℕ, ◌+◌, ◌-◌, ◌^◌, min, ◌&&◌, is_some, same_iff, ◌*◌, ◌/◌, ◌≤◌, ◌<◌, String, ◌≡◌, refl, ◌⊎◌, ◌↔◌,
  inl, inr, Bool, true, false, Option, none, some, arith, Bool-cases,
}
use pagespeed_auditor.Psi.Response.{PsiResponse, PsiLighthouseResult}
use pagespeed_auditor.Psi.Client.{
  HttpReply, Fetched, unreachable, replied, PsiFetchResult, retryable, run_pagespeed,
  classify_error, classify_body, looks_complete, is_truthy, is_complete, is_ok_status, backoff_ms,
}

half_to_threehalves :
    (base rand : ℕ)
    → rand < 1000
    → (base ≤ 2 * ((2 * (base * (500 + rand)) + 1000) / 2000))
      × (2 * ((2 * (base * (500 + rand)) + 1000) / 2000) ≤ 3 * base + 1)
half_to_threehalves base rand h =
    let bound : base * rand ≤ base * 999 = grind arith in (omega arith, omega arith)

-- Between half of the ceiling and one and a half of it, and at most a millisecond above that, by
-- rounding. The ceiling is 30 seconds, doubled for each further attempt, and at most 15 minutes.
pub backoff_ms_bounds :
    (attempt rand : ℕ)
    → rand < 1000
    → (min (30_000 * 2 ^ (attempt - 1)) 900_000 ≤ 2 * backoff_ms attempt rand)
      × (2 * backoff_ms attempt rand ≤ 3 * min (30_000 * 2 ^ (attempt - 1)) 900_000 + 1)
unfolding backoff_ms
backoff_ms_bounds attempt rand h =
    half_to_threehalves (min (30_000 * 2 ^ (attempt - 1)) 900_000) rand h

abbrev pub is_retryable : PsiFetchResult → Bool
is_retryable (retryable s a m) = true
is_retryable _ = false

-- A body that cannot be used: not JSON, or with no Lighthouse result, or with one that names no error
-- and lacks its categories or its audits. An empty error code names none.
abbrev pub IsCutOff : Option PsiLighthouseResult → Type 0
IsCutOff none = Unit
IsCutOff (some lr) =
    ((lr.runtime_error_code ≡ none) ⊎ (lr.runtime_error_code ≡ some ""))
    × ((lr.categories ≡ none) ⊎ (lr.audits ≡ none))

abbrev pub IsUnusable : Option PsiResponse → Type 0
IsUnusable none = Unit
IsUnusable (some res) = IsCutOff res.lighthouse_result

-- What another attempt may mend: no answer at all, a 429, a 5xx, or a 2xx with an unusable body.
abbrev pub IsTransient : Fetched → Type 0
IsTransient (unreachable m) = Unit
IsTransient (replied r) =
    ((r.status ≡ 429) ⊎ (500 ≤ r.status))
    ⊎ (((200 ≤ r.status) × (r.status < 300)) × IsUnusable r.parsed)

no_code : (o : Option String) → is_truthy o ≡ false → (o ≡ none) ⊎ (o ≡ some "")
no_code none h = inl refl
no_code (some c) h = inr (ground (arith, same_iff c ""))

not_truthy : (o : Option String) → (o ≡ none) ⊎ (o ≡ some "") → is_truthy o ≡ false
not_truthy o (inl e) = rw e refl
not_truthy o (inr e) = rw e refl

both_there :
    {A B : Type 0} (a : Option A) (b : Option B)
    → ((is_some a && is_some b) ≡ false) ↔ ((a ≡ none) ⊎ (b ≡ none))
both_there none b = ((λ h. inl refl), λ h. refl)
both_there (some a) none = ((λ h. inr refl), λ h. refl)
both_there (some a) (some b) = ((λ h. cc), λ h. absurd (ground arith))

looks_complete-IsCutOff :
    (res : PsiResponse) → (looks_complete res ≡ false) ↔ IsCutOff res.lighthouse_result
unfolding looks_complete
looks_complete-IsCutOff res = cut (res.lighthouse_result)
  where
    cut : (o : Option PsiLighthouseResult) → (is_complete o ≡ false) ↔ IsCutOff o
    cut none = ((λ h. tt), λ h. refl)
    cut (some lr) =
        let rest = both_there lr.categories lr.audits in
        (
          (λ h. elim (Bool-cases (is_truthy lr.runtime_error_code)) [
            | inl t ↦ absurd (ground (arith, rw t at h))
            | inr t ↦ (no_code lr.runtime_error_code t, rest.0 (rw t at h))
          ]),
          λ h. rw (not_truthy lr.runtime_error_code h.0) (rest.1 h.1),
        )

classify_body-retryable :
    (o : Option PsiResponse) → (is_retryable (classify_body o) ≡ true) ↔ IsUnusable o
classify_body-retryable none = ((λ h. tt), λ h. refl)
classify_body-retryable (some res) =
    let cut = looks_complete-IsCutOff res in
    ((λ h. cut.0 (ground arith)), λ h. let e = cut.1 h in ground arith)

classify_error-retryable :
    (spell : ℕ → String) (now : ℕ) (api_key : String) (r : HttpReply)
    → (is_retryable (classify_error spell now api_key r) ≡ true)
      ↔ ((r.status ≡ 429) ⊎ (500 ≤ r.status))
unfolding classify_error
classify_error-retryable spell now api_key r = ((λ h. ground arith), λ h. ground arith)

-- A call is retried exactly when its failure may pass: no answer at all, a 429, a 5xx, or a 2xx
-- whose body is not JSON or is cut off: with no Lighthouse result, or with neither an error code nor
-- both its categories and its audits. So a bad key, a wrong URL and a page that Lighthouse cannot
-- measure never burn another attempt.
pub run_pagespeed-retryable :
    (spell : ℕ → String) (now : ℕ) (api_key : String) (f : Fetched)
    → (is_retryable (run_pagespeed spell now api_key f) ≡ true) ↔ IsTransient f
unfolding run_pagespeed
run_pagespeed-retryable spell now api_key (unreachable m) = ((λ h. tt), λ h. refl)
run_pagespeed-retryable spell now api_key (replied r) = elim (Bool-cases (is_ok_status r.status)) [
  | inl e ↦
      let body = classify_body-retryable r.parsed in
      (
        (λ h. inr ((ground arith, ground arith), body.0 (rw e at h))),
        λ t. rw e (body.1 (good_body e t)),
      )
  | inr e ↦
      let fault = classify_error-retryable spell now api_key r in
      ((λ h. inl (fault.0 (rw e at h))), λ t. rw e (fault.1 (bad_status e t)))
]
  where
    good_body : is_ok_status r.status ≡ true → IsTransient (replied r) → IsUnusable r.parsed
    good_body e (inl (inl k)) = absurd (ground arith)
    good_body e (inl (inr k)) = absurd (ground arith)
    good_body e (inr t) = t.1

    bad_status :
        is_ok_status r.status ≡ false
        → IsTransient (replied r)
        → (r.status ≡ 429) ⊎ (500 ≤ r.status)
    bad_status e (inl k) = k
    bad_status e (inr t) = absurd (ground (arith, e, t.0))
