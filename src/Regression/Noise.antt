-- ===== src/Regression/Noise.antt =====
-- When lib/services/regression.service.ts is silent, and when it is not.
use pagespeed_auditor.Prelude.{
  ℕ, ◌+◌, ◌≤◌, ◌<◌, ◌≡◌, ◌↔◌, inl, inr, refl, Bool, true, ◌&&◌, Option, none, some, List, [], ◌∷◌,
  arith, ltb, leb, All, All-append, Bool-cases,
}
use pagespeed_auditor.Prelude.Int.{sub_ℕ}
use pagespeed_auditor.Psi.{
  Bucket, MetricId, Category, lcp, inp, cls, fcp, ttfb, performance, accessibility, best_practices,
  seo,
}
use pagespeed_auditor.Psi.Buckets.{bucket_rank, bucket_of, metric}
use pagespeed_auditor.Regression.{
  Regression, sustained, single_run, cwv_downgrade, ScoreSnapshot, drops_by, check_sustained,
  check_score, check_bands, check_metrics, check_scores, detect_regressions, check_metric, score_of,
  score_in, metric_in,
}

drops_by_iff : (n a b : ℕ) → 0 < n → (drops_by n a b ≡ true) ↔ (b + n ≤ a)
drops_by_iff n a b h = ((λ e. ground arith), λ e. ground arith)

-- What the three audits must show for a report: the scores or bands it names, and their distance.
pub IsReal : (current previous : ScoreSnapshot) → Option ScoreSnapshot → Regression → Type 0
IsReal current previous older (sustained c from to delta _) =
    (score_of c older ≡ some from)
    × (score_in c current ≡ some to)
    × (to + 10 ≤ from)
    × (delta ≡ sub_ℕ to from)
IsReal current previous older (single_run c from to delta _) =
    (score_in c previous ≡ some from)
    × (score_in c current ≡ some to)
    × (to + 20 ≤ from)
    × (delta ≡ sub_ℕ to from)
IsReal current previous none (cwv_downgrade m from to _) = ⊥
IsReal current previous (some older) (cwv_downgrade m from to _) =
    (bucket_of (metric m) (metric_in m older) ≡ some from)
    × (bucket_of (metric m) (metric_in m current) ≡ some to)
    × (bucket_rank from < bucket_rank to)

and-true : (a b : Bool) → (a && b) ≡ true → (a ≡ true) × (b ≡ true)
and-true a b h = (ground arith, ground arith)

ltb-true : {a b : ℕ} → ltb a b ≡ true → a < b
ltb-true {a} {b} h = ground arith

worse :
    (b0 b1 b2 : Bucket)
    → (ltb (bucket_rank b2) (bucket_rank b1) && leb (bucket_rank b1) (bucket_rank b0)) ≡ true
    → bucket_rank b2 < bucket_rank b0
worse b0 b1 b2 h = ground arith

check_sustained-IsReal :
    (current previous : ScoreSnapshot) (older : Option ScoreSnapshot) (c : Category)
    (now before : ℕ) (o : Option ℕ)
    → score_of c older ≡ o
    → score_in c current ≡ some now
    → All (IsReal current previous older) (check_sustained c now before o)
unfolding IsReal
check_sustained-IsReal current previous older c now before none h g = tt
check_sustained-IsReal current previous older c now before (some o) h g =
    elim (Bool-cases (drops_by 10 o before && drops_by 10 o now)) [
      | inl e ↦ rw e ((h, g, (drops_by_iff 10 o now (ground arith)).0 (and-true _ _ e).1, refl), tt)
      | inr e ↦ rw e tt
    ]

check_score-IsReal :
    (current previous : ScoreSnapshot) (older : Option ScoreSnapshot) (c : Category)
    → (now before o : Option ℕ) → score_in c current ≡ now
    → score_in c previous ≡ before
    → score_of c older ≡ o
    → All (IsReal current previous older) (check_score c now before o)
unfolding IsReal
check_score-IsReal current previous older c (some now) (some before) o h g k =
    elim (Bool-cases (drops_by 20 before now)) [
      | inl e ↦ rw e ((g, h, (drops_by_iff 20 before now (ground arith)).0 e, refl), tt)
      | inr e ↦ rw e (check_sustained-IsReal current previous older c now before o k h)
    ]
check_score-IsReal current previous older c none before o h g k = tt
check_score-IsReal current previous older c (some now) none o h g k = tt

check_bands-IsReal :
    (current previous older : ScoreSnapshot) (m : MetricId) (b0 b1 b2 : Option Bucket)
    → bucket_of (metric m) (metric_in m current) ≡ b0
    → bucket_of (metric m) (metric_in m older) ≡ b2
    → All (IsReal current previous (some older)) (check_bands m b0 b1 b2)
unfolding IsReal
check_bands-IsReal current previous older m (some b0) (some b1) (some b2) h g =
    elim (Bool-cases
      (ltb (bucket_rank b2) (bucket_rank b1) && leb (bucket_rank b1) (bucket_rank b0))) [
        | inl e ↦ rw e ((g, h, worse b0 b1 b2 e), tt)
        | inr e ↦ rw e tt
      ]
check_bands-IsReal current previous older m none b1 b2 h g = tt
check_bands-IsReal current previous older m (some b0) none b2 h g = tt
check_bands-IsReal current previous older m (some b0) (some b1) none h g = tt

check_metric-IsReal :
    (current previous older : ScoreSnapshot) (m : MetricId)
    → All (IsReal current previous (some older)) (check_metric m current previous older)
check_metric-IsReal current previous older m =
    check_bands-IsReal current previous older m (bucket_of (metric m) (metric_in m current))
      (bucket_of (metric m) (metric_in m previous)) (bucket_of (metric m) (metric_in m older)) refl
      refl

check_metrics-IsReal :
    (current previous : ScoreSnapshot) (older : Option ScoreSnapshot)
    → All (IsReal current previous older) (check_metrics current previous older)
check_metrics-IsReal current previous none = tt
check_metrics-IsReal current previous (some older) =
    let at : (m : MetricId)
        → All (IsReal current previous (some older)) (check_metric m current previous older) =
      check_metric-IsReal current previous older in
    All-append (IsReal current previous (some older)) _ _
      (All-append (IsReal current previous (some older)) _ _
        (All-append (IsReal current previous (some older)) _ _
          (All-append (IsReal current previous (some older)) _ _ (at lcp) (at cls)) (at inp))
        (at fcp))
      (at ttfb)

check_scores-IsReal :
    (current previous : ScoreSnapshot) (older : Option ScoreSnapshot)
    → All (IsReal current previous older) (check_scores current previous older)
check_scores-IsReal current previous older =
    let at : (c : Category)
        → All (IsReal current previous older)
            (check_score c (score_in c current) (score_in c previous) (score_of c older)) =
      λ c. check_score-IsReal current previous older c _ _ _ refl refl refl in
    All-append (IsReal current previous older) _ _
      (All-append (IsReal current previous older) _ _
        (All-append (IsReal current previous older) _ _ (at performance) (at accessibility))
        (at best_practices))
      (at seo)

-- The third audit of a history, if there is one.
abbrev head_of : List ScoreSnapshot → Option ScoreSnapshot
head_of [] = none
head_of (s ∷ _) = some s

-- Every reported regression of a history of at least two audits is real: a single-run report has a
-- score that fell by 20 or more since the audit before, a sustained one a score that is 10 or more
-- below the one two audits ago, and a downgrade a metric whose band is worse than two audits ago;
-- each names these very scores or bands, and the first two their difference.
pub detect_regressions-IsReal :
    (current previous : ScoreSnapshot) (before : List ScoreSnapshot)
    → All
        (IsReal current previous (head_of before))
        (detect_regressions (current ∷ previous ∷ before))
unfolding detect_regressions
detect_regressions-IsReal current previous [] =
    All-append (IsReal current previous none) _ _ (check_scores-IsReal current previous none)
      (check_metrics-IsReal current previous none)
detect_regressions-IsReal current previous (older ∷ before) =
    All-append (IsReal current previous (some older)) _ _
      (check_scores-IsReal current previous (some older))
      (check_metrics-IsReal current previous (some older))
