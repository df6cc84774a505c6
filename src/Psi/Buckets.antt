-- ===== src/Psi/Buckets.antt =====
-- lib/psi/buckets.ts: the bands of the metrics and of the scores. A metric is in thousandths of its
-- unit, so the 0.1 of a layout shift is 100 and 2500 ms are 2500000.
use Prim.Native.Char.{code}
use pagespeed_auditor.Prelude.{
  ℕ, ◌-◌, ◌*◌, String, Bool, true, false, ◌&&◌, ◌||◌, Option, none, some, ltb, leb, ◌==◌,
  if◌then◌else◌,
}
use pagespeed_auditor.Psi.{Bucket, good, ni, poor, MetricId, lcp, inp, cls, fcp, ttfb}

-- `MetricId | 'tbt'`
pub data Measure : Type 0 where
  metric : MetricId → Measure
  tbt : Measure

pub record Threshold : Type 0 where
  pub good : ℕ
  pub poor : ℕ

abbrev in_ms : ℕ → ℕ → Threshold
in_ms g p = record { good = g * 1000; poor = p * 1000 }

unfoldable pub thresholds : Measure → Threshold
thresholds (metric lcp) = in_ms 2500 4000
thresholds (metric inp) = in_ms 200 500
thresholds (metric cls) = record { good = 100; poor = 250 }
thresholds (metric fcp) = in_ms 1800 3000
thresholds (metric ttfb) = in_ms 800 1800
thresholds tbt = in_ms 200 600

unfoldable pub bucket_of : Measure → Option ℕ → Option Bucket
bucket_of m none = none
bucket_of m (some v) =
    if leb v (thresholds m).good
    then some good
    else if ltb (thresholds m).poor v
    then some poor
    else some ni

abbrev pub bucket_rank : Bucket → ℕ
bucket_rank good = 0
bucket_rank ni = 1
bucket_rank poor = 2

unfoldable pub is_worse : Bucket → Bucket → Bool
is_worse a b = ltb (bucket_rank b) (bucket_rank a)

-- `toUpperCase`, on the letters of ASCII.
abbrev upper : ℕ → ℕ
upper c = if leb b'a' c && leb c b'z' then c - 32 else c

-- Whether a text in upper case is the given text.
abbrev upper_is : String → String → Bool
upper_is String.[] String.[] = true
upper_is (String.◌∷◌ c s) (String.◌∷◌ d t) = upper (code c) == code d && upper_is s t
upper_is _ _ = false

unfoldable pub bucket_from_crux_category : Option String → Option Bucket
bucket_from_crux_category none = none
bucket_from_crux_category (some c) =
    if upper_is c "FAST" || upper_is c "GOOD"
    then some good
    else if upper_is c "AVERAGE" || upper_is c "NEEDS_IMPROVEMENT"
    then some ni
    else if upper_is c "SLOW" || upper_is c "POOR"
    then some poor
    else none

pub data ScoreBand : Type 0 where
  fail average pass : ScoreBand

unfoldable pub score_band : Option ℕ → Option ScoreBand
score_band none = none
score_band (some s) = if ltb s 50 then some fail else if ltb s 90 then some average else some pass
