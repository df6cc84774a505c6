-- ===== src/Audit/Waits.antt =====
-- How long auditOnePageStep (lib/workflows/auditRun.ts) sleeps between two attempts.
use pagespeed_auditor.Prelude.{ℕ, ◌+◌, ◌-◌, ◌*◌, ◌^◌, ◌≤◌, ◌<◌, ◌≡◌, min, max, none, some, arith}
use pagespeed_auditor.Psi.Client.{backoff_ms}
use pagespeed_auditor.Psi.Backoff.{backoff_ms_bounds}
use pagespeed_auditor.Audit.Job.{
  PageOutcome, returns, throws_retry, throws_permanent, throws_other, retry_sleep,
}

-- Between half and one and a half of a ceiling of 30 seconds that doubles with each attempt up to 15
-- minutes, and never above 15 minutes.
abbrev pub IsBackoff : (attempt ms : ℕ) → Type 0
IsBackoff attempt ms =
    (min (30_000 * 2 ^ (attempt - 1)) 900_000 ≤ 2 * ms)
    × (2 * ms ≤ 3 * min (30_000 * 2 ^ (attempt - 1)) 900_000 + 1)
    × (ms ≤ 900_000)

-- What the error that an attempt has thrown makes of the sleep.
abbrev pub IsSleep : PageOutcome → (attempt ms : ℕ) → Type 0
IsSleep (throws_retry (some asked) db) attempt ms = ms ≡ min asked 900_000
IsSleep (throws_retry none db) attempt ms = IsBackoff attempt ms
IsSleep (throws_permanent message db) attempt ms = IsBackoff attempt ms
IsSleep (throws_other db) attempt ms = IsBackoff attempt ms
IsSleep (returns out db) attempt ms = IsBackoff attempt ms

clamped :
    (attempt rand : ℕ)
    → rand < 1000
    → IsBackoff attempt (min (max (backoff_ms attempt rand) 0) 900_000)
clamped attempt rand h =
    let bounds = backoff_ms_bounds attempt rand h in
    (omega (arith, bounds.0), omega (arith, bounds.1), omega arith)

-- The sleep after an attempt that has thrown is what a Retry-After of the API asks for, cut to 15
-- minutes. Where none is given, it lies between half and one and a half of a ceiling of 30 seconds
-- that doubles with each attempt up to 15 minutes (within a millisecond, by rounding), and is at most
-- 15 minutes. The random factor is below 1.
pub retry_sleep_bounds :
    (o : PageOutcome) (attempt rand : ℕ)
    → rand < 1000
    → IsSleep o attempt (retry_sleep o attempt rand)
unfolding retry_sleep
retry_sleep_bounds (throws_retry (some asked) db) attempt rand h = omega arith
retry_sleep_bounds (throws_retry none db) attempt rand h = clamped attempt rand h
retry_sleep_bounds (throws_permanent message db) attempt rand h = clamped attempt rand h
retry_sleep_bounds (throws_other db) attempt rand h = clamped attempt rand h
retry_sleep_bounds (returns out db) attempt rand h = clamped attempt rand h
