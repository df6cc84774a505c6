-- ===== src/Limiter.antt =====
-- lib/psi/rateLimiter.ts: the fixed-window limiter on the calls of the PageSpeed Insights API. The
-- upsert of one row is atomic in the database, so calls of several workers happen one after another.
pub mod Permits
use pagespeed_auditor.Prelude.{
  ℕ, ◌+◌, ◌-◌, ◌*◌, ◌/◌, ◌%◌, Bool, true, false, Option, none, some, List, [], ◌∷◌, leb, ◌==◌,
  if◌then◌else◌,
}

-- schema.prisma: RateLimitBucket, the row of one key
pub record RateLimitBucket : Type 0 where
  pub window_start : ℕ
  pub count : ℕ

pub record Limiter : Type 0 where
  pub max : ℕ
  pub window_ms : ℕ

-- Permits with the bucket after them.
pub record Acquired : Type 0 where
  pub ok : Bool
  pub bucket : RateLimitBucket

unfoldable pub window_start : Limiter → (now : ℕ) → ℕ
window_start l now = now / l.window_ms * l.window_ms

-- The row after the upsert: a fresh window counts from 1.
abbrev pub upsert : (start : ℕ) → Option RateLimitBucket → RateLimitBucket
upsert start none = record { window_start = start; count = 1 }
upsert start (some b) = record {
  window_start = start;
  count = if b.window_start == start then b.count + 1 else 1;
}

unfoldable pub try_acquire : Limiter → (now : ℕ) → Option RateLimitBucket → Acquired
try_acquire l now row =
    let b = upsert (window_start l now) row in record { ok = leb b.count l.max; bucket = b }

unfoldable pub ms_until_next_window : Limiter → (now : ℕ) → ℕ
ms_until_next_window l now = l.window_ms - now % l.window_ms

-- One sleep of `acquire`: the jitter that is drawn for it, and how much later than asked the caller
-- wakes.
pub record Nap : Type 0 where
  pub jitter : ℕ
  pub late : ℕ

-- `await this.sleep(this.msUntilNextWindow() + Math.floor(Math.random() * 150))`: the time after it.
unfoldable pub wake : Limiter → (now : ℕ) → Nap → ℕ
unfolding ms_until_next_window
wake l now nap = now + (ms_until_next_window l now + nap.jitter) + nap.late

-- The row after the attempts, the time of the last one, and whether it was given a permit.
pub record Acquisition : Type 0 where
  pub bucket : RateLimitBucket
  pub time : ℕ
  pub permitted : Bool

-- `acquire` from a time on: an attempt, and while it is denied, a sleep and another one. Without a
-- further sleep at hand the caller is still waiting. The clock is read once for an attempt and the
-- sleep after it; no other caller comes between.
unfoldable pub acquire : Limiter → (now : ℕ) → List Nap → Option RateLimitBucket → Acquisition
unfolding try_acquire wake
acquire l now [] row =
    let a = try_acquire l now row in record { bucket = a.bucket; time = now; permitted = a.ok }
acquire l now (nap ∷ naps) row =
    let a = try_acquire l now row in
    let rest = acquire l (wake l now nap) naps (some a.bucket) in
    if a.ok then record { bucket = a.bucket; time = now; permitted = true } else rest

-- How many permits a sequence of attempts is given in the window that starts at `start`.
unfoldable pub permits : Limiter → (start : ℕ) → List ℕ → Option RateLimitBucket → ℕ
permits l start [] row = 0
permits l start (now ∷ later) row =
    let a = try_acquire l now row in
    (if (if a.ok then window_start l now == start else false) then 1 else 0)
    + permits l start later (some a.bucket)
