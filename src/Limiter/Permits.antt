-- ===== src/Limiter/Permits.antt =====
-- What the limiter of lib/psi/rateLimiter.ts guarantees.
use native.Mathlib.Nat.{div-add-mod', mod-lt, le_refl}
use pagespeed_auditor.Prelude.{
  ℕ, ◌+◌, ◌-◌, ◌*◌, ◌/◌, ◌%◌, ◌≤◌, ◌<◌, min, ◌≡◌, ◌⊎◌, true, refl, Option, none, some, List, [],
  ◌∷◌, arith, ◌==◌, if◌then◌else◌,
}
use pagespeed_auditor.Limiter.{
  RateLimitBucket, Limiter, Nap, wake, acquire, window_start, upsert, try_acquire, permits,
}

-- The clock does not run backwards past a window: every attempt is in the window of the attempt
-- before it or a later one, from the given window on.
abbrev pub Monotone : Limiter → ℕ → List ℕ → Type 0
Monotone l start [] = Unit
Monotone l start (now ∷ later) =
    (start ≤ window_start l now) × Monotone l (window_start l now) later

permits_past :
    (l : Limiter) (start : ℕ) (times : List ℕ) (b : RateLimitBucket)
    → start < b.window_start
    → Monotone l b.window_start times
    → permits l start times (some b) ≡ 0
unfolding permits try_acquire
permits_past l start [] b h m = refl
permits_past l start (now ∷ later) b h m =
    ground (arith, permits_past l start later (upsert (window_start l now) (some b)))

used : Limiter → ℕ → RateLimitBucket → ℕ
used l start b = if b.window_start == start then min b.count l.max else 0

permits-used :
    (l : Limiter) (start : ℕ) (times : List ℕ) (b : RateLimitBucket)
    → Monotone l b.window_start times
    → permits l start times (some b) + used l start b ≤ l.max
unfolding permits try_acquire used
permits-used l start [] b m = ground arith
permits-used l start (now ∷ later) b m =
    let next = upsert (window_start l now) (some b) in
    ground (arith, permits-used l start later next, permits_past l start later next)

-- The window from which the attempts go on: that of the row, if there is one.
abbrev pub from_window : Option RateLimitBucket → ℕ
from_window none = 0
from_window (some b) = b.window_start

first_row :
    (l : Limiter) (start now : ℕ) (later : List ℕ)
    → permits l start (now ∷ later) none
      ≡ permits l start
          (now ∷ later)
          (some (record { window_start = window_start l now; count = 0 }))
unfolding permits try_acquire
first_row l start now later = ground arith

-- However many workers call, in whatever order, and whatever the row was before: no window gives
-- more permits than the configured maximum. The clock must not run backwards past a window.
pub permits-le-max :
    (l : Limiter) (start : ℕ) (times : List ℕ) (row : Option RateLimitBucket)
    → Monotone l (from_window row) times
    → permits l start times row ≤ l.max
permits-le-max l start times (some b) m = omega (arith, permits-used l start times b m)
permits-le-max l start [] none m = unfold permits in omega arith
permits-le-max l start (now ∷ later) none m =
    let b : RateLimitBucket = record { window_start = window_start l now; count = 0 } in
    omega
      (arith, first_row l start now later, permits-used l start (now ∷ later) b (le_refl _, m.1))

window_bounds :
    (l : Limiter) (t : ℕ)
    → 0 < l.window_ms
    → (window_start l t ≤ t) × (t < window_start l t + l.window_ms)
unfolding window_start
window_bounds l t pos = (
  omega (arith, div-add-mod' t l.window_ms),
  omega (arith, div-add-mod' t l.window_ms, mod-lt t pos),
)

boundary : (w now : ℕ) → 0 < w → now + (w - now % w) ≡ (now / w + 1) * w
boundary w now h = omega (arith, div-add-mod' now w, mod-lt now h)

module _ (l : Limiter) (now : ℕ) (nap : Nap) (pos : 0 < l.window_ms) where
  -- A sleep ends in a later window, not before that begins, and lasts a window and the jitter at most.
  wake-eq : wake l now nap ≡ window_start l now + l.window_ms + nap.jitter + nap.late
  unfolding wake window_start
  wake-eq = omega (arith, boundary l.window_ms now pos)

  window-wake : window_start l now < window_start l (wake l now nap)
  window-wake = let t = wake l now nap in omega (arith, wake-eq, window_bounds l t pos)

  acquire_cases :
      (row : Option RateLimitBucket) → 0 < l.max → (acquire l now (nap ∷ []) row).permitted ≡ true
  unfolding acquire
  acquire_cases row some_permits = ground (arith, window-wake)

-- A caller of `acquire` that no other one interrupts is given a permit after one sleep at most,
-- whatever the row was before. It is given at once, or else at a time that is not before the next
-- window, and at most the jitter (and the lateness of the timer) after its start. There must be a
-- permit in a window, and a window is not empty.
pub acquire_alone :
    (l : Limiter) (now : ℕ) (nap : Nap) (row : Option RateLimitBucket)
    → 0 < l.window_ms
    → 0 < l.max
    → ((acquire l now (nap ∷ []) row).permitted ≡ true)
      × (((acquire l now (nap ∷ []) row).time ≡ now)
          ⊎ ((acquire l now (nap ∷ []) row).time
              ≡ window_start l now + l.window_ms + nap.jitter + nap.late))
unfolding acquire
acquire_alone l now nap row pos some_permits =
    (acquire_cases l now nap pos row some_permits, ground (arith, wake-eq l now nap pos))
