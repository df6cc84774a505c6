-- ===== src/Login.antt =====
-- lib/auth/rate-limit.ts: the fixed-window limit on attempts to log in. The map of windows is an
-- association list with one entry for a key.
pub mod Windows
use Prim.Native.String
use pagespeed_auditor.Prelude.{
  ℕ, ◌+◌, ◌-◌, ◌*◌, ◌/◌, String, Bool, true, false, not, Option, none, some, List, [], ◌∷◌, leb,
  ltb, if◌then◌else◌, same, keep, length, max,
}

pub record RateLimitHit : Type 0 where
  pub count : ℕ
  pub ttl_ms : ℕ

pub record RateLimitDecision : Type 0 where
  pub allowed : Bool
  pub remaining : ℕ
  pub retry_after_ms : ℕ

-- `KEY_PREFIX + ip`
abbrev pub login_key : (ip : String) → String
login_key ip = String.◌++◌ "psa:login-attempts:" ip

abbrev pub login_max : ℕ
login_max = 10

abbrev pub login_window_ms : ℕ
login_window_ms = 900000

unfoldable pub decide : RateLimitHit → (max : ℕ) → RateLimitDecision
decide hit max = record {
  allowed = leb hit.count max;
  remaining = max - hit.count;
  retry_after_ms = if leb hit.count max then 0 else hit.ttl_ms;
}

-- `Math.max(1, Math.ceil(retryAfterMs / 60_000))`
unfoldable pub retry_after_minutes : ℕ → ℕ
retry_after_minutes ms = max 1 ((ms + 59999) / 60000)

pub record Window : Type 0 where
  pub key : String
  pub count : ℕ
  pub reset_at : ℕ

-- `Map.get`
unfoldable pub lookup_window : String → List Window → Option Window
lookup_window key [] = none
lookup_window key (w ∷ ws) = if same w.key key then some w else lookup_window key ws

-- `Map.set`
unfoldable pub set_window : Window → List Window → List Window
set_window w [] = w ∷ []
set_window w (v ∷ ws) = if same v.key w.key then w ∷ ws else v ∷ set_window w ws

abbrev pub is_live : (t : ℕ) → Window → Bool
is_live t w = ltb t w.reset_at

-- Expired windows go, once there are 512.
unfoldable pub prune : (t : ℕ) → List Window → List Window
prune t ws = if ltb (length ws) 512 then ws else keep (is_live t) ws

pub record Hit : Type 0 where
  pub hit : RateLimitHit
  pub windows : List Window

abbrev pub fresh_hit : (t : ℕ) (key : String) (window_ms : ℕ) → List Window → Hit
fresh_hit t key window_ms ws = record {
  hit = record { count = 1; ttl_ms = window_ms };
  windows = prune t (set_window (record { key = key; count = 1; reset_at = t + window_ms }) ws);
}

abbrev pub hit_found : (t : ℕ) (key : String) (window_ms : ℕ) → List Window → Option Window → Hit
hit_found t key window_ms ws none = fresh_hit t key window_ms ws
hit_found t key window_ms ws (some w) =
    if leb w.reset_at t then fresh_hit t key window_ms ws else record {
      hit = record { count = w.count + 1; ttl_ms = w.reset_at - t };
      windows = set_window (record { key = w.key; count = w.count + 1; reset_at = w.reset_at }) ws;
    }

unfoldable pub hit_window : (t : ℕ) (key : String) (window_ms : ℕ) → List Window → Hit
hit_window t key window_ms ws = hit_found t key window_ms ws (lookup_window key ws)

-- `Map.delete`
unfoldable pub reset_window : String → List Window → List Window
reset_window key ws = keep (λ w. not (same w.key key)) ws

pub record Attempt : Type 0 where
  pub decision : RateLimitDecision
  pub windows : List Window

unfoldable pub consume_login_attempt : (t : ℕ) (ip : String) → List Window → Attempt
consume_login_attempt t ip ws =
    let h = hit_window t (login_key ip) login_window_ms ws in
    record { decision = decide h.hit login_max; windows = h.windows }

unfoldable pub reset_login_attempts : (ip : String) → List Window → List Window
reset_login_attempts ip ws = reset_window (login_key ip) ws
