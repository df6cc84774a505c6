-- ===== src/Login/Windows.antt =====
-- How many attempts of one address the limit lets through while its window is open, whatever other
-- addresses do in between.
use pagespeed_auditor.Prelude.{
  ℕ, suc, ◌+◌, ◌-◌, ◌<◌, String, Bool, false, ◌≡◌, ◌≢◌, refl, Option, none, some, List, [], ◌∷◌,
  leb, ltb, if◌then◌else◌, same, same_iff, same_refl, same-false, keep, count_by, min, All, arith,
  Bool-cases, inl, inr, length,
}
use text.Mathlib.TextLemmas.{append_cancel_left}
use pagespeed_auditor.Login.{
  login_key, Window, hit_window, hit_found, fresh_hit, lookup_window, set_window, prune, is_live,
  consume_login_attempt, decide, login_window_ms,
}

lookup-set_window :
    (key : String) (w : Window) (ws : List Window)
    → lookup_window key (set_window w ws)
      ≡ (if same w.key key then some w else lookup_window key ws)
unfolding lookup_window set_window
lookup-set_window key w [] = refl
lookup-set_window key w (v ∷ ws) = ground (
  arith,
  same_iff v.key w.key,
  same_iff v.key key,
  same_iff w.key key,
  lookup-set_window key w ws,
)

lookup-keep :
    (key : String) (t : ℕ) (ws : List Window) {w : Window}
    → lookup_window key ws ≡ some w
    → t < w.reset_at
    → lookup_window key (keep (is_live t) ws) ≡ some w
unfolding lookup_window
lookup-keep key t [] {w} h live = h
lookup-keep key t (v ∷ ws) {w} h live = elim (Bool-cases (same v.key key)) [
  | inl e ↦ ground arith
  | inr e ↦ ground (arith, lookup-keep key t ws {w = w} (rw e at h) live)
]

lookup-prune :
    (key : String) (t : ℕ) (ws : List Window) {w : Window}
    → lookup_window key ws ≡ some w
    → t < w.reset_at
    → lookup_window key (prune t ws) ≡ some w
unfolding prune
lookup-prune key t ws {w} h live = elim (Bool-cases (ltb (length ws) 512)) [
  | inl e ↦ rw e h
  | inr e ↦ rw e (lookup-keep key t ws {w = w} h live)
]

lookup_window-key :
    (key : String) (ws : List Window) {w : Window} → lookup_window key ws ≡ some w → w.key ≡ key
unfolding lookup_window
lookup_window-key key [] {w} h = ground arith
lookup_window-key key (v ∷ ws) {w} h =
    ground (arith, same_iff v.key key, lookup_window-key key ws {w = w})

-- The window after one more attempt.
abbrev counted_window : Window → Window
counted_window w = record w { count = w.count + 1 }

leb-false : (a t : ℕ) → t < a → leb a t ≡ false
leb-false a t h = ground arith

-- An attempt in an open window is counted in it.
hit_self :
    (t : ℕ) (key : String) (window_ms : ℕ) (ws : List Window) {w : Window}
    → lookup_window key ws ≡ some w
    → t < w.reset_at
    → (lookup_window key (hit_window t key window_ms ws).windows ≡ some (counted_window w))
      × ((hit_window t key window_ms ws).hit.count ≡ w.count + 1)
unfolding hit_window
hit_self t key window_ms ws {w} h live =
    rw (h, leb-false w.reset_at t live)
      (
        rw (lookup-set_window key (counted_window w) ws, lookup_window-key key ws h, same_refl key)
            refl,
        refl,
      )

fresh_hit_other :
    (t : ℕ) (key other : String) (window_ms : ℕ) (ws : List Window) {w : Window}
    → lookup_window key ws ≡ some w
    → t < w.reset_at
    → other ≢ key
    → lookup_window key (fresh_hit t other window_ms ws).windows ≡ some w
fresh_hit_other t key other window_ms ws {w} h live ne =
    let v : Window = record { key = other; count = 1; reset_at = t + window_ms } in
    lookup-prune key t (set_window v ws) {w = w}
      (rw (lookup-set_window key v ws, same-false other key ne) h) live

hit_found_other :
    (t : ℕ) (key other : String) (window_ms : ℕ) (ws : List Window) (o : Option Window) {w : Window}
    → lookup_window key ws ≡ some w
    → t < w.reset_at
    → other ≢ key
    → ((v : Window) → o ≡ some v → v.key ≡ other)
    → lookup_window key (hit_found t other window_ms ws o).windows ≡ some w
hit_found_other t key other window_ms ws none h live ne k =
    fresh_hit_other t key other window_ms ws h live ne
hit_found_other t key other window_ms ws (some v) {w} h live ne k =
    elim (Bool-cases (leb v.reset_at t)) [
      | inl e ↦ rw e (fresh_hit_other t key other window_ms ws h live ne)
      | inr e ↦
          rw e
            (rw (lookup-set_window key (counted_window v) ws, k v refl, same-false other key ne) h)
    ]

-- An attempt of another address leaves an open window as it is.
hit_other :
    (t : ℕ) (key other : String) (window_ms : ℕ) (ws : List Window) {w : Window}
    → lookup_window key ws ≡ some w
    → t < w.reset_at
    → other ≢ key
    → lookup_window key (hit_window t other window_ms ws).windows ≡ some w
unfolding hit_window
hit_other t key other window_ms ws {w} h live ne =
    hit_found_other t key other window_ms ws (lookup_window other ws) h live ne
      (λ v. lookup_window-key other ws {w = v})

one_more :
    (count n : ℕ)
    → (if leb (count + 1) 10 then 1 else 0) + min n (10 - (count + 1)) ≡ min (suc n) (10 - count)
one_more count n = ground arith

login_key-injective : (a b : String) → login_key a ≡ login_key b → a ≡ b
login_key-injective a b h = append_cancel_left "psa:login-attempts:" a b h

different : (a b : String) → same a b ≡ false → login_key a ≢ login_key b
different a b h q = let e : a ≡ b = login_key-injective a b q in ground (arith, same_iff a b)

-- An attempt to log in: its time and its address.
pub record Call : Type 0 where
  pub time : ℕ
  pub ip : String

-- How many of the calls from one address are let through.
unfoldable pub allowed : (ip : String) → List Call → List Window → ℕ
unfolding consume_login_attempt decide
allowed ip [] ws = 0
allowed ip (c ∷ calls) ws =
    let a = consume_login_attempt c.time c.ip ws in
    (if same c.ip ip then (if a.decision.allowed then 1 else 0) else 0) + allowed ip calls a.windows

abbrev pub is_from : String → Call → Bool
is_from ip c = same c.ip ip

-- While the window of an address is open, exactly as many of its calls are let through as the limit
-- of 10 leaves after the calls that the window has counted: the next ones, however many, are
-- refused, and calls from other addresses in between make no difference.
pub allowed-exact :
    (ip : String) (calls : List Call) (ws : List Window) {w : Window}
    → lookup_window (login_key ip) ws ≡ some w
    → All (λ c. c.time < w.reset_at) calls
    → allowed ip calls ws ≡ min (count_by (is_from ip) calls) (10 - w.count)
unfolding allowed consume_login_attempt decide
allowed-exact ip [] ws {w} h k = omega arith
allowed-exact ip (c ∷ calls) ws {w} h k = elim (Bool-cases (same c.ip ip)) [
  | inl e ↦
      let q : c.ip ≡ ip = (same_iff c.ip ip).0 e in
      let next : (lookup_window (login_key ip)
              (hit_window c.time (login_key c.ip) login_window_ms ws).windows
            ≡ some (counted_window w))
          × ((hit_window c.time (login_key c.ip) login_window_ms ws).hit.count ≡ w.count + 1) =
        rw q (hit_self c.time (login_key ip) login_window_ms ws {w = w} h k.0) in
      let rest : allowed ip calls (hit_window c.time (login_key c.ip) login_window_ms ws).windows
          ≡ min (count_by (is_from ip) calls) (10 - (w.count + 1)) =
        allowed-exact ip calls (hit_window c.time (login_key c.ip) login_window_ms ws).windows
          {w = counted_window w} next.0 k.1 in
      rw (e, next.1, rest) (one_more w.count (count_by (is_from ip) calls))
  | inr e ↦
      rw
        (
          e,
          allowed-exact ip calls (hit_window c.time (login_key c.ip) login_window_ms ws).windows
              {w = w}
              (hit_other c.time (login_key ip) (login_key c.ip) login_window_ms ws {w = w} h k.0
                (different c.ip ip e))
              k.1,
        )
        (omega arith)
]
