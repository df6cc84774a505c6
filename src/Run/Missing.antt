-- ===== src/Run/Missing.antt =====
-- Which pairs a resumed run dispatches: pairKey and diffMissingPairs of run.service.ts.
use Prim.Native.Char.{code}
use text.Mathlib.TextLemmas.{cons-append, append_cancel_right}
use pagespeed_auditor.Prelude.{
  ℕ, String, ◌≡◌, refl, sym, ◌∙◌, ◌↔◌, inl, inr, not, List, [], ◌∷◌, map, arith, includes, In,
  Bool-cases, includes_of_In, In-of_includes, In-of_keep, In-keep, ap,
}
use pagespeed_auditor.Domain.{Strategy, mobile, desktop, AuditPair}
use pagespeed_auditor.Run.Labels.{strategy_text, pair_key}
use pagespeed_auditor.Run.{diff_missing_pairs}

last_code : ℕ → String → ℕ
last_code d String.[] = d
last_code d (String.◌∷◌ c s) = last_code (code c) s

last_code-pair_key :
    (d : ℕ) (p : String) (s : Strategy) → last_code d (pair_key p s) ≡ last_code 0 (strategy_text s)
unfolding last_code pair_key
last_code-pair_key d String.[] mobile = refl
last_code-pair_key d String.[] desktop = refl
last_code-pair_key d (String.◌∷◌ c p) mobile = rw cons-append (last_code-pair_key (code c) p mobile)
last_code-pair_key d (String.◌∷◌ c p) desktop =
    rw cons-append (last_code-pair_key (code c) p desktop)

-- The key names one page and one strategy, whatever characters the page's id holds.
pub pair_key_injective :
    (p q : String) (s t : Strategy) → pair_key p s ≡ pair_key q t → (p ≡ q) × (s ≡ t)
unfolding last_code pair_key
pair_key_injective p q mobile mobile e = (append_cancel_right p q " mobile" e, refl)
pair_key_injective p q desktop desktop e = (append_cancel_right p q " desktop" e, refl)
pair_key_injective p q mobile desktop e =
    let k : last_code 0 (pair_key p mobile) ≡ last_code 0 (pair_key q desktop) =
      ap (last_code 0) e in
    absurd (omega (arith, sym (last_code-pair_key 0 p mobile) ∙ k ∙ last_code-pair_key 0 q desktop))
pair_key_injective p q desktop mobile e =
    let k : last_code 0 (pair_key p desktop) ≡ last_code 0 (pair_key q mobile) =
      ap (last_code 0) e in
    absurd (omega (arith, sym (last_code-pair_key 0 p desktop) ∙ k ∙ last_code-pair_key 0 q mobile))

abbrev key_at : String × Strategy → String
key_at e = pair_key e.0 e.1

In-map-key :
    (e : String × Strategy) (xs : List (String × Strategy))
    → In e xs
    → In (key_at e) (map key_at xs)
In-map-key e [] m = m
In-map-key e (x ∷ xs) (inl h) = inl (ap key_at h)
In-map-key e (x ∷ xs) (inr m) = inr (In-map-key e xs m)

In-of_map-key :
    (e : String × Strategy) (xs : List (String × Strategy))
    → In (key_at e) (map key_at xs)
    → In e xs
In-of_map-key e [] m = m
In-of_map-key e (x ∷ xs) (inl h) =
    let (same_page, same_form) = pair_key_injective e.0 x.0 e.1 x.1 h in
    inl (λ i. (same_page i, same_form i))
In-of_map-key e (x ∷ xs) (inr m) = inr (In-of_map-key e xs m)

-- A resume dispatches exactly the expected pairs that have no result: a pair is among the missing
-- ones if and only if it is expected and no existing result is of its page and strategy.
pub In-diff_missing_pairs :
    (p : AuditPair) (expected : List AuditPair) (existing : List (String × Strategy))
    → In p (diff_missing_pairs expected existing)
      ↔ (In p expected × (¬ In (p.page_id, p.strategy) existing))
unfolding diff_missing_pairs
In-diff_missing_pairs p expected existing = (to, from)
  where
    to :
        In p (diff_missing_pairs expected existing)
        → In p expected × (¬ In (p.page_id, p.strategy) existing)
    to m =
        let r =
          In-of_keep
            (λ (q : AuditPair).
              not (includes (map key_at existing) (pair_key q.page_id q.strategy)))
            p expected m in
        (
          r.0,
          λ found.
              let k = includes_of_In _ _ (In-map-key (p.page_id, p.strategy) existing found) in
              cc (k, r.1),
        )

    from :
        In p expected × (¬ In (p.page_id, p.strategy) existing)
        → In p (diff_missing_pairs expected existing)
    from (m, absent) =
        In-keep
          (λ (q : AuditPair). not (includes (map key_at existing) (pair_key q.page_id q.strategy)))
          p expected m
          (elim (Bool-cases (includes (map key_at existing) (pair_key p.page_id p.strategy))) [
            | inl h ↦
                absurd
                  (absent (In-of_map-key (p.page_id, p.strategy) existing (In-of_includes _ _ h)))
            | inr h ↦ rw h
          ])
