-- ===== src/Run/Owed.antt =====
-- How many pairs a resumed run still owes: the size of diffMissingPairs of run.service.ts.
use pagespeed_auditor.Prelude.{
  suc, refl, sym, ◌∙◌, ◌+◌, ◌≤◌, String, ◌≡◌, inl, inr, Bool, not, List, [], ◌∷◌, map, arith,
  length, includes, count_by, length-keep, All, Bool-cases, same, same_iff,
}
use pagespeed_auditor.Domain.{Strategy, AuditPair}
use pagespeed_auditor.Run.Labels.{pair_key}
use pagespeed_auditor.Run.{diff_missing_pairs}
use pagespeed_auditor.Run.Missing.{pair_key_injective}

-- No two of the pairs are of one page and one strategy.
abbrev pub Distinct : List AuditPair → Type 0
Distinct [] = Unit
Distinct (p ∷ ps) =
    All (λ (q : AuditPair). ¬ ((p.page_id ≡ q.page_id) × (p.strategy ≡ q.strategy))) ps
    × Distinct ps

abbrev owed : List String → AuditPair → Bool
owed taken p = not (includes taken (pair_key p.page_id p.strategy))

-- A key that none of the pairs has takes none of them away.
count-owed_absent :
    (d : String) (taken : List String) (ps : List AuditPair)
    → All (λ (q : AuditPair). ¬ (d ≡ pair_key q.page_id q.strategy)) ps
    → count_by (owed (d ∷ taken)) ps ≡ count_by (owed taken) ps
count-owed_absent d taken [] h = refl
count-owed_absent d taken (q ∷ ps) h =
    ground (arith, count-owed_absent d taken ps h.1, same_iff d (pair_key q.page_id q.strategy))

absent_of_first :
    (p : AuditPair) (ps : List AuditPair) (d : String)
    → d ≡ pair_key p.page_id p.strategy
    → All (λ (q : AuditPair). ¬ ((p.page_id ≡ q.page_id) × (p.strategy ≡ q.strategy))) ps
    → All (λ (q : AuditPair). ¬ (d ≡ pair_key q.page_id q.strategy)) ps
absent_of_first p [] d e h = tt
absent_of_first p (q ∷ ps) d e h = (
  λ k. h.0 (pair_key_injective p.page_id q.page_id p.strategy q.strategy (sym e ∙ k)),
  absent_of_first p ps d e h.1,
)

-- One more key takes away at most one of the pairs.
count-owed :
    (d : String) (taken : List String) (ps : List AuditPair)
    → Distinct ps
    → count_by (owed taken) ps ≤ suc (count_by (owed (d ∷ taken)) ps)
count-owed d taken [] h = omega arith
count-owed d taken (p ∷ ps) h = elim (Bool-cases (same d (pair_key p.page_id p.strategy))) [
  | inl here ↦
      let away =
        count-owed_absent d taken ps
          (absent_of_first p ps d ((same_iff d (pair_key p.page_id p.strategy)).0 here) h.0) in
      ground (arith, away)
  | inr other ↦ ground (arith, count-owed d taken ps h.1)
]

count-owed_all :
    (taken : List String) (ps : List AuditPair)
    → Distinct ps
    → length ps ≤ count_by (owed taken) ps + length taken
count-owed_all [] [] h = omega arith
count-owed_all [] (p ∷ ps) h = omega (arith, count-owed_all [] ps h.1)
count-owed_all (d ∷ taken) ps h = omega (arith, count-owed_all taken ps h, count-owed d taken ps h)

pub length-map : {A B : Type 0} (f : A → B) (xs : List A) → length (map f xs) ≡ length xs
length-map f [] = refl
length-map f (x ∷ xs) = omega (arith, length-map f xs)

-- Of distinct expected pairs, at most one is taken off for each existing result.
pub length-diff_missing_pairs :
    (expected : List AuditPair) (existing : List (String × Strategy))
    → Distinct expected
    → length expected ≤ length (diff_missing_pairs expected existing) + length existing
unfolding diff_missing_pairs
length-diff_missing_pairs expected existing h =
    let keys = map (λ (e : String × Strategy). pair_key e.0 e.1) existing in
    omega (
      arith,
      count-owed_all keys expected h,
      length-keep (owed keys) expected,
      length-map (λ (e : String × Strategy). pair_key e.0 e.1) existing,
    )
