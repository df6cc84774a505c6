-- ===== src/Psi/Issues/Ranking.antt =====
-- The order of the extracted audits: the comparator of the sort at the end of extractAudits, and
-- what the sort of the language promises for it.
use mathlib.Core.List.{Permᴰ}
use pagespeed_auditor.Prelude.{
  ◌<◌, ◌≤◌, ◌≡◌, ◌⊎◌, true, false, Bool, List, [], ◌∷◌, arith, All, or_else, inl, inr, ◌==◌,
}
use pagespeed_auditor.Prelude.Int.{ℤ, pos, negsuc}
use pagespeed_auditor.Psi.{ExtractedAudit}
use pagespeed_auditor.Psi.Issues.{Sort, compare_issues, sort_issues}

-- A comparator's answer that does not put the first argument behind the second.
abbrev pub not_positive : ℤ → Bool
not_positive (pos n) = n == 0
not_positive (negsuc n) = true

-- The language asks a comparator to be consistent, and then sorts by it.
pub record IsConsistent (cmp : ExtractedAudit → ExtractedAudit → ℤ) : Type 0 where
  pub total :
      (x y : ExtractedAudit) → not_positive (cmp x y) ≡ false → not_positive (cmp y x) ≡ true
  pub transitive :
      (x y z : ExtractedAudit)
      → not_positive (cmp x y) ≡ true
      → not_positive (cmp y z) ≡ true
      → not_positive (cmp x z) ≡ true

abbrev pub IsSortedBy : (ExtractedAudit → ExtractedAudit → ℤ) → List ExtractedAudit → Type 0
IsSortedBy cmp [] = Unit
IsSortedBy cmp (x ∷ xs) = All (λ y. not_positive (cmp x y) ≡ true) xs × IsSortedBy cmp xs

-- What is documented of the sort: its result has the same entries, each before those that a
-- consistent comparator puts behind it.
pub record IsSorting (sort : Sort) : Type 0 where
  pub sorts :
      (cmp : ExtractedAudit → ExtractedAudit → ℤ)
      → IsConsistent cmp
      → (xs : List ExtractedAudit) → IsSortedBy cmp (sort cmp xs)
  pub permutes :
      (cmp : ExtractedAudit → ExtractedAudit → ℤ) (xs : List ExtractedAudit)
      → Permᴰ (sort cmp xs) xs

-- The order of a report: an issue with more savings, and of equal savings the lower score. No savings
-- count as 0, and no score as a full one.
abbrev pub Outranks : ExtractedAudit → ExtractedAudit → Type 0
Outranks x y =
    (or_else y.savings_ms 0 < or_else x.savings_ms 0)
    ⊎ ((or_else x.savings_ms 0 ≡ or_else y.savings_ms 0)
        × (or_else x.score 1000 ≤ or_else y.score 1000))

abbrev pub IsRanked : List ExtractedAudit → Type 0
IsRanked [] = Unit
IsRanked (x ∷ xs) = All (λ y. Outranks x y) xs × IsRanked xs

Outranks-of_compare :
    (x y : ExtractedAudit) → not_positive (compare_issues x y) ≡ true → Outranks x y
unfolding compare_issues
Outranks-of_compare x y h = ground arith

compare-of_Outranks :
    (x y : ExtractedAudit) → Outranks x y → not_positive (compare_issues x y) ≡ true
unfolding compare_issues
compare-of_Outranks x y (inl h) = ground arith
compare-of_Outranks x y (inr h) = ground arith

Outranks-total : (x y : ExtractedAudit) → not_positive (compare_issues x y) ≡ false → Outranks y x
unfolding compare_issues
Outranks-total x y h = ground arith

Outranks-trans : (x y z : ExtractedAudit) → Outranks x y → Outranks y z → Outranks x z
Outranks-trans x y z (inl h) (inl k) = inl (omega arith)
Outranks-trans x y z (inl h) (inr k) = inl (omega arith)
Outranks-trans x y z (inr h) (inl k) = inl (omega arith)
Outranks-trans x y z (inr h) (inr k) = inr (omega arith, omega arith)

compare_issues-IsConsistent : IsConsistent compare_issues
compare_issues-IsConsistent = record {
  total = λ x y h. compare-of_Outranks y x (Outranks-total x y h);
  transitive = λ x y z h k.
      compare-of_Outranks x z
        (Outranks-trans x y z (Outranks-of_compare x y h) (Outranks-of_compare y z k));
}

All-Outranks :
    (x : ExtractedAudit) (ys : List ExtractedAudit)
    → All (λ y. not_positive (compare_issues x y) ≡ true) ys
    → All (λ y. Outranks x y) ys
All-Outranks x [] h = tt
All-Outranks x (y ∷ ys) h = (Outranks-of_compare x y h.0, All-Outranks x ys h.1)

IsRanked-of_IsSortedBy : (xs : List ExtractedAudit) → IsSortedBy compare_issues xs → IsRanked xs
IsRanked-of_IsSortedBy [] h = tt
IsRanked-of_IsSortedBy (x ∷ xs) h = (All-Outranks x xs h.0, IsRanked-of_IsSortedBy xs h.1)

pub All-Perm :
    (P : ExtractedAudit → Type 0) (xs ys : List ExtractedAudit) → Permᴰ xs ys → All P ys → All P xs
All-Perm P xs ys Permᴰ.nil h = tt
All-Perm P xs ys (Permᴰ.cons e p) h = (rw e h.0, All-Perm P _ _ p h.1)
All-Perm P xs ys (Permᴰ.swap e k) h = (rw e h.1.0, (rw k h.0, h.1.1))
All-Perm P xs ys (Permᴰ.trans p q) h = All-Perm P _ _ p (All-Perm P _ _ q h)

-- The comparator of extractAudits is consistent, so a sort that keeps the promise of the language
-- puts the issues of a report in order: the issues are the ones that were found, those with the
-- largest savings stand first, and of equal savings the one with the lower score.
pub sort_issues-IsRanked :
    (sort : Sort) (xs : List ExtractedAudit)
    → IsSorting sort
    → IsRanked (sort_issues sort xs) × Permᴰ (sort_issues sort xs) xs
unfolding sort_issues
sort_issues-IsRanked sort xs lawful = (
  IsRanked-of_IsSortedBy (sort compare_issues xs)
      (lawful.sorts compare_issues compare_issues-IsConsistent xs),
  lawful.permutes compare_issues xs,
)
