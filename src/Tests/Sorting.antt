-- ===== src/Tests/Sorting.antt =====
-- A sort that keeps the promise of the language: insertion sort.
use mathlib.Core.List.{Permᴰ}
use mathlib.Core.List.Permᴰ
use pagespeed_auditor.Prelude.{
  ◌≡◌, refl, true, List, [], ◌∷◌, All, Bool-cases, inl, inr, if◌then◌else◌,
}
use pagespeed_auditor.Prelude.Int.{ℤ}
use pagespeed_auditor.Psi.{ExtractedAudit}
use pagespeed_auditor.Psi.Issues.{Sort}
use pagespeed_auditor.Psi.Issues.Ranking.{not_positive, IsConsistent, IsSortedBy, IsSorting}

module _ (cmp : ExtractedAudit → ExtractedAudit → ℤ) where
  insert : ExtractedAudit → List ExtractedAudit → List ExtractedAudit
  insert x [] = x ∷ []
  insert x (y ∷ ys) = if not_positive (cmp x y) then x ∷ y ∷ ys else y ∷ insert x ys

  sort_by : List ExtractedAudit → List ExtractedAudit
  sort_by [] = []
  sort_by (x ∷ xs) = insert x (sort_by xs)

  insert-perm : (x : ExtractedAudit) (ys : List ExtractedAudit) → Permᴰ (insert x ys) (x ∷ ys)
  unfolding insert
  insert-perm x [] = Permᴰ.refl (x ∷ [])
  insert-perm x (y ∷ ys) = elim (Bool-cases (not_positive (cmp x y))) [
    | inl e ↦ rw e (Permᴰ.refl (x ∷ y ∷ ys))
    | inr e ↦ rw e (Permᴰ.trans (Permᴰ.cons refl (insert-perm x ys)) (Permᴰ.swap refl refl))
  ]

  sort_by-perm : (xs : List ExtractedAudit) → Permᴰ (sort_by xs) xs
  unfolding sort_by
  sort_by-perm [] = Permᴰ.nil
  sort_by-perm (x ∷ xs) =
      Permᴰ.trans (insert-perm x (sort_by xs)) (Permᴰ.cons refl (sort_by-perm xs))

  All-insert :
      (P : ExtractedAudit → Type 0) (x : ExtractedAudit) (ys : List ExtractedAudit)
      → P x
      → All P ys
      → All P (insert x ys)
  unfolding insert
  All-insert P x [] p h = (p, tt)
  All-insert P x (y ∷ ys) p h = elim (Bool-cases (not_positive (cmp x y))) [
    | inl e ↦ rw e (p, h)
    | inr e ↦ rw e (h.0, All-insert P x ys p h.1)
  ]

  module _ (consistent : IsConsistent cmp) where
    All-behind :
        (x y : ExtractedAudit) (ys : List ExtractedAudit)
        → not_positive (cmp x y) ≡ true
        → All (λ z. not_positive (cmp y z) ≡ true) ys
        → All (λ z. not_positive (cmp x z) ≡ true) ys
    All-behind x y [] h k = tt
    All-behind x y (z ∷ zs) h k = (consistent.transitive x y z h k.0, All-behind x y zs h k.1)

    insert-IsSortedBy :
        (x : ExtractedAudit) (ys : List ExtractedAudit)
        → IsSortedBy cmp ys
        → IsSortedBy cmp (insert x ys)
    unfolding insert
    insert-IsSortedBy x [] h = (tt, tt)
    insert-IsSortedBy x (y ∷ ys) h = elim (Bool-cases (not_positive (cmp x y))) [
      | inl e ↦ rw e ((e, All-behind x y ys e h.0), h)
      | inr e ↦ rw e (
        All-insert (λ z. not_positive (cmp y z) ≡ true) x ys (consistent.total x y e) h.0,
        insert-IsSortedBy x ys h.1,
      )
    ]

    sort_by-IsSortedBy : (xs : List ExtractedAudit) → IsSortedBy cmp (sort_by xs)
    unfolding sort_by
    sort_by-IsSortedBy [] = tt
    sort_by-IsSortedBy (x ∷ xs) = insert-IsSortedBy x (sort_by xs) (sort_by-IsSortedBy xs)

unfoldable pub insertion_sort : Sort
unfolding sort_by insert
insertion_sort cmp xs = sort_by cmp xs

pub insertion_sort-IsSorting : IsSorting insertion_sort
unfolding insertion_sort
insertion_sort-IsSorting = record {
  sorts = λ cmp consistent xs. sort_by-IsSortedBy cmp consistent xs;
  permutes = λ cmp xs. sort_by-perm cmp xs;
}
