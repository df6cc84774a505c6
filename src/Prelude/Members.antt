-- ===== src/Prelude/Members.antt =====
-- Membership in a list, in a filtered list, and by the Boolean test on texts.
use Prim.Native.String.{String}
use mathlib.Core.Path.{◌≡◌, sym}
use mathlib.Core.Logic.{inl, inr}
use mathlib.Core.Bool.{Bool, true}
use mathlib.Core.List.{List, [], ◌∷◌}
use native.Mathlib.Omega.{arith}
use pagespeed_auditor.Prelude.Tests.{Bool-cases}
use pagespeed_auditor.Prelude.Lists.{keep, In}
use pagespeed_auditor.Prelude.Text.{same, same_iff, includes}

pub includes_of_In : (a : String) (xs : List String) → In a xs → includes xs a ≡ true
includes_of_In a [] m = elim m [ ]
includes_of_In a (x ∷ xs) (inl e) = ground (arith, same_iff x a)
includes_of_In a (x ∷ xs) (inr m) = ground (arith, includes_of_In a xs m)

pub In-of_includes : (a : String) (xs : List String) → includes xs a ≡ true → In a xs
In-of_includes a [] h = cc
In-of_includes a (x ∷ xs) h = elim (Bool-cases (same x a)) [
  | inl e ↦ inl (sym ((same_iff x a).0 e))
  | inr e ↦ inr (In-of_includes a xs (rw e at h))
]

pub In-of_keep :
    {A : Type 0} (p : A → Bool) (a : A) (xs : List A) → In a (keep p xs) → In a xs × (p a ≡ true)
In-of_keep p a [] m = elim m [ ]
In-of_keep p a (x ∷ xs) m = elim (Bool-cases (p x)) [
  | inl e ↦ elim (rw e at m) [
    | inl here ↦ (inl here, rw here e)
    | inr later ↦ let r = In-of_keep p a xs later in (inr r.0, r.1)
  ]
  | inr e ↦ let r = In-of_keep p a xs (rw e at m) in (inr r.0, r.1)
]

pub In-keep :
    {A : Type 0} (p : A → Bool) (a : A) (xs : List A) → In a xs → p a ≡ true → In a (keep p xs)
In-keep p a [] m h = m
In-keep p a (x ∷ xs) (inl e) h = let k : p x ≡ true = rw (← e) h in rw k (inl e)
In-keep p a (x ∷ xs) (inr m) h = elim (Bool-cases (p x)) [
  | inl e ↦ rw e (inr (In-keep p a xs m h))
  | inr e ↦ rw e (In-keep p a xs m h)
]
