-- ===== src/Prelude/Text.antt =====
-- Texts that the program only compares: database keys, URLs, paths, slugs.
use Prim.Native.String.{String}
use mathlib.Core.Path.{◌≡◌}
use mathlib.Core.Logic.{◌≢◌}
use mathlib.Core.Bool.{Bool, true, false, ◌||◌}
use mathlib.Core.List.{List, [], ◌∷◌}
use native.Mathlib.Omega.{arith}
use text.Mathlib.TextEquality.{eq_iff}
use text.Mathlib.TextPositions.{eq_refl}
use text.Mathlib.Text.{◌==◌ as str_eq}

-- `a === b` on texts
abbrev pub same : String → String → Bool
same a b = str_eq a b

pub same_iff : (a b : String) → (same a b ≡ true → a ≡ b) × (a ≡ b → same a b ≡ true)
same_iff a b = eq_iff a b

pub same_refl : (a : String) → same a a ≡ true
same_refl a = eq_refl a

pub same-false : (a b : String) → a ≢ b → same a b ≡ false
same-false a b h = ground (arith, eq_iff a b)

pub same_comm : (a b : String) → same a b ≡ same b a
same_comm a b = ground (arith, eq_iff a b, eq_iff b a)

-- `xs.includes(a)`, and membership of a `Set` or of an `in: [...]` filter
abbrev pub includes : List String → String → Bool
includes [] a = false
includes (x ∷ xs) a = same x a || includes xs a
