-- ===== src/Sitemap/Slug/Stable.antt =====
-- A slug is a fixed point of slugify, so a group keeps its slug when its path is read again.
use Prim.Native.Char.{Char, code}
use pagespeed_auditor.Prelude.{
  String, ◌≡◌, ◌⊎◌, refl, Bool, true, false, some, [], ◌∷◌, arith, ◌==◌, same, Bool-cases, inl, inr,
}
use pagespeed_auditor.Sitemap.Slug.{
  Texts, dash, is_slug_char, replace_runs, strip_leading, end_at, strip_trailing, slugify,
}

-- Letters and digits with single dashes between them; the flag says that a dash came before.
abbrev pub IsChained : (after_dash : Bool) → String → Type 0
IsChained b String.[] = Unit
IsChained b (String.◌∷◌ c s) =
    ((is_slug_char c ≡ true) × IsChained false s) ⊎ ((c ≡ dash) × (b ≡ false) × IsChained true s)

replace_runs-IsChained : (inside : Bool) (s : String) → IsChained inside (replace_runs inside s)
unfolding replace_runs
replace_runs-IsChained inside String.[] = tt
replace_runs-IsChained true (String.◌∷◌ c s) = elim (Bool-cases (is_slug_char c)) [
  | inl e ↦ rw e (inl (e, replace_runs-IsChained false s))
  | inr e ↦ rw e (replace_runs-IsChained true s)
]
replace_runs-IsChained false (String.◌∷◌ c s) = elim (Bool-cases (is_slug_char c)) [
  | inl e ↦ rw e (inl (e, replace_runs-IsChained false s))
  | inr e ↦ rw e (inr (refl, refl, replace_runs-IsChained true s))
]

IsChained-weaken : (s : String) → IsChained true s → IsChained false s
IsChained-weaken String.[] h = tt
IsChained-weaken (String.◌∷◌ c s) (inl h) = inl h
IsChained-weaken (String.◌∷◌ c s) (inr (d, n, h)) = absurd (ground (arith, n))

strip_leading-IsChained : (s : String) → IsChained false s → IsChained true (strip_leading s)
unfolding strip_leading
strip_leading-IsChained String.[] h = tt
strip_leading-IsChained (String.◌∷◌ c s) (inl h) = elim (Bool-cases (code c == b'-')) [
  | inl e ↦ rw e (strip_leading-IsChained s h.1)
  | inr e ↦ rw e (inl h)
]
strip_leading-IsChained (String.◌∷◌ c s) (inr (d, n, h)) =
    rw d (strip_leading-IsChained s (IsChained-weaken s h))

end_at-IsChained :
    (b : Bool) (c : Char) (t : String)
    → ((is_slug_char c ≡ true) × IsChained false t) ⊎ ((c ≡ dash) × (b ≡ false) × IsChained true t)
    → IsChained b (end_at c t)
end_at-IsChained b c String.[] h = elim (Bool-cases (code c == b'-')) [
  | inl e ↦ rw e tt
  | inr e ↦ rw e h
]
end_at-IsChained b c (String.◌∷◌ d t) h = h

strip_trailing-IsChained : (b : Bool) (s : String) → IsChained b s → IsChained b (strip_trailing s)
unfolding strip_trailing
strip_trailing-IsChained b String.[] h = tt
strip_trailing-IsChained b (String.◌∷◌ c s) (inl h) =
    end_at-IsChained b c (strip_trailing s) (inl (h.0, strip_trailing-IsChained false s h.1))
strip_trailing-IsChained b (String.◌∷◌ c s) (inr (d, n, h)) =
    end_at-IsChained b c (strip_trailing s) (inr (d, n, strip_trailing-IsChained true s h))

-- What is documented of the language: a text of lower-case letters, digits and dashes is its own lower
-- case, and decodes to itself.
pub record IsPlain (texts : Texts) : Type 0 where
  pub lowered : (t : String) → IsChained true t → texts.lower t ≡ t
  pub decoded : (t : String) → IsChained true t → texts.decode t ≡ some t

pub slugify-IsChained : (texts : Texts) (s : String) → IsChained true (slugify texts s)
unfolding slugify
slugify-IsChained texts s =
    strip_trailing-IsChained true (strip_leading (replace_runs false (texts.lower s))) (
      strip_leading-IsChained (replace_runs false (texts.lower s))
        (replace_runs-IsChained false (texts.lower s)))

-- A slug as it is derived: chained, without a dash at its end, and not empty.
abbrev pub IsSlug : String → Type 0
IsSlug s = IsChained true s × (strip_trailing s ≡ s) × (same s "" ≡ false)
