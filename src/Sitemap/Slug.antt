-- ===== src/Sitemap/Slug.antt =====
-- lib/sitemap/group.ts: the group of a page is named by the first segment of its path.
pub mod Stable
use Prim.Native.Char.{Char, code}
use Prim.Native.String
use pagespeed_auditor.Prelude.{
  ℕ, zero, suc, ◌-◌, String, Bool, true, false, not, ◌&&◌, ◌||◌, Option, none, some, List, [], ◌∷◌,
  leb, ◌==◌, if◌then◌else◌, same, or_else, keep,
}

pub record DerivedGroup : Type 0 where
  pub slug : String
  pub name : String

-- `ROOT_GROUP`
abbrev pub root_group : DerivedGroup
root_group = record { slug = "home"; name = "Home" }

-- `toLowerCase`, `toUpperCase` and `decodeURIComponent` of the language, which are arguments. The last
-- throws on a malformed text.
pub record Texts : Type 0 where
  pub lower : String → String
  pub upper : String → String
  pub decode : String → Option String

abbrev pub is_lower : Char → Bool
is_lower c = leb b'a' (code c) && leb (code c) b'z'

abbrev pub is_digit : Char → Bool
is_digit c = leb b'0' (code c) && leb (code c) b'9'

abbrev pub dash : Char
dash = "-"

-- `[a-z0-9]`
abbrev pub is_slug_char : Char → Bool
is_slug_char c = is_lower c || is_digit c

-- `replace(/[^a-z0-9]+/g, '-')`, inside of a run that is replaced or outside.
unfoldable pub replace_runs : (inside : Bool) → String → String
replace_runs inside String.[] = String.[]
replace_runs inside (String.◌∷◌ c s) =
    let rest = replace_runs (not (is_slug_char c)) s in
    if is_slug_char c then String.◌∷◌ c rest else if inside then rest else String.◌∷◌ dash rest

-- `replace(/^-+/, '')`
unfoldable pub strip_leading : String → String
strip_leading String.[] = String.[]
strip_leading (String.◌∷◌ c s) =
    let rest = strip_leading s in if code c == b'-' then rest else String.◌∷◌ c s

abbrev pub end_at : Char → String → String
end_at c String.[] = if code c == b'-' then String.[] else String.◌∷◌ c String.[]
end_at c (String.◌∷◌ d s) = String.◌∷◌ c (String.◌∷◌ d s)

-- `replace(/-+$/, '')`
unfoldable pub strip_trailing : String → String
strip_trailing String.[] = String.[]
strip_trailing (String.◌∷◌ c s) = end_at c (strip_trailing s)

unfoldable pub slugify : Texts → String → String
unfolding replace_runs strip_leading strip_trailing
slugify texts s = strip_trailing (strip_leading (replace_runs false (texts.lower s)))

-- The words between the characters that a test selects, empty ones included: `split`.
abbrev pub add_first : Char → List String → List String
add_first c [] = String.◌∷◌ c String.[] ∷ []
add_first c (w ∷ words) = String.◌∷◌ c w ∷ words

unfoldable pub split_at : (ℕ → Bool) → String → List String
split_at p String.[] = String.[] ∷ []
split_at p (String.◌∷◌ c s) =
    let rest = split_at p s in if p (code c) then String.[] ∷ rest else add_first c rest

-- `filter(Boolean)`
abbrev pub filled : List String → List String
filled words = keep (λ w. not (same w "")) words

abbrev pub is_slash : ℕ → Bool
is_slash c = c == b'/'

abbrev pub is_word_end : ℕ → Bool
is_word_end c = c == b'-' || c == b'_'

abbrev pub capital : Texts → String → String
capital texts String.[] = String.[]
capital texts (String.◌∷◌ c s) = String.◌++◌ (texts.upper (String.◌∷◌ c String.[])) s

pub join_spaces : List String → String
join_spaces [] = String.[]
join_spaces (w ∷ []) = w
join_spaces (w ∷ v ∷ words) = String.◌++◌ w (String.◌++◌ " " (join_spaces (v ∷ words)))

pub capitals : Texts → List String → List String
capitals texts [] = []
capitals texts (w ∷ words) = capital texts w ∷ capitals texts words

unfoldable pub title_case : Texts → String → String
unfolding split_at join_spaces capitals
title_case texts slug = join_spaces (capitals texts (filled (split_at is_word_end slug)))

-- A segment that slugifies to nothing is no usable group.
abbrev pub group_of_slug : Texts → String → DerivedGroup
group_of_slug texts slug =
    if same slug "" then root_group else record { slug = slug; name = title_case texts slug }

-- A segment that cannot be decoded is kept as it is.
abbrev pub group_of_segments : Texts → List String → DerivedGroup
group_of_segments texts [] = root_group
group_of_segments texts (s ∷ segments) =
    group_of_slug texts (slugify texts (or_else (texts.decode s) s))

unfoldable pub derive_group : Texts → (pathname : String) → DerivedGroup
unfolding split_at
derive_group texts pathname = group_of_segments texts (filled (split_at is_slash pathname))
