-- ===== src/Run/Scope.antt =====
-- formatScopeLabel and parseScopeLabel of lib/services/run.service.ts, character by character.
pub mod Shape
use Prim.Native.Char.{Char, code}
use Prim.Native.String
use mathlib.Core.Option
use pagespeed_auditor.Prelude.{
  ℕ, String, Bool, true, false, ◌&&◌, ◌||◌, Option, none, some, List, [], ◌∷◌, leb, ◌==◌,
  if◌then◌else◌, same, or_else,
}
use pagespeed_auditor.Domain.{
  Strategy, mobile, desktop, ScopeKind, site, group, page, pages, retry, RunScope,
}
use pagespeed_auditor.Run.Labels.{strategy_text}

abbrev pub both_strategies : List Strategy
both_strategies = mobile ∷ desktop ∷ []

abbrev pub kind_text : ScopeKind → String
kind_text site = "site"
kind_text group = "group"
kind_text page = "page"
kind_text pages = "pages"
kind_text retry = "retry"

infixr 65 ◌<>◌
abbrev pub ◌<>◌ : String → String → String
s <> t = String.◌++◌ s t

abbrev pub label_suffix : List Strategy → String
label_suffix (s ∷ []) = " (" <> (strategy_text s <> ")")
label_suffix _ = ""

abbrev label_of : ScopeKind → Option String → String → String
label_of site ref suffix = "site" <> suffix
label_of kind ref suffix = kind_text kind <> (":" <> (or_else ref "null" <> suffix))

-- A template writes a missing `ref` as "null".
unfoldable pub format_scope_label : RunScope → String
format_scope_label scope = label_of scope.kind scope.ref (label_suffix scope.strategies)

-- The white space that `trim` and `\s` take.
abbrev pub is_space : ℕ → Bool
is_space c =
    leb 9 c && leb c 13
    || c == 32
    || c == 160
    || c == 5760
    || leb 8192 c && leb c 8202
    || c == 8232
    || c == 8233
    || c == 8239
    || c == 8287
    || c == 12288
    || c == 65279

unfoldable pub trim_start : String → String
trim_start String.[] = String.[]
trim_start (String.◌∷◌ c s) = elim (is_space (code c)) [
  | true ↦ trim_start s
  | false ↦ String.◌∷◌ c s
]

abbrev pub end_with : Char → String → String
end_with c String.[] = if is_space (code c) then String.[] else String.◌∷◌ c String.[]
end_with c (String.◌∷◌ d s) = String.◌∷◌ c (String.◌∷◌ d s)

unfoldable pub trim_end : String → String
trim_end String.[] = String.[]
trim_end (String.◌∷◌ c s) = end_with c (trim_end s)

unfoldable pub trim : String → String
unfolding trim_start trim_end
trim s = trim_end (trim_start s)

-- What stands before the given ending.
unfoldable pub strip_suffix : String → String → Option String
strip_suffix ending String.[] = if same String.[] ending then some String.[] else none
strip_suffix ending (String.◌∷◌ c s) =
    if same (String.◌∷◌ c s) ending
    then some String.[]
    else Option.map (String.◌∷◌ c) (strip_suffix ending s)

-- What stands before and behind the first colon.
unfoldable pub split_colon : String → Option (String × String)
split_colon String.[] = none
split_colon (String.◌∷◌ c s) =
    if code c == b':'
    then some (String.[], s)
    else Option.map (λ (r : String × String). (String.◌∷◌ c r.0, r.1)) (split_colon s)

-- The suffix that the regular expression finds, with the text before it. The text is trimmed, so
-- nothing stands behind the suffix.
unfoldable pub strategy_match : String → List Strategy × String
unfolding strip_suffix
strategy_match raw = elim (strip_suffix "(mobile)" raw) [
  | some head ↦ (mobile ∷ [], head)
  | none ↦ elim (strip_suffix "(desktop)" raw) [
    | some head ↦ (desktop ∷ [], head)
    | none ↦ (both_strategies, raw)
  ]
]

abbrev pub whole_site : List Strategy → RunScope
whole_site strategies = record { kind = site; ref = none; strategies = strategies }

-- A known kind, with a reference that is not empty.
abbrev pub scope_of : List Strategy → String → String → RunScope
scope_of strategies kind ref =
    if same ref ""
    then whole_site strategies
    else if same kind "group"
    then record { kind = group; ref = some ref; strategies = strategies }
    else if same kind "page"
    then record { kind = page; ref = some ref; strategies = strategies }
    else if same kind "pages"
    then record { kind = pages; ref = some ref; strategies = strategies }
    else whole_site strategies

abbrev pub parse_head : List Strategy → Option (String × String) → RunScope
parse_head strategies none = whole_site strategies
parse_head strategies (some (kind, ref)) = scope_of strategies kind (trim ref)

unfoldable pub parse_scope_label : Option String → RunScope
unfolding trim strategy_match split_colon
parse_scope_label label =
    let found = strategy_match (trim (or_else label "")) in
    parse_head found.0 (split_colon (trim found.1))

-- `ref.split(',').filter(Boolean)`
abbrev pub add_char : Char → List String → List String
add_char c [] = String.◌∷◌ c String.[] ∷ []
add_char c (s ∷ parts) = String.◌∷◌ c s ∷ parts

unfoldable pub split_commas : String → List String
split_commas String.[] = String.[] ∷ []
split_commas (String.◌∷◌ c s) =
    if code c == b',' then String.[] ∷ split_commas s else add_char c (split_commas s)
