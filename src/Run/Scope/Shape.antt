-- ===== src/Run/Scope/Shape.antt =====
-- What parseScopeLabel of lib/services/run.service.ts can return.
use pagespeed_auditor.Prelude.{
  String, ◌≡◌, ◌≢◌, ◌↔◌, refl, false, Option, none, some, List, arith, Bool-cases, inl, inr, same,
  same_iff, or_else,
}
use pagespeed_auditor.Domain.{Strategy, ScopeKind, site, group, page, pages, retry, RunScope}
use pagespeed_auditor.Run.Scope.{
  whole_site, scope_of, parse_head, parse_scope_label, trim, strategy_match, split_colon,
}

-- A scope that is read from a label: never a retry, with a reference exactly if it is not the whole
-- site, and never an empty one.
abbrev pub IsRead : RunScope → Type 0
IsRead s = (s.kind ≢ retry) × ((s.kind ≡ site) ↔ (s.ref ≡ none)) × (s.ref ≢ some "")

whole_site-IsRead : (strategies : List Strategy) → IsRead (whole_site strategies)
whole_site-IsRead strategies = ((λ e. cc), ((λ e. refl), λ e. refl), λ e. cc)

with_ref-IsRead :
    (kind : ScopeKind) (ref : String) (strategies : List Strategy)
    → kind ≢ retry
    → kind ≢ site
    → same ref "" ≡ false
    → IsRead (record { kind = kind; ref = some ref; strategies = strategies })
with_ref-IsRead kind ref strategies r s e =
    (r, ((λ k. absurd (s k)), λ k. cc), λ k. ground (arith, same_iff ref ""))

scope_of-IsRead :
    (strategies : List Strategy) (kind ref : String) → IsRead (scope_of strategies kind ref)
scope_of-IsRead strategies kind ref = elim (Bool-cases (same ref "")) [
  | inl e ↦ rw (e, IsRead) (whole_site-IsRead strategies)
  | inr e ↦ elim (Bool-cases (same kind "group")) [
    | inl g ↦ rw (e, g, IsRead) (with_ref-IsRead group ref strategies (λ k. cc) (λ k. cc) e)
    | inr g ↦ elim (Bool-cases (same kind "page")) [
      | inl p ↦ rw (e, g, p, IsRead) (with_ref-IsRead page ref strategies (λ k. cc) (λ k. cc) e)
      | inr p ↦ elim (Bool-cases (same kind "pages")) [
        | inl q ↦
            rw (e, g, p, q, IsRead) (with_ref-IsRead pages ref strategies (λ k. cc) (λ k. cc) e)
        | inr q ↦ rw (e, g, p, q, IsRead) (whole_site-IsRead strategies)
      ]
    ]
  ]
]

parse_head-IsRead :
    (strategies : List Strategy) (o : Option (String × String)) → IsRead (parse_head strategies o)
parse_head-IsRead strategies none = whole_site-IsRead strategies
parse_head-IsRead strategies (some (kind, ref)) = scope_of-IsRead strategies kind (trim ref)

-- Whatever the label, the scope that is read from it is never that of a retry, so the label of a
-- retry run is not read back; it has a reference exactly if it is not the whole site, and never an
-- empty one.
pub parse_scope_label-IsRead : (label : Option String) → IsRead (parse_scope_label label)
unfolding parse_scope_label
parse_scope_label-IsRead label =
    let found = strategy_match (trim (or_else label "")) in
    parse_head-IsRead found.0 (split_colon (trim found.1))
