-- ===== src/Groups/Aliases.antt =====
-- What the slugs of the past resolve to after an edit of the groups.
use pagespeed_auditor.Prelude.{
  ◌≢◌, ◌⊎◌, ap, sym, same-false, same_refl, In, String, Bool, true, false, not, ◌≡◌, refl, Option,
  none, some, List, [], ◌∷◌, if◌then◌else◌, same, same_iff, arith, includes, keep, find, any,
  update_first, update_where, All, Bool-cases, inl, inr,
}
use mathlib.Core.Option
use mathlib.Core.Path.{subst}
use pagespeed_auditor.Tables.{Page, Group, GroupAlias, Tenant}
use pagespeed_auditor.Groups.{
  rename_group, upsert_alias, alias_target, alias_all, is_source, repointed, merge_into,
  merge_groups, Merged, in_group, moved_page, merge_sources, merge_some, has_group_id, takes_slug,
  renamed,
}

alias_target-upsert_alias :
    (slug other target : String) (aliases : List GroupAlias)
    → alias_target other (upsert_alias slug target aliases)
      ≡ (if same slug other then some target else alias_target other aliases)
unfolding alias_target upsert_alias
alias_target-upsert_alias slug other target [] = refl
alias_target-upsert_alias slug other target (a ∷ aliases) = ground (
  arith,
  same_iff a.slug slug,
  same_iff a.slug other,
  same_iff slug other,
  alias_target-upsert_alias slug other target aliases,
)

-- One of the groups has the slug.
abbrev pub names_slug : String → List Group → Bool
names_slug slug groups = any (λ g. same g.slug slug) groups

alias_target-alias_all :
    (slug target : String) (groups : List Group) (aliases : List GroupAlias)
    → alias_target slug (alias_all target groups aliases)
      ≡ (if names_slug slug groups then some target else alias_target slug aliases)
unfolding alias_all
alias_target-alias_all slug target [] aliases = refl
alias_target-alias_all slug target (g ∷ groups) aliases = ground (
  arith,
  alias_target-alias_all slug target groups (upsert_alias g.slug target aliases),
  alias_target-upsert_alias g.slug slug target aliases,
)

-- Where an alias points after a merge.
abbrev pub repoint : List String → String → String → String
repoint sources target id = if includes sources id then target else id

alias_target-update_where :
    (slug target : String) (sources : List String) (aliases : List GroupAlias)
    → alias_target slug (update_where (λ a. includes sources a.group_id) (repointed target) aliases)
      ≡ Option.map (repoint sources target) (alias_target slug aliases)
unfolding alias_target
alias_target-update_where slug target sources [] = refl
alias_target-update_where slug target sources (a ∷ aliases) =
    ground (arith, alias_target-update_where slug target sources aliases)

-- What a merge leaves: no page in a source, no source among the groups, and each slug resolving as
-- described.
pub record IsMerged (sources : List String) (target : String) (before after : Tenant) : Type 0 where
  pub pages : All (λ p. in_group sources p.group_id ≡ false) after.pages
  pub groups : All (λ g. is_source sources g ≡ false) after.groups
  pub aliases :
      (slug : String)
      → alias_target slug after.aliases ≡ (
          if names_slug slug (keep (is_source sources) before.groups)
          then some target
          else Option.map (repoint sources target) (alias_target slug before.aliases))

target_free :
    (ids : List String) (target : String) → includes (merge_sources ids target) target ≡ false
target_free [] target = refl
target_free (id ∷ ids) target = ground (arith, same_iff id target, target_free ids target)

moved-free :
    (sources : List String) (target : String) (pages : List Page)
    → includes sources target ≡ false
    → All
        (λ p. in_group sources p.group_id ≡ false)
        (update_where (λ p. in_group sources p.group_id) (moved_page target) pages)
moved-free sources target [] h = tt
moved-free sources target (p ∷ pages) h = elim (Bool-cases (in_group sources p.group_id)) [
  | inl e ↦ rw e (h, moved-free sources target pages h)
  | inr e ↦ rw e (e, moved-free sources target pages h)
]

kept-free :
    (sources : List String) (groups : List Group)
    → All (λ g. is_source sources g ≡ false) (keep (λ g. not (is_source sources g)) groups)
kept-free sources [] = tt
kept-free sources (g ∷ groups) = elim (Bool-cases (is_source sources g)) [
  | inl e ↦ rw e (kept-free sources groups)
  | inr e ↦ rw e (e, kept-free sources groups)
]

merged_aliases :
    (sources : List String) (target slug : String) (before : Tenant)
    → includes sources target ≡ false
    → alias_target slug (
        update_where
          (λ a. includes sources a.group_id)
          (repointed target)
          (alias_all target (keep (is_source sources) before.groups) before.aliases))
      ≡ (if names_slug slug (keep (is_source sources) before.groups)
          then some target
          else Option.map (repoint sources target) (alias_target slug before.aliases))
merged_aliases sources target slug before h =
    rw
      (
        alias_target-update_where slug target sources
            (alias_all target (keep (is_source sources) before.groups) before.aliases),
        alias_target-alias_all slug target (keep (is_source sources) before.groups) before.aliases,
      )
      (elim (Bool-cases (names_slug slug (keep (is_source sources) before.groups))) [
        | inl e ↦ rw e (rw h refl)
        | inr e ↦ rw e refl
      ])

in_none : (o : Option String) → in_group [] o ≡ false
in_none none = refl
in_none (some id) = refl

no_page : (pages : List Page) → All (λ p. in_group [] p.group_id ≡ false) pages
no_page [] = tt
no_page (p ∷ pages) = (in_none p.group_id, no_page pages)

no_group : (groups : List Group) → All (λ g. is_source [] g ≡ false) groups
no_group [] = tt
no_group (g ∷ groups) = (refl, no_group groups)

no_source : (groups : List Group) → keep (is_source []) groups ≡ []
no_source [] = refl
no_source (g ∷ groups) = no_source groups

repoint_none : (target : String) (o : Option String) → o ≡ Option.map (repoint [] target) o
repoint_none target none = refl
repoint_none target (some id) = refl

merge_some-IsMerged :
    (sources : List String) (target : String) (db : Tenant)
    → includes sources target ≡ false
    → any (has_group_id target) db.groups ≡ true
    → (m : Merged) × (merge_some sources target db ≡ some m) × IsMerged sources target db m.db
unfolding merge_into
merge_some-IsMerged [] target db free h = (
  _,
  refl,
  record {
    pages = no_page db.pages;
    groups = no_group db.groups;
    aliases = λ slug. rw (no_source db.groups) (repoint_none target (alias_target slug db.aliases));
  },
)
merge_some-IsMerged (s ∷ sources) target db free h = rw h (
  _,
  refl,
  record {
    pages = moved-free (s ∷ sources) target db.pages free;
    groups =
        kept-free (s ∷ sources)
          (update_first (has_group_id target) (λ g. record g { is_manual = true }) db.groups);
    aliases = λ slug. merged_aliases (s ∷ sources) target slug db free;
  },
)

-- A merge of groups succeeds when the target exists. Then no page belongs to a source, no source
-- is left, the slug of every source that existed resolves to the target, an alias that pointed at a
-- source points at the target, and every other slug resolves as before. The target may stand among
-- the ids that are given; it is no source then.
pub merge_groups-IsMerged :
    (ids : List String) (target : String) (db : Tenant)
    → any (has_group_id target) db.groups ≡ true
    → (m : Merged) × (merge_groups ids target db ≡ some m)
      × IsMerged (merge_sources ids target) target db m.db
unfolding merge_groups
merge_groups-IsMerged ids target db h =
    merge_some-IsMerged (merge_sources ids target) target db (target_free ids target) h

find_group-id :
    (id : String) (groups : List Group) {g : Group}
    → find (has_group_id id) groups ≡ some g
    → g.id ≡ id
find_group-id id [] {g} h = ground arith
find_group-id id (x ∷ groups) {g} h =
    ground (arith, same_iff x.id id, find_group-id id groups {g = g})

-- A group does not stand in the way of another one's slug.
abbrev pub LeavesFree : Group → (slug : String) → Group → Type 0
LeavesFree g slug q = (q.site_id ≢ g.site_id) ⊎ ((q.slug ≢ slug) ⊎ (q.id ≡ g.id))

-- The rename was done: the group is found under its id with the new name and slug, marked as the
-- user's own; its old slug resolves to it, and every other slug as before.
pub record IsRenamed (g : Group) (name slug : String) (before after : Tenant) : Type 0 where
  pub free : All (LeavesFree g slug) before.groups
  pub found :
      find (has_group_id g.id) after.groups
      ≡ some (record g { name = name; slug = slug; is_manual = true })
  pub old_slug : alias_target g.slug after.aliases ≡ some g.id
  pub other_slugs :
      (other : String)
      → g.slug ≢ other
      → alias_target other after.aliases ≡ alias_target other before.aliases

-- What becomes of a rename: it is done, or another group of the site has the slug and nothing is.
abbrev pub RenameOutcome : Group → (name slug : String) → Tenant → Option Tenant → Type 0
RenameOutcome g name slug before none =
    (q : Group) × In q before.groups × (q.site_id ≡ g.site_id) × (q.slug ≡ slug) × (q.id ≢ g.id)
RenameOutcome g name slug before (some after) = IsRenamed g name slug before after

free_of :
    (g : Group) (slug : String) (groups : List Group)
    → any (takes_slug g slug) groups ≡ false
    → All (LeavesFree g slug) groups
free_of g slug [] h = tt
free_of g slug (q ∷ groups) h =
    let here : takes_slug g slug q ≡ false = ground arith in
    (apart here, free_of g slug groups (ground arith))
  where
    apart : takes_slug g slug q ≡ false → LeavesFree g slug q
    apart here = elim (Bool-cases (same q.site_id g.site_id)) [
      | inr e ↦ inl (λ k. ground (arith, same_iff q.site_id g.site_id, k, e))
      | inl e ↦ elim (Bool-cases (same q.slug slug)) [
        | inr f ↦ inr (inl (λ k. ground (arith, same_iff q.slug slug, k, f)))
        | inl f ↦ inr (inr (ground (arith, same_iff q.id g.id, here, e, f)))
      ]
    ]

taken_by :
    (g : Group) (slug : String) (groups : List Group)
    → any (takes_slug g slug) groups ≡ true
    → (q : Group) × In q groups × (q.site_id ≡ g.site_id) × (q.slug ≡ slug) × (q.id ≢ g.id)
taken_by g slug [] h = cc
taken_by g slug (q ∷ groups) h = elim (Bool-cases (takes_slug g slug q)) [
  | inl e ↦ (
    q,
    inl refl,
    ground (arith, same_iff q.site_id g.site_id, e),
    ground (arith, same_iff q.slug slug, e),
    λ k. ground (arith, same_iff q.id g.id, e, k),
  )
  | inr e ↦ let (p, m, a, b, c) = taken_by g slug groups (rw e at h) in (p, inr m, a, b, c)
]

find-renamed :
    (name slug : String) (groups : List Group) (g : Group)
    → find (has_group_id g.id) groups ≡ some g
    → find (has_group_id g.id) (update_first (has_group_id g.id) (renamed name (some slug)) groups)
      ≡ some (record g { name = name; slug = slug; is_manual = true })
find-renamed name slug [] g e = cc
find-renamed name slug (q ∷ groups) g e = elim (Bool-cases (has_group_id g.id q)) [
  | inl here ↦
      let k : q ≡ g = ground (arith, rw here at e) in
      rw (here, here) (ap (λ (x : Group). some (renamed name (some slug) x)) k)
  | inr other ↦ rw (other, other) (find-renamed name slug groups g (rw other at e))
]

-- A rename of a group that exists, to another slug that is not empty, either throws, since another
-- group of the site has that slug, or is done: then no other group of the site had the slug, the
-- group is found with its new name and slug, its old slug resolves to it, and every other slug
-- resolves as before.
pub rename_group-resolves :
    (id name slug : String) (db : Tenant) (g : Group)
    → find (has_group_id id) db.groups ≡ some g
    → slug ≢ ""
    → slug ≢ g.slug
    → RenameOutcome g name slug db (rename_group id name (some slug) db)
unfolding rename_group
rename_group-resolves id name slug db g e filled ne =
    elim (Bool-cases (any (takes_slug g slug) db.groups)) [
      | inl t ↦ rw (e, t) (taken_by g slug db.groups t)
      | inr t ↦
          rw (e, t, same-false slug "" filled, same-false slug g.slug ne)
            (record {
              free = free_of g slug db.groups t;
              found = find-renamed name slug db.groups g (
                  subst (λ i. find (has_group_id i) db.groups ≡ some g)
                    (sym (find_group-id id db.groups e)) e);
              old_slug =
                  rw (alias_target-upsert_alias g.slug g.slug g.id db.aliases, same_refl g.slug)
                    refl;
              other_slugs = λ other apart.
                  rw
                    (
                      alias_target-upsert_alias g.slug other g.id db.aliases,
                      same-false g.slug other apart,
                    )
                    refl;
            })
    ]
