-- ===== src/Groups.antt =====
-- lib/services/group.service.ts: renaming and merging the groups of pages, with the aliases that
-- keep a slug of the past resolving. Each operation runs in one transaction, which an update
-- that breaks a unique key of the database rolls back.
pub mod Aliases
use pagespeed_auditor.Prelude.{
  ℕ, String, Bool, true, false, not, ◌&&◌, Option, none, some, List, [], ◌∷◌, ◌++◌, map,
  if◌then◌else◌, same, includes, keep, find, any, update_first, update_where, length, count_by,
}
use pagespeed_auditor.Tables.{Page, Group, GroupAlias, Tenant}

abbrev pub has_group_id : String → Group → Bool
has_group_id id g = same g.id id

abbrev pub has_slug : String → GroupAlias → Bool
has_slug slug a = same a.slug slug

-- `groupAlias.upsert({ where: { slug }, update: { groupId }, create: { slug, groupId } })`
unfoldable pub upsert_alias : (slug group_id : String) → List GroupAlias → List GroupAlias
upsert_alias slug group_id [] = record { slug = slug; group_id = group_id } ∷ []
upsert_alias slug group_id (a ∷ aliases) =
    if has_slug slug a
    then record { slug = a.slug; group_id = group_id } ∷ aliases
    else a ∷ upsert_alias slug group_id aliases

-- `groupAlias.findUnique({ where: { slug } })`, the group it names.
unfoldable pub alias_target : String → List GroupAlias → Option String
alias_target slug [] = none
alias_target slug (a ∷ aliases) =
    if has_slug slug a then some a.group_id else alias_target slug aliases

-- `newSlug ?? group.slug`
abbrev pub slug_or : Option String → String → String
slug_or none old = old
slug_or (some slug) old = slug

-- `if (newSlug && newSlug !== group.slug)`
abbrev pub is_other_slug : Option String → String → Bool
is_other_slug none old = false
is_other_slug (some slug) old = not (same slug "") && not (same slug old)

abbrev pub renamed : (name : String) → Option String → Group → Group
renamed name slug g = record g { name = name; slug = slug_or slug g.slug; is_manual = true }

-- Another group of the site has the slug: the key of Group is @@unique([siteId, slug]).
abbrev pub takes_slug : Group → (slug : String) → Group → Bool
takes_slug g slug q = same q.site_id g.site_id && (same q.slug slug && not (same q.id g.id))

abbrev pub written_name : (name : String) → Option String → Tenant → Group → Tenant
written_name name slug db g = record db {
  aliases = if is_other_slug slug g.slug then upsert_alias g.slug g.id db.aliases else db.aliases;
  groups = update_first (has_group_id g.id) (renamed name slug) db.groups;
}

-- An update to a slug that is taken throws, and the transaction is rolled back.
abbrev pub rename_found : (name : String) → Option String → Tenant → Option Group → Option Tenant
rename_found name slug db none = none
rename_found name slug db (some g) =
    if any (takes_slug g (slug_or slug g.slug)) db.groups
    then none
    else some (written_name name slug db g)

-- `none` is an exception, which leaves the database as it was: that of `findUniqueOrThrow`, or of a
-- slug that is taken.
unfoldable pub rename_group : (id name : String) → Option String → Tenant → Option Tenant
rename_group id name slug db = rename_found name slug db (find (has_group_id id) db.groups)

pub record MergeSummary : Type 0 where
  pub pages_moved : ℕ
  pub aliases_created : ℕ

pub record Merged : Type 0 where
  pub db : Tenant
  pub summary : MergeSummary

abbrev pub in_group : List String → Option String → Bool
in_group ids none = false
in_group ids (some g) = includes ids g

abbrev pub moved_page : String → Page → Page
moved_page target p = record p { group_id = some target }

abbrev pub repointed : String → GroupAlias → GroupAlias
repointed target a = record { slug = a.slug; group_id = target }

-- Every merged-away slug becomes an alias pointing at the target.
unfoldable pub alias_all : String → List Group → List GroupAlias → List GroupAlias
alias_all target [] aliases = aliases
alias_all target (g ∷ groups) aliases = alias_all target groups (upsert_alias g.slug target aliases)

abbrev pub is_source : List String → Group → Bool
is_source sources g = includes sources g.id

-- The body of the transaction; `none` is the exception of `group.update` on a missing target.
unfoldable pub merge_into : (sources : List String) (target : String) → Tenant → Option Merged
merge_into sources target db =
    if any (has_group_id target) db.groups
    then some (record {
      db = record db {
        pages = update_where (λ p. in_group sources p.group_id) (moved_page target) db.pages;
        aliases =
            update_where (λ a. includes sources a.group_id) (repointed target)
              (alias_all target (keep (is_source sources) db.groups) db.aliases);
        groups =
            keep (λ g. not (is_source sources g))
              (update_first (has_group_id target) (λ g. record g { is_manual = true }) db.groups);
      };
      summary = record {
        pages_moved = count_by (λ p. in_group sources p.group_id) db.pages;
        aliases_created = length (keep (is_source sources) db.groups);
      };
    })
    else none

abbrev pub merge_sources : (source_ids : List String) (target : String) → List String
merge_sources source_ids target = keep (λ id. not (same id target)) source_ids

abbrev pub merge_some : (sources : List String) (target : String) → Tenant → Option Merged
merge_some [] target db =
    some (record { db = db; summary = record { pages_moved = 0; aliases_created = 0 } })
merge_some (s ∷ sources) target db = merge_into (s ∷ sources) target db

unfoldable pub merge_groups : (source_ids : List String) (target : String) → Tenant → Option Merged
unfolding merge_into
merge_groups source_ids target db = merge_some (merge_sources source_ids target) target db
