-- ===== src/Run/Expand.antt =====
-- The pages that a run's scope covers, and the runs that a resume or the boot-time reconciliation
-- starts again: expandScope, failedResultsForRun, failedPairsForRun, resumeRun and
-- reconcileStaleRuns of lib/services/run.service.ts.
use pagespeed_auditor.Prelude.{
  String, Bool, true, false, not, ◌&&◌, Option, none, some, List, [], ◌∷◌, ◌++◌, map, same,
  includes, keep, find, or_else, is_some, if◌then◌else◌,
}
use pagespeed_auditor.Domain.{
  Strategy, ScopeKind, group, page, pages, retry, RunScope, AuditPair, is_error,
}
use pagespeed_auditor.Tables.{AuditResult, Page, Group, Tenant}
use pagespeed_auditor.Run.Scope.{split_commas}

-- The database's `ORDER BY`, which depends on its collation: pages by group priority, sitemap
-- index and path, results by the time of creation.
pub record RowOrder : Type 0 where
  pub by_priority : List Page → List Page
  pub by_creation : List AuditResult → List AuditResult

pub record FailedResult : Type 0 where
  pub page_id : String
  pub path : String
  pub url : String
  pub strategy : Strategy
  pub error : String

abbrev has_page_id : String → Page → Bool
has_page_id id p = same p.id id

-- The row with its page; a result's page is always there, by the foreign key.
abbrev failed_result : AuditResult → Option Page → List FailedResult
failed_result r none = []
failed_result r (some p) =
    record {
      page_id = r.page_id;
      path = p.path;
      url = p.url;
      strategy = r.strategy;
      error = or_else r.runtime_error "unknown";
    }
    ∷ []

failed_results : List Page → List AuditResult → List FailedResult
failed_results table [] = []
failed_results table (r ∷ rows) =
    failed_result r (find (has_page_id r.page_id) table) ++ failed_results table rows

unfoldable pub failed_results_for_run : RowOrder → Tenant → String → List FailedResult
unfolding failed_results
failed_results_for_run order db run_id = failed_results db.pages (
    order.by_creation
      (keep (λ (r : AuditResult). same r.run_id run_id && is_error r.status) db.results))

abbrev alive_page : List Page → String → Option Page
alive_page table id = find (λ (p : Page). same p.id id && p.is_active) table

abbrev retried : FailedResult → Option Page → List AuditPair
retried f none = []
retried f (some p) = record { page_id = f.page_id; url = p.url; strategy = f.strategy } ∷ []

retried_pairs : List Page → List FailedResult → List AuditPair
retried_pairs table [] = []
retried_pairs table (f ∷ failed) =
    retried f (alive_page table f.page_id) ++ retried_pairs table failed

unfoldable pub failed_pairs_for_run : RowOrder → Tenant → String → List AuditPair
unfolding retried_pairs failed_results_for_run
failed_pairs_for_run order db run_id =
    retried_pairs db.pages (failed_results_for_run order db run_id)

-- `group: { slug, siteId }`, of the page's group
abbrev in_group : List Group → String → String → Page → Bool
in_group groups site_id slug p = elim p.group_id [
  | none ↦ false
  | some id ↦
      is_some
        (find (λ (g : Group). same g.id id && same g.slug slug && same g.site_id site_id) groups)
]

abbrev of_site : String → Page → Bool
of_site site_id p = same p.site_id site_id && p.is_active

-- The `where` of the page query.
abbrev pub covers : List Group → String → ScopeKind → String → Page → Bool
covers groups site_id page ref p = same p.id ref
covers groups site_id pages ref p = includes (keep (λ s. not (same s "")) (split_commas ref)) p.id
covers groups site_id group ref p = of_site site_id p && in_group groups site_id ref p
covers groups site_id _ ref p = of_site site_id p

pairs_of : List Strategy → Page → List AuditPair
pairs_of strategies p =
    map (λ (s : Strategy). record { page_id = p.id; url = p.url; strategy = s }) strategies

all_pairs : List Strategy → List Page → List AuditPair
all_pairs strategies [] = []
all_pairs strategies (p ∷ ps) = pairs_of strategies p ++ all_pairs strategies ps

abbrev is_retry : ScopeKind → Bool
is_retry retry = true
is_retry _ = false

unfoldable pub expand_scope : RowOrder → Tenant → String → RunScope → List AuditPair
unfolding failed_pairs_for_run pairs_of all_pairs split_commas
expand_scope order db site_id scope =
    if is_retry scope.kind
    then failed_pairs_for_run order db (or_else scope.ref "")
    else all_pairs scope.strategies (
        order.by_priority
          (keep (covers db.groups site_id scope.kind (or_else scope.ref "")) db.pages))
