-- ===== src/Tables.antt =====
-- The tables of prisma/tenant/schema.prisma that the audit path, the ingest and the group edits
-- read and write. A table is the list of its rows in the order of insertion; a query's `where` is a
-- Boolean test on the rows.
use pagespeed_auditor.Prelude.{
  ℕ, String, Bool, Option, List, ◌≡◌, if◌then◌else◌, arith, same, same_iff, same_refl, same-false,
  ◌≢◌, find, update_first,
}
use mathlib.Core.Option
use pagespeed_auditor.Domain.{Strategy, ResultStatus, Run}
use pagespeed_auditor.Psi.{ExtractedScores, ExtractedLab, FieldSource, Bucket, IssueKind, Category}

-- The field columns of an AuditResult: where the data is from, and the value of each metric.
pub record FieldColumns : Type 0 where
  pub source : FieldSource
  pub overall : Option Bucket
  pub lcp : Option ℕ
  pub inp : Option ℕ
  pub cls : Option ℕ
  pub fcp : Option ℕ
  pub ttfb : Option ℕ

-- schema.prisma: AuditResult
pub record AuditResult : Type 0 where
  pub id : String
  pub run_id : String
  pub page_id : String
  pub strategy : Strategy
  pub status : ResultStatus
  pub runtime_error : Option String
  pub scores : ExtractedScores
  pub lab : ExtractedLab
  pub field : FieldColumns
  pub field_json : Option String
  pub final_url : Option String
  pub lighthouse_version : Option String
  pub raw_json_blob_key : Option String
  pub markdown_report : String
  pub duration_ms : Option ℕ
  pub created_at : ℕ

-- schema.prisma: AuditIssue
pub record AuditIssue : Type 0 where
  pub result_id : String
  pub run_id : String
  pub page_id : String
  pub strategy : Strategy
  pub audit_id : String
  pub category : Category
  pub group : IssueKind
  pub title : String
  pub score : Option ℕ
  pub display_value : Option String
  pub savings_ms : Option ℕ
  pub savings_bytes : Option ℕ
  pub weight : ℕ

-- schema.prisma: Page
pub record Page : Type 0 where
  pub id : String
  pub site_id : String
  pub url : String
  pub path : String
  pub group_id : Option String
  pub lastmod : Option ℕ
  pub sitemap_index : Option ℕ
  pub is_active : Bool
  pub is_manually_grouped : Bool
  pub last_audited_at : Option ℕ
  pub latest_result_mobile_id : Option String
  pub latest_result_desktop_id : Option String

-- schema.prisma: Group
pub record Group : Type 0 where
  pub id : String
  pub site_id : String
  pub slug : String
  pub name : String
  pub is_manual : Bool
  pub priority : Option ℕ

-- schema.prisma: GroupAlias
pub record GroupAlias : Type 0 where
  pub slug : String
  pub group_id : String

-- One organisation's database.
pub record Tenant : Type 0 where
  pub runs : List Run
  pub results : List AuditResult
  pub issues : List AuditIssue
  pub pages : List Page
  pub groups : List Group
  pub aliases : List GroupAlias

abbrev pub has_id : String → Run → Bool
has_id id r = same r.id id

-- `auditRun.findUnique({ where: { id } })`
unfoldable pub find_run : String → List Run → Option Run
find_run id runs = find (has_id id) runs

-- `auditRun.update({ where: { id }, data })`
unfoldable pub update_run : String → (Run → Run) → List Run → List Run
update_run id change runs = update_first (has_id id) change runs

pub find_run-id :
    (id : String) (runs : List Run) {r : Run} → find_run id runs ≡ Option.some r → r.id ≡ id
unfolding find_run
find_run-id id List.[] {r} h = ground arith
find_run-id id (List.◌∷◌ s runs) {r} h =
    ground (arith, same_iff s.id id, find_run-id id runs {r = r})

-- An update of one run is read back under its key, and leaves every other run as it was.
pub find-update_run :
    (id other : String) (change : Run → Run) (runs : List Run)
    → ((r : Run) → (change r).id ≡ r.id)
    → find_run other (update_run id change runs)
      ≡ (if same id other then Option.map change (find_run other runs) else find_run other runs)
unfolding find_run update_run
find-update_run id other change List.[] k = ground arith
find-update_run id other change (List.◌∷◌ r runs) k = ground (
  arith,
  k r,
  same_iff r.id id,
  same_iff r.id other,
  same_iff (change r).id other,
  same_iff id other,
  find-update_run id other change runs k,
)

pub find-update_self :
    (id : String) (change : Run → Run) (runs : List Run) {r : Run}
    → ((q : Run) → (change q).id ≡ q.id)
    → find_run id runs ≡ Option.some r
    → find_run id (update_run id change runs) ≡ Option.some (change r)
find-update_self id change runs k e = rw (find-update_run id id change runs k, same_refl id, e)

pub find-update_other :
    (id other : String) (change : Run → Run) (runs : List Run)
    → ((q : Run) → (change q).id ≡ q.id)
    → id ≢ other
    → find_run other (update_run id change runs) ≡ find_run other runs
find-update_other id other change runs k ne =
    rw (find-update_run id other change runs k, same-false id other ne)
