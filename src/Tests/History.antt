-- ===== src/Tests/History.antt =====
-- The theorem on deleted runs at the two runs of the organisation.
use pagespeed_auditor.Prelude.{
  String, ◌≡◌, refl, sym, ap, ◌∙◌, ◌↔◌, [], ◌∷◌, In, inl, inr, arith, same_iff,
}
use pagespeed_auditor.Domain.{Run}
use pagespeed_auditor.Tables.{Tenant}
use pagespeed_auditor.Retention.{delete_runs}
use pagespeed_auditor.Retention.Kept.{Stays, IsKeyed, delete_runs-keeps}
use pagespeed_auditor.Tests.{two_runs, open_run, fresh_db}

abbrev history_db : Tenant
history_db = record fresh_db { runs = two_runs }

apart : (id : String) → "r1" ≡ id → "r2" ≡ id → ⊥
apart id a b = ground (arith, same_iff "r1" "r2", a ∙ sym b)

two_runs-IsKeyed : IsKeyed two_runs
two_runs-IsKeyed r s (inl a) (inl b) e = a ∙ sym b
two_runs-IsKeyed r s (inl a) (inr (inl b)) e =
    absurd (apart s.id (ap (λ (q : Run). q.id) (sym a) ∙ e) (ap (λ (q : Run). q.id) (sym b)))
two_runs-IsKeyed r s (inr (inl a)) (inl b) e =
    absurd (apart r.id (ap (λ (q : Run). q.id) (sym b) ∙ sym e) (ap (λ (q : Run). q.id) (sym a)))
two_runs-IsKeyed r s (inr (inl a)) (inr (inl b)) e = a ∙ sym b
two_runs-IsKeyed r s (inl a) (inr (inr n)) e = elim n [ ]
two_runs-IsKeyed r s (inr (inl a)) (inr (inr n)) e = elim n [ ]
two_runs-IsKeyed r s (inr (inr n)) _ e = elim n [ ]

delete_runs-keeps_example :
    In open_run (delete_runs "site" ("r1" ∷ "r2" ∷ []) history_db).db.runs
    ↔ Stays "site" ("r1" ∷ "r2" ∷ []) open_run
delete_runs-keeps_example =
    delete_runs-keeps "site" ("r1" ∷ "r2" ∷ []) history_db open_run two_runs-IsKeyed (inl refl)
