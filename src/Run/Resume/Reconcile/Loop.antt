-- ===== src/Run/Resume/Reconcile/Loop.antt =====
-- The loop of reconcileStaleRuns over the open runs of the table.
use mathlib.Core.List.{Permᴰ}
use mathlib.Core.List.Permᴰ
use mathlib.Core.Path.{subst}
use pagespeed_auditor.Prelude.{
  ℕ, String, ◌≡◌, ◌≢◌, ◌⊎◌, refl, sym, ap, ◌∙◌, Bool, true, false, some, List, [], ◌∷◌, arith, keep,
  All, Bool-cases, inl, inr, same_refl, same-false,
}
use pagespeed_auditor.Domain.{RunStatus, queued, running, Run}
use pagespeed_auditor.Tables.{Tenant, find_run}
use pagespeed_auditor.Run.Expand.{RowOrder}
use pagespeed_auditor.Run.Lifecycle.{is_open}
use pagespeed_auditor.Run.Resume.{Faults, Reconciled, goes_on, reconcile_all, reconcile_stale_runs}
use pagespeed_auditor.Run.Resume.Reconcile.{IsHandled, Extends}
use pagespeed_auditor.Run.Resume.Reconcile.Rounds.{reconcile_one-IsRound}

-- Every run of the list has another id.
abbrev pub Apart : String → List Run → Type 0
Apart id rs = All (λ q. id ≢ q.id) rs

abbrev pub DistinctIds : List Run → Type 0
DistinctIds [] = Unit
DistinctIds (r ∷ rs) = Apart r.id rs × DistinctIds rs

-- What rounds on other runs leave of a run that has been handled.
IsHandled-later :
    (faults : Faults) (now stale_hours : ℕ) (id : String) (r : Run) (c c' : Reconciled)
    → id ≢ r.id
    → Extends id c c'
    → IsHandled faults now stale_hours r c
    → IsHandled faults now stale_hours r c'
IsHandled-later faults now h id r c c' ne e (inl (old, m, (after, found, s, k))) =
    inl (old, e.failed r.id m, (after, e.others r.id ne ∙ found, s, k))
IsHandled-later faults now h id r c c' ne e (inr (young, inr (m, fault))) =
    inr (young, inr (e.failed r.id m, fault))
IsHandled-later faults now h id r c c' ne e
      (inr (young, inl (m, (after, found, inl (s, (pairs, d)))))) =
    inr (
      young,
      inl (
        e.resumed r.id m,
        (after, e.others r.id ne ∙ found, inl (s, (pairs, e.dispatched (r.id, pairs) d))),
      ),
    )
IsHandled-later faults now h id r c c' ne e (inr (young, inl (m, (after, found, inr refusal)))) =
    inr (young, inl (e.resumed r.id m, (after, e.others r.id ne ∙ found, inr refusal)))

-- A run that waits for its round is as it was.
abbrev IsPending : Reconciled → Run → Type 0
IsPending c r = (find_run r.id c.db.runs ≡ some r) × (is_open r.status ≡ true)

IsPending-later :
    (id : String) (rs : List Run) (c c' : Reconciled)
    → Apart id rs
    → Extends id c c'
    → All (IsPending c) rs
    → All (IsPending c') rs
IsPending-later id [] c c' a e h = tt
IsPending-later id (r ∷ rs) c c' a e h =
    ((e.others r.id a.0 ∙ h.0.0, h.0.1), IsPending-later id rs c c' a.1 e h.1)

module _ (faults : Faults) (order : RowOrder) (now stale_hours : ℕ)
    (calm : (id : String) → faults.fail_run id ≡ false) where
  abbrev Handled : Reconciled → Run → Type 0
  Handled c r = IsHandled faults now stale_hours r c

  All-Handled :
      (rs : List Run) (c : Reconciled)
      → DistinctIds rs
      → All (IsPending c) rs
      → (c' : Reconciled) × (reconcile_all faults order now stale_hours rs c ≡ goes_on c')
        × All (Handled c') rs
        × ((q : Run) → Apart q.id rs → Handled c q → Handled c' q)
  unfolding reconcile_all
  All-Handled [] c d p = (c, refl, tt, λ q a k. k)
  All-Handled (r ∷ rs) c d p =
      let (c₁, e, grown, done) =
        reconcile_one-IsRound faults now stale_hours r c order p.0.0 p.0.1 (calm r.id) in
      let (c', e', all, kept) =
        All-Handled rs c₁ d.1 (IsPending-later r.id rs c c₁ d.0 grown p.1) in
      (
        c',
        rw e e',
        (kept r d.0 done, all),
        λ q a k.
            kept q a.1
              (IsHandled-later faults now stale_hours r.id q c c₁ (λ s. a.0 (sym s)) grown k),
      )

All-Perm : (P : Run → Type 0) (xs ys : List Run) → Permᴰ xs ys → All P xs → All P ys
All-Perm P xs ys Permᴰ.nil h = tt
All-Perm P xs ys (Permᴰ.cons e p) h = (rw (← e) h.0, All-Perm P _ _ p h.1)
All-Perm P xs ys (Permᴰ.swap e k) h = (rw (← k) h.1.0, (rw (← e) h.0, h.1.1))
All-Perm P xs ys (Permᴰ.trans p q) h = All-Perm P _ _ q (All-Perm P _ _ p h)

DistinctIds-Perm : (xs ys : List Run) → Permᴰ xs ys → DistinctIds xs → DistinctIds ys
DistinctIds-Perm xs ys Permᴰ.nil h = tt
DistinctIds-Perm xs ys (Permᴰ.cons {a} {b} {l₁} {l₂} e p) h = (
  subst (λ (x : Run). Apart x.id l₂) e (All-Perm (λ q. a.id ≢ q.id) l₁ l₂ p h.0),
  DistinctIds-Perm _ _ p h.1,
)
DistinctIds-Perm xs ys (Permᴰ.swap {a} {b} {a'} {b'} {l} e k) h =
    let ab : a'.id ≢ b'.id =
      λ s. h.0.0 (ap (λ (x : Run). x.id) e ∙ sym s ∙ ap (λ (x : Run). x.id) (sym k)) in
    (
      (ab, subst (λ (x : Run). Apart x.id l) k h.1.0),
      (subst (λ (x : Run). Apart x.id l) e h.0.1, h.1.1),
    )
DistinctIds-Perm xs ys (Permᴰ.trans p q) h = DistinctIds-Perm _ _ q (DistinctIds-Perm _ _ p h)

All-keep : (P : Run → Type 0) (p : Run → Bool) (rs : List Run) → All P rs → All P (keep p rs)
All-keep P p [] h = tt
All-keep P p (r ∷ rs) h = elim (Bool-cases (p r)) [
  | inl e ↦ rw e (h.0, All-keep P p rs h.1)
  | inr e ↦ rw e (All-keep P p rs h.1)
]

DistinctIds-keep : (p : Run → Bool) (rs : List Run) → DistinctIds rs → DistinctIds (keep p rs)
DistinctIds-keep p [] h = tt
DistinctIds-keep p (r ∷ rs) h = elim (Bool-cases (p r)) [
  | inl e ↦ rw e (All-keep (λ q. r.id ≢ q.id) p rs h.0, DistinctIds-keep p rs h.1)
  | inr e ↦ rw e (DistinctIds-keep p rs h.1)
]

-- A run of a table with distinct ids is found under its id.
later_found :
    (r : Run) (rs table : List Run)
    → Apart r.id rs
    → All (λ q. find_run q.id table ≡ some q) rs
    → All (λ q. find_run q.id (r ∷ table) ≡ some q) rs
unfolding find_run
later_found r [] table a h = tt
later_found r (q ∷ rs) table a h =
    (rw (same-false r.id q.id a.0) h.0, later_found r rs table a.1 h.1)

All-found : (rs : List Run) → DistinctIds rs → All (λ q. find_run q.id rs ≡ some q) rs
unfolding find_run
All-found [] h = tt
All-found (r ∷ rs) h = (rw (same_refl r.id) refl, later_found r rs rs h.0 (All-found rs h.1))

All-IsPending :
    (rs : List Run) (c : Reconciled)
    → All (λ q. find_run q.id c.db.runs ≡ some q) rs
    → All (IsPending c) (keep (λ (r : Run). is_open r.status) rs)
All-IsPending [] c h = tt
All-IsPending (r ∷ rs) c h = elim (Bool-cases (is_open r.status)) [
  | inl e ↦ rw e ((h.0, e), All-IsPending rs c h.1)
  | inr e ↦ rw e (All-IsPending rs c h.1)
]

-- A run that is neither queued nor running needs no reconciliation; every other one is handled.
abbrev pub IsReconciled : Faults → (now stale_hours : ℕ) → Reconciled → Run → Type 0
IsReconciled faults now stale_hours c r =
    ((r.status ≢ queued) × (r.status ≢ running)) ⊎ IsHandled faults now stale_hours r c

not_open : (s : RunStatus) → is_open s ≡ false → (s ≢ queued) × (s ≢ running)
not_open s h = ((λ e. ground arith), λ e. ground arith)

All-reconciled :
    (faults : Faults) (now stale_hours : ℕ) (c : Reconciled) (rs : List Run)
    → All (λ r. IsHandled faults now stale_hours r c) (keep (λ (r : Run). is_open r.status) rs)
    → All (IsReconciled faults now stale_hours c) rs
All-reconciled faults now h c [] k = tt
All-reconciled faults now h c (r ∷ rs) k = elim (Bool-cases (is_open r.status)) [
  | inl e ↦ let k' = rw e at k in (inr k'.0, All-reconciled faults now h c rs k'.1)
  | inr e ↦ (inl (not_open r.status e), All-reconciled faults now h c rs (rw e at k))
]

-- The reconciliation at boot ends, and every run that was queued or running is handled, whatever
-- throws on the others. A run that has been open for more hours than the limit is reported as failed,
-- and is failed with that reason. Any other one is reported as resumed, and then it is running with a
-- workflow dispatched for it, or failed because its scope had outgrown its total; or it is reported
-- as failed, and then a query of its resume or its dispatcher threw. The update of failRun, which
-- stands outside the try, must not throw; runs have distinct ids, and the database's order only
-- reorders.
pub reconcile_stale_runs_complete :
    (faults : Faults) (order : RowOrder) (oldest_first : List Run → List Run) (now stale_hours : ℕ)
    (db : Tenant)
    → ((id : String) → faults.fail_run id ≡ false)
    → ((xs : List Run) → Permᴰ (oldest_first xs) xs)
    → DistinctIds db.runs
    → (c : Reconciled) × (reconcile_stale_runs faults order oldest_first now stale_hours db
        ≡ goes_on c)
      × All (IsReconciled faults now stale_hours c) db.runs
unfolding reconcile_stale_runs
reconcile_stale_runs_complete faults order oldest_first now stale_hours db calm reorders distinct =
    let open_runs = keep (λ (r : Run). is_open r.status) db.runs in
    let start : Reconciled = record {
      summary = record { resumed = []; failed = [] };
      dispatched = [];
      db = db;
    } in
    let perm = reorders open_runs in
    let back = Permᴰ.symm perm in
    let (c, e, all, kept) =
      All-Handled faults order now stale_hours calm (oldest_first open_runs) start
        (DistinctIds-Perm open_runs (oldest_first open_runs) back
          (DistinctIds-keep (λ (r : Run). is_open r.status) db.runs distinct))
        (All-Perm (IsPending start) open_runs (oldest_first open_runs) back
          (All-IsPending db.runs start (All-found db.runs distinct))) in
    (
      c,
      e,
      All-reconciled faults now stale_hours c db.runs (
          All-Perm (λ r. IsHandled faults now stale_hours r c) (oldest_first open_runs) open_runs
            perm all),
    )
