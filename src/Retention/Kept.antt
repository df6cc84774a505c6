-- ===== src/Retention/Kept.antt =====
-- Which runs deleteRuns of lib/services/retention.service.ts leaves.
use pagespeed_auditor.Prelude.{
  String, ◌≡◌, ◌≢◌, ◌⊎◌, same, same_iff, same-false, refl, ◌↔◌, true, false, not, List, [], ◌∷◌,
  map, arith, includes, keep, In, inl, inr, In-of_keep, In-keep, In-of_includes, includes_of_In,
  Bool-cases,
}
use pagespeed_auditor.Domain.{RunStatus, queued, running, paused, Run}
use pagespeed_auditor.Tables.{Tenant}
use pagespeed_auditor.Run.Lifecycle.{is_terminal}
use pagespeed_auditor.Retention.{is_deletable, deletable_ids, delete_ids, delete_runs}

-- A run is named by its id.
abbrev pub IsKeyed : List Run → Type 0
IsKeyed runs = (r s : Run) → In r runs → In s runs → r.id ≡ s.id → r ≡ s

In-of_ids :
    (id : String) (runs : List Run)
    → In id (map (λ (r : Run). r.id) runs)
    → (r : Run) × In r runs × (id ≡ r.id)
In-of_ids id [] m = elim m [ ]
In-of_ids id (r ∷ runs) (inl e) = (r, inl refl, e)
In-of_ids id (r ∷ runs) (inr m) = let (s, n, e) = In-of_ids id runs m in (s, inr n, e)

In-ids : (r : Run) (runs : List Run) → In r runs → In r.id (map (λ (q : Run). q.id) runs)
In-ids r (q ∷ runs) (inl e) = inl (λ i. (e i).id)
In-ids r (q ∷ runs) (inr m) = inr (In-ids r runs m)
In-ids r [] m = elim m [ ]

module _ (site_id : String) (run_ids : List String) (runs : List Run) (keyed : IsKeyed runs)
    (r : Run) (there : In r runs) where
  chosen : includes (deletable_ids site_id run_ids runs) r.id ≡ is_deletable site_id run_ids r
  unfolding deletable_ids
  chosen = elim (Bool-cases (is_deletable site_id run_ids r)) [
    | inl e ↦ rw e (
        includes_of_In r.id (deletable_ids site_id run_ids runs) (
          In-ids r (keep (is_deletable site_id run_ids) runs)
            (In-keep (is_deletable site_id run_ids) r runs there e)))
    | inr e ↦ elim (Bool-cases (includes (deletable_ids site_id run_ids runs) r.id)) [
      | inl i ↦
          let (s, n, q) =
            In-of_ids r.id (keep (is_deletable site_id run_ids) runs)
              (In-of_includes r.id (deletable_ids site_id run_ids runs) i) in
          let kept = In-of_keep (is_deletable site_id run_ids) s runs n in
          let here : is_deletable site_id run_ids r ≡ true = rw (keyed r s there kept.0 q) kept.1 in
          rw e (absurd (ground (arith, here, e)))
      | inr i ↦ rw (i, e) refl
    ]
  ]

In-delete_ids :
    (ids : List String) (db : Tenant) (r : Run)
    → In r db.runs
    → In r (delete_ids ids db).db.runs ↔ (includes ids r.id ≡ false)
In-delete_ids [] db r m = ((λ h. refl), λ h. m)
In-delete_ids (id ∷ ids) db r m =
    let p = λ (q : Run). not (includes (id ∷ ids) q.id) in
    (
      (λ h. let k = (In-of_keep p r db.runs h).1 in ground (arith, k)),
      λ h. In-keep p r db.runs m (rw h refl),
    )

-- What keeps a run: another site, not being asked for, or being queued, running or paused.
abbrev pub Stays : (site_id : String) (run_ids : List String) → Run → Type 0
Stays site_id run_ids r =
    (r.site_id ≢ site_id)
    ⊎ ((¬ In r.id run_ids) ⊎ ((r.status ≡ queued) ⊎ ((r.status ≡ running) ⊎ (r.status ≡ paused))))

still_open :
    (s : RunStatus) → (is_terminal s ≡ false) ↔ ((s ≡ queued) ⊎ ((s ≡ running) ⊎ (s ≡ paused)))
still_open s = ((λ h. ground arith), λ h. ground arith)

Stays-of_not_deletable :
    (site_id : String) (run_ids : List String) (r : Run)
    → is_deletable site_id run_ids r ≡ false
    → Stays site_id run_ids r
Stays-of_not_deletable site_id run_ids r h = elim (Bool-cases (same r.site_id site_id)) [
  | inr e ↦ inl (λ k. ground (arith, same_iff r.site_id site_id, k, e))
  | inl e ↦ elim (Bool-cases (includes run_ids r.id)) [
    | inr i ↦ inr (inl (λ m. cc (includes_of_In r.id run_ids m, i)))
    | inl i ↦ inr (inr ((still_open r.status).0 (rw (e, i) at h)))
  ]
]

not_deletable-of_Stays :
    (site_id : String) (run_ids : List String) (r : Run)
    → Stays site_id run_ids r
    → is_deletable site_id run_ids r ≡ false
not_deletable-of_Stays site_id run_ids r (inl ne) = rw (same-false r.site_id site_id ne) refl
not_deletable-of_Stays site_id run_ids r (inr (inl n)) = elim (Bool-cases (includes run_ids r.id)) [
  | inl i ↦ absurd (n (In-of_includes r.id run_ids i))
  | inr i ↦ ground (arith, i)
]
not_deletable-of_Stays site_id run_ids r (inr (inr o)) =
    let e = (still_open r.status).1 o in ground (arith, e)

delete_runs-deletable :
    (site_id : String) (run_ids : List String) (db : Tenant) (r : Run)
    → IsKeyed db.runs
    → In r db.runs
    → In r (delete_runs site_id run_ids db).db.runs ↔ (is_deletable site_id run_ids r ≡ false)
unfolding delete_runs
delete_runs-deletable site_id [] db r keyed m = ((λ h. ground arith), λ h. m)
delete_runs-deletable site_id (id ∷ run_ids) db r keyed m =
    rw (← chosen site_id (id ∷ run_ids) db.runs keyed r m)
      (In-delete_ids (deletable_ids site_id (id ∷ run_ids) db.runs) db r m)

-- A deletion leaves a run of the table if and only if it is of another site, was not asked to go,
-- or is queued, running or paused: so no run goes that a workflow may still write to, if a run is
-- named by its id.
pub delete_runs-keeps :
    (site_id : String) (run_ids : List String) (db : Tenant) (r : Run)
    → IsKeyed db.runs
    → In r db.runs
    → In r (delete_runs site_id run_ids db).db.runs ↔ Stays site_id run_ids r
delete_runs-keeps site_id run_ids db r keyed m =
    let kept = delete_runs-deletable site_id run_ids db r keyed m in
    (
      (λ h. Stays-of_not_deletable site_id run_ids r (kept.0 h)),
      λ h. kept.1 (not_deletable-of_Stays site_id run_ids r h),
    )
