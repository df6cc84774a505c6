-- ===== src/Run/Resume/Reconcile/Rounds.antt =====
-- One round of the loop of reconcileStaleRuns: what it makes of its run, and what it leaves.
use pagespeed_auditor.Prelude.{
  ℕ, ◌+◌, ◌*◌, ◌<◌, String, ◌≡◌, ◌≢◌, ◌⊎◌, refl, true, false, some, List, [], ◌∷◌, ◌++◌, arith,
  length, ltb, Bool-cases, inl, inr, In, same_iff, map, count_by,
}
use pagespeed_auditor.Domain.{
  running, failed, abandoned, scope_grew, RunError, Run, AuditPair, is_error,
}
use pagespeed_auditor.Tables.{AuditResult, find_run, find-update_self, find-update_other}
use pagespeed_auditor.Run.{is_stale, diff_missing_pairs}
use pagespeed_auditor.Run.Expand.{RowOrder, expand_scope}
use pagespeed_auditor.Run.Scope.{parse_scope_label}
use pagespeed_auditor.Run.Lifecycle.{is_open, broken, fail_run}
use pagespeed_auditor.Run.Resume.{
  Faults, ResumeOutcome, returns, throws, dispatch_all, resume_run, resume_with, results_of,
  refused, reopened, pair_of, Reconciled, Reconciling, goes_on, adopt, add_failed, reconcile_one,
}
use pagespeed_auditor.Run.Resume.Reconcile.{IsFaulty, IsHandled, Extends}

In-append_last : {A : Type 0} (a : A) (xs : List A) → In a (xs ++ a ∷ [])
In-append_last a [] = inl refl
In-append_last a (x ∷ xs) = inr (In-append_last a xs)

pub In-append_left : {A : Type 0} (a : A) (xs ys : List A) → In a xs → In a (xs ++ ys)
In-append_left a [] ys m = elim m [ ]
In-append_left a (x ∷ xs) ys (inl e) = inl e
In-append_left a (x ∷ xs) ys (inr m) = inr (In-append_left a xs ys m)

pub In-append_right : {A : Type 0} (a : A) (xs ys : List A) → In a ys → In a (xs ++ ys)
In-append_right a [] ys m = m
In-append_right a (x ∷ xs) ys m = inr (In-append_right a xs ys m)

find-fail_run_open :
    (now : ℕ) (id : String) (message : RunError) (runs : List Run) (r : Run)
    → find_run id runs ≡ some r
    → is_open r.status ≡ true
    → find_run id (fail_run now id message runs) ≡ some (broken now message r)
unfolding find_run fail_run
find-fail_run_open now id message [] r e t = cc
find-fail_run_open now id message (q ∷ runs) r e t =
    ground (arith, find-fail_run_open now id message runs r)

find-fail_run_other :
    (now : ℕ) (id other : String) (message : RunError) (runs : List Run)
    → id ≢ other
    → find_run other (fail_run now id message runs) ≡ find_run other runs
unfolding find_run fail_run
find-fail_run_other now id other message [] ne = refl
find-fail_run_other now id other message (q ∷ runs) ne =
    ground (
      arith,
      same_iff q.id id,
      same_iff q.id other,
      find-fail_run_other now id other message runs ne,
    )

Extends-failed :
    (id : String) (c : Reconciled) (runs : List Run)
    → ((other : String) → id ≢ other → find_run other runs ≡ find_run other c.db.runs)
    → Extends id c (add_failed id (record c { db = record (c.db) { runs = runs } }))
Extends-failed id c runs h = record {
  others = h;
  resumed = λ i m. m;
  failed = λ i m. In-append_left i c.summary.failed (id ∷ []) m;
  dispatched = λ d m. m;
}

stale_iff :
    (r : Run) (now stale_hours : ℕ)
    → is_stale r.started_at now stale_hours ≡ true
    → r.started_at + stale_hours * 3_600_000 < now
unfolding is_stale
stale_iff r now stale_hours h = ground arith

not_stale :
    (r : Run) (now stale_hours : ℕ)
    → is_stale r.started_at now stale_hours ≡ false
    → (r.started_at + stale_hours * 3_600_000 < now)
    → ⊥
unfolding is_stale
not_stale r now stale_hours h k = ground arith

-- The runs that a resume leaves, and what it has made of its run.
abbrev IsOutcome : Faults → Run → Reconciled → ResumeOutcome → Type 0
IsOutcome faults r c (throws runs) =
    ((other : String) → r.id ≢ other → find_run other runs ≡ find_run other c.db.runs)
    × IsFaulty faults r
IsOutcome faults r c (returns d) =
    ((other : String) → r.id ≢ other → find_run other d.runs ≡ find_run other c.db.runs)
    × ((after : Run) × (find_run r.id d.runs ≡ some after)
        × (((after.status ≡ running)
              × ((pairs : List AuditPair) × In {A = String × List AuditPair} (r.id, pairs)
                    d.dispatched))
            ⊎ ((after.status ≡ failed)
                × ((n : ℕ) × (after.error ≡ some (scope_grew n r.total_jobs))
                    × (r.total_jobs < n)))))

module _ (faults : Faults) (now : ℕ) (r : Run) (c : Reconciled)
    (found : find_run r.id c.db.runs ≡ some r) where
  resume_with-IsOutcome :
      (expected : List AuditPair) (existing : List AuditResult)
      → IsOutcome faults r c (
          dispatch_all faults
            (resume_with now r expected existing c.db.runs)
            (resume_with now r expected existing c.db.runs).dispatched)
  unfolding resume_with
  resume_with-IsOutcome expected existing =
      let errors = count_by (λ (e : AuditResult). is_error e.status) existing in
      let change = reopened (length expected) (length existing) errors in
      let missing = diff_missing_pairs expected (map pair_of existing) in
      let refusal = refused now (length expected) in
      elim (Bool-cases (ltb r.total_jobs (length expected))) [
        | inl grown ↦ rw grown (
          (λ other ne. find-update_other r.id other refusal c.db.runs (λ q. refl) ne),
          (
            refusal r,
            find-update_self r.id refusal c.db.runs (λ q. refl) found,
            inr (refl, (length expected, refl, ground (arith, grown))),
          ),
        )
        | inr kept ↦ elim (Bool-cases (faults.dispatch r.id missing)) [
          | inl t ↦
              rw (kept, t)
                (
                  (λ other ne. find-update_other r.id other change c.db.runs (λ q. refl) ne),
                  inr (missing, t),
                )
          | inr t ↦
              rw (kept, t)
                (
                  (λ other ne. find-update_other r.id other change c.db.runs (λ q. refl) ne),
                  (
                    change r,
                    find-update_self r.id change c.db.runs (λ q. refl) found,
                    inl (refl, (missing, inl refl)),
                  ),
                )
        ]
      ]

  resume_run-IsOutcome :
      (order : RowOrder) → IsOutcome faults r c (resume_run faults order now c.db r.id)
  unfolding resume_run
  resume_run-IsOutcome order = elim (Bool-cases (faults.query r.id)) [
    | inl q ↦ rw q ((λ other ne. refl), inl q)
    | inr q ↦
        rw (q, found)
          (resume_with-IsOutcome
            (expand_scope order c.db r.site_id (parse_scope_label r.scope_label))
            (results_of r.id c.db.results))
  ]

-- A round with its result: the run is handled, and the rest is left.
abbrev pub IsRound : Faults → (now stale_hours : ℕ) → Run → Reconciled → Reconciling → Type 0
IsRound faults now stale_hours r c o =
    (c' : Reconciled) × (o ≡ goes_on c') × Extends r.id c c' × IsHandled faults now stale_hours r c'

module _ (faults : Faults) (now stale_hours : ℕ) (r : Run) (c : Reconciled) where
  adopt-IsRound :
      (o : ResumeOutcome)
      → ((r.started_at + stale_hours * 3_600_000 < now) → ⊥)
      → IsOutcome faults r c o
      → IsRound faults now stale_hours r c (goes_on (adopt r o c))
  adopt-IsRound (throws runs) young (others, fault) = (
    _,
    refl,
    Extends-failed r.id c runs others,
    inr (young, inr (In-append_last r.id c.summary.failed, fault)),
  )
  adopt-IsRound (returns d) young (others, (after, found, how)) = (
    _,
    refl,
    record {
      others = others;
      resumed = λ i m. In-append_left i c.summary.resumed (r.id ∷ []) m;
      failed = λ i m. m;
      dispatched = λ e m. In-append_left e c.dispatched d.dispatched m;
    },
    inr (young, inl (In-append_last r.id c.summary.resumed, (after, found, started how))),
  )
    where
      started :
          (((after.status ≡ running)
              × ((pairs : List AuditPair) × In {A = String × List AuditPair}
                    (r.id, pairs)
                    d.dispatched))
            ⊎ ((after.status ≡ failed)
                × ((n : ℕ) × (after.error ≡ some (scope_grew n r.total_jobs))
                    × (r.total_jobs < n))))
          → ((after.status ≡ running)
              × ((pairs : List AuditPair) × In {A = String × List AuditPair}
                    (r.id, pairs)
                    (c.dispatched ++ d.dispatched)))
            ⊎ ((after.status ≡ failed)
                × ((n : ℕ) × (after.error ≡ some (scope_grew n r.total_jobs)) × (r.total_jobs < n)))
      started (inl (s, (pairs, m))) =
          inl (s, (pairs, In-append_right (r.id, pairs) c.dispatched d.dispatched m))
      started (inr refusal) = inr refusal

  -- A round on a run that is open, and found as it was, ends unless failRun throws.
  pub reconcile_one-IsRound :
      (order : RowOrder)
      → find_run r.id c.db.runs ≡ some r
      → is_open r.status ≡ true
      → faults.fail_run r.id ≡ false
      → IsRound faults now stale_hours r c (reconcile_one faults order now stale_hours r c)
  unfolding reconcile_one
  reconcile_one-IsRound order found open_run calm =
      elim (Bool-cases (is_stale r.started_at now stale_hours)) [
        | inl e ↦
            let runs = fail_run now r.id (abandoned stale_hours) c.db.runs in
            rw (e, calm)
              (
                _,
                refl,
                Extends-failed r.id c runs (λ other ne.
                    find-fail_run_other now r.id other (abandoned stale_hours) c.db.runs ne),
                inl (
                  stale_iff r now stale_hours e,
                  In-append_last r.id c.summary.failed,
                  (
                    broken now (abandoned stale_hours) r,
                    find-fail_run_open now r.id (abandoned stale_hours) c.db.runs r found open_run,
                    refl,
                    refl,
                  ),
                ),
              )
        | inr e ↦ rw e (
            adopt-IsRound (resume_run faults order now c.db r.id) (not_stale r now stale_hours e)
              (resume_run-IsOutcome faults now r c found order))
      ]
