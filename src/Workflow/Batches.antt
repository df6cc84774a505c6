-- ===== src/Workflow/Batches.antt =====
-- What auditRunWorkflow (lib/workflows/auditRun.ts) dispatches, and when it stops.
use pagespeed_auditor.Prelude.{
  ℕ, zero, suc, ◌≤◌, ◌<◌, ◌≡◌, ◌≢◌, refl, ap, ◌∙◌, ◌⊎◌, inl, inr, Option, none, some, List, [], ◌∷◌,
  ◌++◌, arith, take, drop, length, length-take, length-drop, take-append-drop,
}
use mathlib.Core.List.{append_assoc}
use pagespeed_auditor.Domain.{
  RunStatus, queued, running, paused, completed, failed, cancelled, skipped, AuditPair,
}
use pagespeed_auditor.Workflow.{
  Boundary, passes, halts, waits, at_boundary, Ending, reconciled, stopped, waiting, out_of_fuel,
  Trace, with_batch, after_boundary, run_batches, audit_run_workflow,
}

abbrev pub concat : List (List AuditPair) → List AuditPair
concat [] = []
concat (b ∷ bs) = b ++ concat bs

-- So many reads of a paused run.
abbrev pub pauses : ℕ → List (Option RunStatus)
pauses zero = []
pauses (suc k) = some paused ∷ pauses k

-- The reads let the next batch through: after a number of pauses the run is found running.
abbrev pub LetsThrough : (reads rest : List (Option RunStatus)) → Type 0
LetsThrough reads rest = (k : ℕ) × (reads ≡ pauses k ++ some running ∷ rest)

-- After a number of pauses the run is found neither running nor paused, or not at all.
abbrev pub Stops : List (Option RunStatus) → Type 0
Stops reads =
    (k : ℕ) × (s : Option RunStatus) × (rest : List (Option RunStatus)) × (reads
      ≡ pauses k ++ s ∷ rest)
    × (s ≢ some running)
    × (s ≢ some paused)

-- Nothing but pauses, so far.
abbrev pub KeepsWaiting : List (Option RunStatus) → Type 0
KeepsWaiting reads = (k : ℕ) × (reads ≡ pauses k)

abbrev IsBoundary : List (Option RunStatus) → Boundary → Type 0
IsBoundary reads (passes rest) = LetsThrough reads rest
IsBoundary reads halts = Stops reads
IsBoundary reads waits = KeepsWaiting reads

after_pause :
    (reads : List (Option RunStatus)) (b : Boundary)
    → IsBoundary reads b
    → IsBoundary (some paused ∷ reads) b
after_pause reads (passes rest) (k, e) = (suc k, ap (◌∷◌ (some paused)) e)
after_pause reads halts (k, s, rest, e, r, p) = (suc k, s, rest, ap (◌∷◌ (some paused)) e, r, p)
after_pause reads waits (k, e) = (suc k, ap (◌∷◌ (some paused)) e)

at_boundary-IsBoundary : (reads : List (Option RunStatus)) → IsBoundary reads (at_boundary reads)
unfolding at_boundary
at_boundary-IsBoundary [] = (0, refl)
at_boundary-IsBoundary (none ∷ reads) = (0, none, reads, refl, (λ e. cc), λ e. cc)
at_boundary-IsBoundary (some running ∷ reads) = (0, refl)
at_boundary-IsBoundary (some paused ∷ reads) =
    after_pause reads (at_boundary reads) (at_boundary-IsBoundary reads)
at_boundary-IsBoundary (some queued ∷ reads) =
    (0, some queued, reads, refl, (λ e. ground arith), λ e. ground arith)
at_boundary-IsBoundary (some completed ∷ reads) =
    (0, some completed, reads, refl, (λ e. ground arith), λ e. ground arith)
at_boundary-IsBoundary (some failed ∷ reads) =
    (0, some failed, reads, refl, (λ e. ground arith), λ e. ground arith)
at_boundary-IsBoundary (some cancelled ∷ reads) =
    (0, some cancelled, reads, refl, (λ e. ground arith), λ e. ground arith)
at_boundary-IsBoundary (some skipped ∷ reads) =
    (0, some skipped, reads, refl, (λ e. ground arith), λ e. ground arith)

-- The dispatched batches are the pairs in order, without a repetition: what is left out is an end of
-- the list, and nothing of it if the workflow reaches its end.
abbrev pub IsPrefixOf : List AuditPair → Trace → Type 0
IsPrefixOf pairs t =
    (rest : List AuditPair) × (concat t.batches ++ rest ≡ pairs)
    × (t.ending ≡ reconciled → rest ≡ [])

after_boundary-IsPrefix :
    (pairs : List AuditPair) (next : List (Option RunStatus) → Trace) (b : Boundary)
    → ((reads : List (Option RunStatus)) → IsPrefixOf pairs (next reads))
    → IsPrefixOf pairs (after_boundary next b)
after_boundary-IsPrefix pairs next (passes rest) h = h rest
after_boundary-IsPrefix pairs next halts h = (pairs, refl, λ e. cc)
after_boundary-IsPrefix pairs next waits h = (pairs, refl, λ e. cc)

with_batch-IsPrefix :
    (n : ℕ) (pairs : List AuditPair) (t : Trace)
    → IsPrefixOf (drop n pairs) t
    → IsPrefixOf pairs (with_batch (take n pairs) t)
with_batch-IsPrefix n pairs t (rest, e, k) = (
  rest,
  append_assoc (take n pairs) (concat t.batches) rest
      ∙ ap (λ ys. take n pairs ++ ys) e
      ∙ take-append-drop n pairs,
  k,
)

run_batches-IsPrefix :
    (fuel n : ℕ) (pairs : List AuditPair) (reads : List (Option RunStatus))
    → IsPrefixOf pairs (run_batches fuel n pairs reads)
unfolding run_batches
run_batches-IsPrefix zero n pairs reads = (pairs, refl, λ e. cc)
run_batches-IsPrefix (suc fuel) n [] reads = ([], refl, λ e. refl)
run_batches-IsPrefix (suc fuel) n (p ∷ pairs) reads =
    with_batch-IsPrefix n (p ∷ pairs)
      (after_boundary (run_batches fuel n (drop n (p ∷ pairs))) (at_boundary reads))
      (after_boundary-IsPrefix (drop n (p ∷ pairs)) (run_batches fuel n (drop n (p ∷ pairs)))
        (at_boundary reads) (run_batches-IsPrefix fuel n (drop n (p ∷ pairs))))

-- How the batches follow the reads. No batch is larger than the size. After each, either the reads
-- let the workflow through to the rest of it, or it was the last one, and the reads have stopped the
-- workflow or keep it waiting.
abbrev pub IsPaced :
    ℕ → (reads : List (Option RunStatus)) → (batches : List (List AuditPair)) → Ending → Type 0
IsPaced n reads [] ending = ending ≡ reconciled
IsPaced n reads (b ∷ bs) ending =
    (length b ≤ n)
    × (((rest : List (Option RunStatus)) × LetsThrough reads rest × IsPaced n rest bs ending)
        ⊎ ((bs ≡ [])
            × (((ending ≡ stopped) × Stops reads) ⊎ ((ending ≡ waiting) × KeepsWaiting reads))))

with_batch-IsPaced :
    (n : ℕ) (batch : List AuditPair) (next : List (Option RunStatus) → Trace)
    (reads : List (Option RunStatus)) (b : Boundary)
    → length batch ≤ n
    → IsBoundary reads b
    → ((rest : List (Option RunStatus)) → IsPaced n rest (next rest).batches (next rest).ending)
    → IsPaced n reads
        (with_batch batch (after_boundary next b)).batches
        (with_batch batch (after_boundary next b)).ending
with_batch-IsPaced n batch next reads (passes rest) small e h = (small, inl (rest, e, h rest))
with_batch-IsPaced n batch next reads halts small e h = (small, inr (refl, inl (refl, e)))
with_batch-IsPaced n batch next reads waits small e h = (small, inr (refl, inr (refl, e)))

run_batches-IsPaced :
    (fuel n : ℕ) (pairs : List AuditPair) (reads : List (Option RunStatus))
    → 0 < n
    → length pairs < fuel
    → IsPaced n reads
        (run_batches fuel n pairs reads).batches
        (run_batches fuel n pairs reads).ending
unfolding run_batches
run_batches-IsPaced zero n pairs reads pos h = absurd (omega arith)
run_batches-IsPaced (suc fuel) n [] reads pos h = refl
run_batches-IsPaced (suc fuel) n (p ∷ pairs) reads pos h =
    with_batch-IsPaced n (take n (p ∷ pairs)) (run_batches fuel n (drop n (p ∷ pairs))) reads
      (at_boundary reads) (omega (arith, length-take n (p ∷ pairs))) (at_boundary-IsBoundary reads)
      (λ rest.
        run_batches-IsPaced fuel n (drop n (p ∷ pairs)) rest pos
          (omega (arith, length-drop n (p ∷ pairs))))

after_boundary-ends :
    (next : List (Option RunStatus) → Trace) (b : Boundary)
    → ((rest : List (Option RunStatus)) → (next rest).ending ≢ out_of_fuel)
    → (after_boundary next b).ending ≢ out_of_fuel
after_boundary-ends next (passes rest) h = h rest
after_boundary-ends next halts h = λ e. cc
after_boundary-ends next waits h = λ e. cc

run_batches-ends :
    (fuel n : ℕ) (pairs : List AuditPair) (reads : List (Option RunStatus))
    → 0 < n
    → length pairs < fuel
    → (run_batches fuel n pairs reads).ending ≢ out_of_fuel
unfolding run_batches
run_batches-ends zero n pairs reads pos h = absurd (omega arith)
run_batches-ends (suc fuel) n [] reads pos h = λ e. cc
run_batches-ends (suc fuel) n (p ∷ pairs) reads pos h =
    after_boundary-ends (run_batches fuel n (drop n (p ∷ pairs))) (at_boundary reads) (λ rest.
      run_batches-ends fuel n (drop n (p ∷ pairs)) rest pos
        (omega (arith, length-drop n (p ∷ pairs))))

-- A workflow with batches of at least one pair stops, waits for the run to be resumed, or comes to
-- its end. It dispatches the run's pairs in order and none of them twice, all of them if it comes to
-- its end. No batch is larger than the batch size. After each batch the reads of the run's status
-- decide: over any number of pauses nothing starts; when the run is then found running, the workflow
-- goes on with the reads that follow; when it is found otherwise, or not at all, the workflow stops
-- and dispatches nothing more; and as long as there are only pauses it waits.
pub audit_run_workflow_dispatches :
    (batch_size : ℕ) (pairs : List AuditPair) (reads : List (Option RunStatus))
    → 0 < batch_size
    → ((audit_run_workflow batch_size pairs reads).ending ≢ out_of_fuel)
      × IsPrefixOf pairs (audit_run_workflow batch_size pairs reads)
      × IsPaced batch_size reads
          (audit_run_workflow batch_size pairs reads).batches
          (audit_run_workflow batch_size pairs reads).ending
unfolding audit_run_workflow
audit_run_workflow_dispatches batch_size pairs reads pos = (
  run_batches-ends (suc (length pairs)) batch_size pairs reads pos (omega arith),
  run_batches-IsPrefix (suc (length pairs)) batch_size pairs reads,
  run_batches-IsPaced (suc (length pairs)) batch_size pairs reads pos (omega arith),
)
