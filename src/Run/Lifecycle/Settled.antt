-- ===== src/Run/Lifecycle/Settled.antt =====
-- A run has a finishing time exactly while its status is terminal, and a terminal run stays as it
-- is under every write but a resume.
use pagespeed_auditor.Prelude.{
  ℕ, String, ◌≡◌, refl, false, Option, none, some, List, arith, All, All-append, All-update_first,
  All-update_where, All-find, Bool-cases, inl, inr, is_some, or_else,
}
use pagespeed_auditor.Domain.{RunStatus, running, RunError, Run}
use pagespeed_auditor.Tables.{has_id, find_run, update_run}
use pagespeed_auditor.Run.Lifecycle.{
  Outcome, ok, err, Failure, is_terminal, NewRun, create_run, create_skipped_run, finalized,
  finalize_found, finalize_run, is_open_run, broken, fail_run, RunControl, pause, resume, stop,
  check_control, controlled, control_checked, control_found, control_run,
}

abbrev pub IsSettled : Run → Type 0
IsSettled r = is_terminal r.status ≡ is_some r.finished_at

-- The table after an operation; an error leaves it as it was.
abbrev pub table : {A : Type 0} → List Run → Outcome (A × List Run) → List Run
table runs (ok r) = r.1
table runs (err e) = runs

pub create_run-IsSettled :
    (id : String) (now : ℕ) (input : NewRun) (status : Option RunStatus) (total : ℕ)
    (runs : List Run)
    → is_terminal (or_else status running) ≡ false
    → All IsSettled runs
    → All IsSettled (create_run id now input status total runs)
unfolding create_run
create_run-IsSettled id now input status total runs e h = All-append IsSettled runs _ h (e, tt)

pub create_skipped_run-IsSettled :
    (id : String) (now : ℕ) (input : NewRun) (reason : String) (runs : List Run)
    → All IsSettled runs
    → All IsSettled (create_skipped_run id now input reason runs)
unfolding create_skipped_run
create_skipped_run-IsSettled id now input reason runs h = All-append IsSettled runs _ h (refl, tt)

finalized-IsSettled : (now : ℕ) (r : Run) → IsSettled (finalized now r)
finalized-IsSettled now r = ground arith

module _ (now : ℕ) (id : String) (runs : List Run) (settled : All IsSettled runs) where
  finalize_found-IsSettled :
      (o : Option Run)
      → find_run id runs ≡ o
      → All IsSettled (table runs (finalize_found now id runs o))
  unfolding find_run update_run
  finalize_found-IsSettled none e = settled
  finalize_found-IsSettled (some r) e = elim (Bool-cases (is_terminal r.status)) [
    | inl t ↦ rw (t, table) settled
    | inr t ↦
        rw (t, table)
          (All-update_first IsSettled (has_id id) (finalized now) runs e settled
            (finalized-IsSettled now r))
  ]

  pub finalize_run-IsSettled : All IsSettled (table runs (finalize_run now id runs))
  unfolding finalize_run
  finalize_run-IsSettled = finalize_found-IsSettled (find_run id runs) refl

  pub fail_run-IsSettled : (message : RunError) → All IsSettled (fail_run now id message runs)
  unfolding fail_run
  fail_run-IsSettled message =
      All-update_where IsSettled (is_open_run id) (broken now message) runs (λ r k t. refl) settled

controlled-IsSettled :
    (now : ℕ) (action : RunControl) (r : Run)
    → check_control action r.status ≡ none
    → IsSettled r
    → IsSettled (controlled now action r)
controlled-IsSettled now pause r e h = ground arith
controlled-IsSettled now resume r e h = ground arith
controlled-IsSettled now stop r e h = refl

module _ (now batch_size : ℕ) (id : String) (action : RunControl) (runs : List Run)
    (settled : All IsSettled runs) where
  control_checked-IsSettled :
      (r : Run) (f : Option Failure)
      → find_run id runs ≡ some r
      → check_control action r.status ≡ f
      → All IsSettled (table runs (control_checked now batch_size id action runs r f))
  unfolding find_run update_run
  control_checked-IsSettled r (some refused) e c = settled
  control_checked-IsSettled r none e c =
      All-update_first IsSettled (has_id id) (controlled now action) runs e settled
        (controlled-IsSettled now action r c (All-find IsSettled (has_id id) runs e settled))

  control_found-IsSettled :
      (o : Option Run)
      → find_run id runs ≡ o
      → All IsSettled (table runs (control_found now batch_size id action runs o))
  control_found-IsSettled none e = settled
  control_found-IsSettled (some r) e =
      control_checked-IsSettled r (check_control action r.status) e refl

  pub control_run-IsSettled : All IsSettled (table runs (control_run now batch_size id action runs))
  unfolding control_run
  control_run-IsSettled = control_found-IsSettled (find_run id runs) refl
