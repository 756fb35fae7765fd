-- ===== src/Engine/Consumer/Cancelled.antt =====
-- A run that is cancelled while its consumer sleeps.
use pr_review.Prelude.{
  ℕ, ◌≡◌, refl, ap, ◌∙◌, true, false, some, eq_iff, arith, contains, contains-snoc,
}
use pr_review.Core.Models.{Run, cancelled}
use pr_review.Storage.Runs.{lookup_run, moved, set_run_state}
use pr_review.Storage.Runs.Laws.{lookup-set_run_state}
use pr_review.Engine.Scheduler.{Scheduler, cancel}
use pr_review.Engine.Consumer.{launch, run_or}

abbrev ended : ℕ → Run → Run
ended now = moved now cancelled "cancelled by request"

cancelled_row :
    (now : ℕ) (run row : Run) (s : Scheduler)
    → lookup_run s.store run.id ≡ some row
    → lookup_run (set_run_state now run.id cancelled "cancelled by request" s.store) run.id
      ≡ some (ended now row)
cancelled_row now run row s found =
    lookup-set_run_state now run.id cancelled "cancelled by request" s.store run.id
    ∙ ground (arith, found, eq_iff run.id run.id)

cancelled_state : (now : ℕ) (row : Run) → (ended now row).state ≡ cancelled
unfolding moved
cancelled_state now row = refl

-- If a run is cancelled between `claim` and `launch`, `cancel` answers as it does for any run that
-- is not active, and the run's task is started all the same, with the state that says it is over.
pub cancel-launch :
    (now : ℕ) (run row : Run) (s : Scheduler)
    → lookup_run s.store run.id ≡ some row
    → contains run.id s.active ≡ false
    → let s' = (cancel now run.id s).1 in
      ((cancel now run.id s).0 ≡ false)
      × ((launch run true s').0.state ≡ cancelled)
      × (contains run.id (launch run true s').1.active ≡ true)
unfolding launch cancel
cancel-launch now run row s found idle = (
  idle,
  ap (λ o. (run_or o run).state) (cancelled_row now run row s found) ∙ cancelled_state now row,
  ground (arith, contains-snoc run.id run.id s.active, eq_iff run.id run.id),
)
