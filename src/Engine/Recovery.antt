-- ===== src/Engine/Recovery.antt =====
-- prflagger/engine/recovery.py. How many orphaned containers were killed is Docker's answer, an
-- argument.
pub mod Complete
use pr_review.Prelude.{ℕ, List, [], ◌∷◌, ◌&&◌, eqb, length, if◌then◌else◌}
use pr_review.Core.Models.{Run}
use pr_review.Storage.Runs.{unfinished_runs}
use pr_review.Engine.Scheduler.{Config, Scheduler, emit, run_recovered, service_recovered, requeue}

unfoldable pub requeue_all : Config → ℕ → List Run → Scheduler → Scheduler
requeue_all cfg now [] s = s
requeue_all cfg now (run ∷ runs) s =
    requeue_all cfg now runs
      (requeue cfg now run (emit (run_recovered run.id run.repo run.pr_number run.state) s))

unfoldable pub recover : Config → ℕ → ℕ → Scheduler → List Run × Scheduler
recover cfg now orphans s =
    let stranded = unfinished_runs s.store in
    let s' = requeue_all cfg now stranded s in
    (
      stranded,
      if eqb (length stranded) 0 && eqb orphans 0
          then s'
          else emit (service_recovered (length stranded) orphans) s',
    )
