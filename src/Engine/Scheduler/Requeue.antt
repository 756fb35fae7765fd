-- ===== src/Engine/Scheduler/Requeue.antt =====
-- `requeue`, part by part of the state.
use pr_review.Prelude.{ℕ, String, ◌≡◌, refl, Bool, true, false}
use pr_review.Core.Models.{Run, queued}
use pr_review.Storage.Runs.{set_run_state}
use pr_review.Engine.Queue.{Queue, enqueue}
use pr_review.Engine.Scheduler.{Config, Scheduler, noted, enqueue_run, requeue}

module _ (cfg : Config) (repo identifier : String) (s : Scheduler) where
  queue-noted : (a : Queue × Bool) → (noted cfg repo identifier s a).0.queue ≡ a.0
  unfolding noted
  queue-noted (q, true) = refl
  queue-noted (q, false) = refl

  store-noted : (a : Queue × Bool) → (noted cfg repo identifier s a).0.store ≡ s.store
  unfolding noted
  store-noted (q, true) = refl
  store-noted (q, false) = refl

  pending-noted : (a : Queue × Bool) → (noted cfg repo identifier s a).0.pending ≡ s.pending
  unfolding noted
  pending-noted (q, true) = refl
  pending-noted (q, false) = refl

module _ (cfg : Config) (now : ℕ) (run : Run) (s : Scheduler) where
  abbrev reset : Scheduler
  reset = record s { store = set_run_state now run.id queued "" s.store }

  pub queue-requeue :
      (requeue cfg now run s).queue ≡ (enqueue cfg.max_queue_depth run.repo run.id s.queue).0
  unfolding requeue enqueue_run
  queue-requeue = queue-noted cfg run.repo run.id reset _

  pub store-requeue : (requeue cfg now run s).store ≡ set_run_state now run.id queued "" s.store
  unfolding requeue enqueue_run
  store-requeue = store-noted cfg run.repo run.id reset _

  pub pending-requeue : (requeue cfg now run s).pending ≡ s.pending
  unfolding requeue enqueue_run
  pending-requeue = pending-noted cfg run.repo run.id reset _
