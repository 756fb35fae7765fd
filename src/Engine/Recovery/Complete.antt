-- ===== src/Engine/Recovery/Complete.antt =====
-- Recovery puts every interrupted run back on the queue, if the queue has room for them.
use pr_review.Prelude.{
  ℕ, ◌+◌, ◌≤◌, ◌<◌, String, ◌≡◌, sym, ap, ◌∙◌, subst, refl, Bool, true, false, not, if◌then◌else◌,
  count_where, List, [], ◌∷◌, All, eq_iff, arith, length, contains, contains-snoc,
}
use pr_review.Core.Models.{
  Run, RunState, queued, preparing, image_build, base_run, head_run, probing, adjudicating,
  rendering, done, failed, cancelled, value, state_eq, is_terminal,
}
use pr_review.Storage.Runs.{
  Row, Table, insert_by, order_by, where_runs, oldest_first, unfinished_runs,
}
use pr_review.Engine.Queue.{Queue, lane, enqueue}
use pr_review.Engine.Queue.Steps.{lane-enqueue}
use pr_review.Engine.Scheduler.{Config, Scheduler, emit, run_recovered, requeue}
use pr_review.Engine.Scheduler.Requeue.{queue-requeue}
use pr_review.Engine.Recovery.{requeue_all, recover}

-- The states that end a run.
abbrev pub is_over : RunState → Bool
is_over done = true
is_over failed = true
is_over cancelled = true
is_over _ = false

abbrev pub is_open : Row → Bool
is_open row = not (is_over row.run.state)

is_terminal-eq : (state : RunState) → is_terminal state ≡ is_over state
unfolding is_terminal state_eq value
is_terminal-eq queued = refl
is_terminal-eq preparing = refl
is_terminal-eq image_build = refl
is_terminal-eq base_run = refl
is_terminal-eq head_run = refl
is_terminal-eq probing = refl
is_terminal-eq adjudicating = refl
is_terminal-eq rendering = refl
is_terminal-eq done = refl
is_terminal-eq failed = refl
is_terminal-eq cancelled = refl

module _ (P : Run → Type 0) (before : Run → Run → Bool) where
  All-placed :
      (b : Bool) (r s : Run) (rs placed : List Run)
      → (All P placed → P r × All P rs)
      → All P (if b then r ∷ s ∷ rs else s ∷ placed)
      → P r × All P (s ∷ rs)
  All-placed true r s rs placed rest h = h
  All-placed false r s rs placed rest h = let (p, ps) = rest h.1 in (p, (h.0, ps))

  All-insert_by : (r : Run) (rs : List Run) → All P (insert_by before r rs) → P r × All P rs
  unfolding insert_by
  All-insert_by r [] h = h
  All-insert_by r (s ∷ rs) h =
      All-placed (before r s) r s rs (insert_by before r rs) (λ k. All-insert_by r rs k) h

  All-order_by : (rs : List Run) → All P (order_by before rs) → All P rs
  unfolding order_by
  All-order_by [] h = h
  All-order_by (r ∷ rs) h =
      let rest = All-insert_by r (order_by before rs) h in (rest.0, All-order_by rs rest.1)

length-insert_by :
    (before : Run → Run → Bool) (r : Run) (rs : List Run)
    → length (insert_by before r rs) ≡ length rs + 1
unfolding insert_by
length-insert_by before r [] = omega arith
length-insert_by before r (s ∷ rs) = ground (arith, length-insert_by before r rs)

length-order_by :
    (before : Run → Run → Bool) (rs : List Run) → length (order_by before rs) ≡ length rs
unfolding order_by
length-order_by before [] = refl
length-order_by before (r ∷ rs) =
    length-insert_by before r (order_by before rs) ∙ omega (arith, length-order_by before rs)

length-open :
    (rows : Table)
    → length (where_runs (λ r. not (is_terminal r.state)) rows) ≡ count_where is_open rows
unfolding where_runs
length-open [] = refl
length-open (row ∷ rows) = ground (arith, is_terminal-eq row.run.state, length-open rows)

length-unfinished_runs : (rows : Table) → length (unfinished_runs rows) ≡ count_where is_open rows
unfolding unfinished_runs
length-unfinished_runs rows = length-order_by oldest_first _ ∙ length-open rows

by_state :
    (P : Run → Type 0) (row : Row) (b : Bool) (rows : Table) (rs : List Run)
    → b ≡ is_open row
    → (All P rs → All (λ row'. is_open row' ≡ true → P row'.run) rows)
    → All P (if b then row.run ∷ rs else rs)
    → All (λ row'. is_open row' ≡ true → P row'.run) (row ∷ rows)
by_state P row true rows rs e rest h = (λ o. h.0, rest h.1)
by_state P row false rows rs e rest h = (λ o. absurd (ground arith), rest h)

open-All :
    (P : Run → Type 0) (rows : Table)
    → All P (where_runs (λ r. not (is_terminal r.state)) rows)
    → All (λ row. is_open row ≡ true → P row.run) rows
unfolding where_runs
open-All P [] h = h
open-All P (row ∷ rows) h =
    by_state P row (not (is_terminal row.run.state)) rows
      (where_runs (λ r. not (is_terminal r.state)) rows) (ap not (is_terminal-eq row.run.state))
      (λ k. open-All P rows k) h

unfinished-All :
    (P : Run → Type 0) (rows : Table)
    → All P (unfinished_runs rows)
    → All (λ row. is_open row ≡ true → P row.run) rows
unfolding unfinished_runs
unfinished-All P rows h = open-All P rows (All-order_by P oldest_first _ h)

module _ (max_depth : ℕ) (repo identifier : String) (q : Queue) where
  enqueue-contains :
      q.depth < max_depth
      → contains identifier (lane (enqueue max_depth repo identifier q).0 repo) ≡ true
  enqueue-contains room = ground (
    arith,
    lane-enqueue max_depth repo identifier q repo,
    eq_iff repo repo,
    contains-snoc identifier identifier (lane q repo),
    eq_iff identifier identifier,
  )

  enqueue-keeps :
      (other id : String)
      → contains id (lane q other) ≡ true
      → contains id (lane (enqueue max_depth repo identifier q).0 other) ≡ true
  enqueue-keeps other id h = ground (
    arith,
    lane-enqueue max_depth repo identifier q other,
    eq_iff repo other,
    contains-snoc id identifier (lane q repo),
  )

  depth-enqueue-le : (enqueue max_depth repo identifier q).0.depth ≤ q.depth + 1
  unfolding enqueue
  depth-enqueue-le = ground arith

module _ (cfg : Config) (now : ℕ) where
  abbrev recovered : Run → Scheduler → Scheduler
  recovered run s =
      requeue cfg now run (emit (run_recovered run.id run.repo run.pr_number run.state) s)

  queue-recovered :
      (run : Run) (s : Scheduler)
      → (recovered run s).queue ≡ (enqueue cfg.max_queue_depth run.repo run.id s.queue).0
  unfolding emit
  queue-recovered run s =
      queue-requeue cfg now run (emit (run_recovered run.id run.repo run.pr_number run.state) s)

  abbrev pub Waits : Queue → Run → Type 0
  Waits q run = contains run.id (lane q run.repo) ≡ true

  requeue_all-keeps :
      (runs : List Run) (s : Scheduler) (run : Run)
      → Waits s.queue run
      → Waits (requeue_all cfg now runs s).queue run
  unfolding requeue_all
  requeue_all-keeps [] s run w = w
  requeue_all-keeps (r ∷ runs) s run w = requeue_all-keeps runs (recovered r s) run (
      ap (λ q. contains run.id (lane q run.repo)) (queue-recovered r s)
      ∙ enqueue-keeps cfg.max_queue_depth r.repo r.id s.queue run.repo run.id w)

  requeue_all-Waits :
      (runs : List Run) (s : Scheduler)
      → s.queue.depth + length runs ≤ cfg.max_queue_depth
      → All (Waits (requeue_all cfg now runs s).queue) runs
  unfolding requeue_all
  requeue_all-Waits [] s room = tt
  requeue_all-Waits (r ∷ runs) s room = (
    requeue_all-keeps runs (recovered r s) r (
        ap (λ q. contains r.id (lane q r.repo)) (queue-recovered r s)
        ∙ enqueue-contains cfg.max_queue_depth r.repo r.id s.queue (omega arith)),
    requeue_all-Waits runs (recovered r s) (
        omega (
          arith,
          ap (λ (q : Queue). q.depth) (queue-recovered r s),
          depth-enqueue-le cfg.max_queue_depth r.repo r.id s.queue,
        )),
  )

  queue-recover :
      (orphans : ℕ) (s : Scheduler)
      → (recover cfg now orphans s).1.queue
        ≡ (requeue_all cfg now (unfinished_runs s.store) s).queue
  unfolding recover emit
  queue-recover orphans s = ground arith

  -- At boot, if the queue has room for as many runs as the table holds that are neither done nor failed
  -- nor cancelled, each of them waits in the lane of its repository.
  pub recover-Waits :
      (orphans : ℕ) (s : Scheduler)
      → s.queue.depth + count_where is_open s.store ≤ cfg.max_queue_depth
      → All (λ row. is_open row ≡ true → Waits (recover cfg now orphans s).1.queue row.run) s.store
  recover-Waits orphans s room =
      unfinished-All (Waits (recover cfg now orphans s).1.queue) s.store (
        subst (λ q. All (Waits q) (unfinished_runs s.store)) (sym (queue-recover orphans s))
          (requeue_all-Waits (unfinished_runs s.store) s (
            subst (λ n. s.queue.depth + n ≤ cfg.max_queue_depth)
              (sym (length-unfinished_runs s.store)) room)))
