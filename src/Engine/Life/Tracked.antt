-- ===== src/Engine/Life/Tracked.antt =====
-- Each method leaves the scheduler tracked.
use pr_review.Prelude.{
  ℕ, String, ◌≡◌, sym, ap, ◌∙◌, subst, Bool, Option, some, ◌==◌, eq_iff, arith, if◌then◌else◌,
  contains, Bool-cases, inl, inr,
}
use pr_review.Core.Models.{PullRequest, Run, queued, cancelled}
use pr_review.Storage.Runs.{Table, lookup_run, inserted, repointed}
use pr_review.Engine.Queue.{lane}
use pr_review.Engine.Queue.Invariant.{IsSound, idle-IsSound}
use pr_review.Engine.Queue.Steps.{enqueue-IsSound}
use pr_review.Engine.Queue.Next.{next-Turn, next-IsSound}
use pr_review.Engine.Scheduler.{Config, Scheduler, new_run, requeue, cancel}
use pr_review.Engine.Scheduler.Requeue.{queue-requeue, store-requeue}
use pr_review.Engine.Scheduler.Submit.{
  Outcome, incomplete, repeated, redirected, admitted, refused, submit-Outcome,
}
use pr_review.Engine.Consumer.{claim, launch, settle, Ending, stopped}
use pr_review.Engine.Life.{
  initial, Step, Reach, HasRow, IsTracked, Keeps, set_run_state-HasRow, IsTracked-by, same-HasRow,
  lane_cases, enqueue_cases, dispatched_cases, or_named, submits, requeues, cancels, claims,
  launches, settles, start, more,
}

module _ (cfg : Config) (s : Scheduler) (h : IsTracked s) where
  submit-IsTracked :
      {now : ℕ} {identifier : String} {pull : PullRequest} {trigger : String} {force : Bool}
      {r : Option String × Scheduler}
      → Outcome cfg now identifier pull trigger s force r
      → IsTracked r.1
  submit-IsTracked (incomplete _ e) = subst (λ r. IsTracked r.1) (sym e) h
  submit-IsTracked (repeated _ _ _ e) = subst (λ r. IsTracked r.1) (sym e) h
  submit-IsTracked {pull} {r} (redirected p _ _ _ _ _ f) =
      IsTracked-by s r.1 h (subst IsSound (sym f.queue) h.sound)
        (λ repo id w. inl (ap (λ q. contains id (lane q repo)) (sym f.queue) ∙ w))
        (λ id (run, e). (
          if p.run_id == id then repointed pull.base_sha pull.head_sha run else run,
          f.runs id ∙ ground (arith, e),
        ))
  submit-IsTracked {now} {identifier} {pull} {trigger} {r} (admitted _ _ f) =
      IsTracked-by s r.1 h (f.sound h.sound)
        (λ repo id w.
          or_named r.1.store identifier id
            (lane_cases s.queue r.1.queue pull.repo identifier repo id (f.lanes repo) w)
            (
              (inserted now (new_run now identifier pull trigger)).run,
              f.runs identifier ∙ ground (arith, eq_iff identifier identifier),
            ))
        (λ id (run, e). (
          if identifier == id
              then (inserted now (new_run now identifier pull trigger)).run
              else run,
          f.runs id ∙ ground (arith, e),
        ))
  submit-IsTracked {identifier} {pull} {r} (refused _ _ f) =
      IsTracked-by s r.1 h (f.sound h.sound)
        (λ repo id w. inl (ap (contains id) (sym (f.lanes repo)) ∙ w))
        (λ id row. elim (Bool-cases (id == identifier)) [
          | inl same ↦
              let (run, found, _) = f.ended in
              subst (HasRow r.1.store) (sym ((eq_iff id identifier).0 same)) (run, found)
          | inr other ↦
              same-HasRow s.store r.1.store id (f.others id (ground (arith, eq_iff id identifier)))
                row
        ])

  requeue-IsTracked :
      (now : ℕ) (run row : Run)
      → lookup_run s.store run.id ≡ some row
      → IsTracked (requeue cfg now run s)
  requeue-IsTracked now run row e =
      IsTracked-by s (requeue cfg now run s) h
        (subst IsSound (sym (queue-requeue cfg now run s))
          (enqueue-IsSound cfg.max_queue_depth run.repo run.id s.queue h.sound))
        (λ repo id w.
          or_named _ run.id id
            (enqueue_cases cfg.max_queue_depth run.repo run.id s.queue repo id
              (ap (λ q. contains id (lane q repo)) (sym (queue-requeue cfg now run s)) ∙ w))
            (keeps run.id (row, e)))
        keeps
    where
      keeps : Keeps s (requeue cfg now run s)
      keeps id r =
          subst (λ rows. HasRow rows id) (sym (store-requeue cfg now run s))
            (set_run_state-HasRow now run.id queued "" s.store id r)

  claim-IsTracked : (now : ℕ) → IsTracked (claim cfg now s).1
  unfolding claim
  claim-IsTracked now = record {
    sound = next-IsSound s.queue h.sound;
    rows = λ repo id w. h.rows repo id (dispatched_cases (next-Turn s.queue h.sound) repo id w);
  }

  cancel-IsTracked : (now : ℕ) (identifier : String) → IsTracked (cancel now identifier s).1
  unfolding cancel
  cancel-IsTracked now identifier = record {
    sound = h.sound;
    rows = λ repo id w.
        set_run_state-HasRow now identifier cancelled "cancelled by request" s.store id
          (h.rows repo id w);
  }

  settle-IsTracked :
      (now : ℕ) (identifier : String) (e : Ending) → IsTracked (settle now identifier e s)
  unfolding settle
  settle-IsTracked now identifier stopped = record {
    sound = h.sound;
    rows = λ repo id w.
        set_run_state-HasRow now identifier cancelled "cancelled" s.store id (h.rows repo id w);
  }
  settle-IsTracked now identifier _ = record { sound = h.sound; rows = h.rows }

  Step-IsTracked : {t : Scheduler} → Step cfg s t → IsTracked t
  unfolding launch
  Step-IsTracked (submits now identifier pull trigger force new) =
      submit-IsTracked (submit-Outcome cfg now identifier pull trigger s new force)
  Step-IsTracked (requeues now run row e) = requeue-IsTracked now run row e
  Step-IsTracked (cancels now identifier) = cancel-IsTracked now identifier
  Step-IsTracked (claims now) = claim-IsTracked now
  Step-IsTracked (launches run debounced) = record { sound = h.sound; rows = h.rows }
  Step-IsTracked (settles now identifier ending) = settle-IsTracked now identifier ending

initial-IsTracked : (rows : Table) → IsTracked (initial rows)
unfolding lane contains
initial-IsTracked rows = record { sound = idle-IsSound; rows = λ repo id w. ground arith }

-- Whatever methods are called, in whatever order, from an empty queue over any table: the queue stays
-- sound, and every identifier that waits in a lane has a row in the table. (A submission draws an
-- identifier that has no row yet, and a requeued run has one.)
pub Reach-IsTracked :
    (cfg : Config) (rows : Table) {s : Scheduler} → Reach cfg (initial rows) s → IsTracked s
Reach-IsTracked cfg rows start = initial-IsTracked rows
Reach-IsTracked cfg rows (more reached step) =
    Step-IsTracked cfg _ (Reach-IsTracked cfg rows reached) step
