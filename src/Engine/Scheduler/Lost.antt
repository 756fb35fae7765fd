-- ===== src/Engine/Scheduler/Lost.antt =====
-- Runs that the scheduler loses: a cancelled run that stays pending, and a requeued run that a full
-- queue refuses.
use pr_review.Prelude.{
  ℕ, ◌≤◌, String, ◌≡◌, ◌≢◌, refl, ◌∙◌, ap, ap₂, Bool, false, none, some, List, [], ◌∷◌, All, ◌⊎◌,
  inl, inr, eq_iff, arith, get,
}
use pr_review.Core.Models.{RunState, PullRequest, Run, queued, cancelled, state_eq}
use pr_review.Storage.Runs.{lookup_run, moved, repointed}
use pr_review.Storage.Runs.Laws.{lookup-set_run_state}
use pr_review.Engine.Queue.{Queue, lane}
use pr_review.Engine.Queue.Steps.{enqueue-full}
use pr_review.Engine.Scheduler.{
  Config, Pending, Scheduler, key_of, redirect, submit_pending, submit, requeue, cancel,
}
use pr_review.Engine.Scheduler.Requeue.{queue-requeue, store-requeue}
use pr_review.Engine.Scheduler.Submit.{IsRedirected, redirect-IsRedirected}

repointed_lem :
    (base head : String) (run : Run)
    → state_eq run.state queued ≡ false
    → repointed base head run ≡ run
unfolding repointed
repointed_lem base head run e = rw e

-- The same pull request submitted again and again, each time at a time, with a fresh identifier.
pub resubmit : Config → String → List (ℕ × String × PullRequest) → Scheduler → Scheduler
resubmit cfg trigger [] s = s
resubmit cfg trigger ((now, identifier, pull) ∷ rest) s =
    resubmit cfg trigger rest (submit cfg now identifier pull trigger false s).1

module _ (repo : String) (number : ℕ) where
  -- The pull request's pending entry names a run that has been cancelled.
  pub record IsStale (s : Scheduler) : Type 0 where
    pub entry : Pending
    pub pending : get s.pending (key_of repo number) ≡ some entry
    pub named : entry.run_id ≢ ""
    pub run : Run
    pub found : lookup_run s.store entry.run_id ≡ some run
    pub over : run.state ≡ cancelled

  -- Cancelling a run that waits leaves its pending entry.
  pub cancel-IsStale :
      (now : ℕ) (s : Scheduler) (p : Pending) (run : Run)
      → get s.pending (key_of repo number) ≡ some p
      → p.run_id ≢ ""
      → lookup_run s.store p.run_id ≡ some run
      → IsStale (cancel now p.run_id s).1
  unfolding cancel
  cancel-IsStale now s p run e named found = record {
    entry = p;
    pending = e;
    named = named;
    run = moved now cancelled "cancelled by request" run;
    found =
        lookup-set_run_state now p.run_id cancelled "cancelled by request" s.store p.run_id
        ∙ ground (arith, eq_iff p.run_id p.run_id);
    over = unfold moved in refl;
  }

  not_queued : (st : RunState) → st ≡ cancelled → state_eq st queued ≡ false
  unfolding state_eq
  not_queued st e = ap (λ t. state_eq t queued) e

  -- An unforced `submit` of a pull request whose pending run is cancelled.
  submit_stale :
      (cfg : Config) (now : ℕ) (identifier : String) (pull : PullRequest) (trigger : String)
      (s : Scheduler) (p : Pending)
      → get s.pending (key_of pull.repo pull.number) ≡ some p
      → p.run_id ≢ ""
      → (submit cfg now identifier pull trigger false s ≡ (none, s))
        ⊎ (submit cfg now identifier pull trigger false s ≡ redirect pull trigger p s)
  unfolding submit submit_pending
  submit_stale cfg now identifier pull trigger s p e named = ground (arith, eq_iff p.run_id "")

  module _ (pull : PullRequest) (same_repo : pull.repo ≡ repo)
      (same_number : pull.number ≡ number) where
    same_key : key_of pull.repo pull.number ≡ key_of repo number
    same_key = ap₂ key_of same_repo same_number

    redirect-IsStale :
        (trigger : String) (s : Scheduler) (h : IsStale s)
        → IsStale (redirect pull trigger h.entry s).1
    redirect-IsStale trigger s h = record {
      entry = record (h.entry) { pull = pull; trigger = trigger };
      pending =
          r.entries (key_of repo number)
          ∙ ground (arith, same_key, eq_iff (key_of pull.repo pull.number) (key_of repo number));
      named = h.named;
      run = h.run;
      found =
          r.runs h.entry.run_id
          ∙ ground (
            arith,
            eq_iff h.entry.run_id h.entry.run_id,
            h.found,
            not_queued h.run.state h.over,
            repointed_lem pull.base_sha pull.head_sha h.run,
          );
      over = h.over;
    }
      where
        r : IsRedirected pull trigger s h.entry (redirect pull trigger h.entry s)
        r = redirect-IsRedirected pull trigger s h.entry

    IsStale-step :
        (cfg : Config) (now : ℕ) (identifier trigger : String) (s : Scheduler)
        → IsStale s
        → ((submit cfg now identifier pull trigger false s).1.queue ≡ s.queue)
          × IsStale (submit cfg now identifier pull trigger false s).1
    IsStale-step cfg now identifier trigger s h =
        elim (submit_stale cfg now identifier pull trigger s h.entry
          (ap (get s.pending) same_key ∙ h.pending) h.named) [
            | inl none_new ↦ rw none_new (refl, h)
            | inr again ↦
                rw again (
                  (redirect-IsRedirected pull trigger s h.entry).queue,
                  redirect-IsStale trigger s h,
                )
          ]

  abbrev IsOfPull : ℕ × String × PullRequest → Type 0
  IsOfPull (now, identifier, pull) = (pull.repo ≡ repo) × (pull.number ≡ number)

  -- While the pending entry names a cancelled run, no number of unforced submissions of the pull
  -- request, its head moving or not, puts anything on the queue, and the entry stays.
  pub resubmit_stuck :
      (cfg : Config) (trigger : String) (calls : List (ℕ × String × PullRequest)) (s : Scheduler)
      → All IsOfPull calls
      → IsStale s
      → ((resubmit cfg trigger calls s).queue ≡ s.queue) × IsStale (resubmit cfg trigger calls s)
  unfolding resubmit
  resubmit_stuck cfg trigger [] s all h = (refl, h)
  resubmit_stuck cfg trigger ((now, identifier, pull) ∷ rest) s all h =
      let step = IsStale-step pull all.0.0 all.0.1 cfg now identifier trigger s h in
      let later = resubmit_stuck cfg trigger rest _ all.1 step.1 in (later.0 ∙ step.0, later.1)

-- A run that `requeue` finds no room for is queued by its row, and waits in no lane that it did not
-- wait in before; the event log says that it was queued.
pub requeue_lost :
    (cfg : Config) (now : ℕ) (run row : Run) (s : Scheduler)
    → cfg.max_queue_depth ≤ s.queue.depth
    → lookup_run s.store run.id ≡ some row
    → ((repo : String) → lane (requeue cfg now run s).queue repo ≡ lane s.queue repo)
      × ((stored : Run) × (lookup_run (requeue cfg now run s).store run.id ≡ some stored)
          × (stored.state ≡ queued))
requeue_lost cfg now run row s full found = (
  (λ repo.
      ap (λ q. lane q repo)
        (queue-requeue cfg now run s
          ∙ ap (λ (a : Queue × Bool). a.0) (enqueue-full _ run.repo run.id s.queue (ground arith)))
      ∙ (unfold lane in refl)),
  (
    moved now queued "" row,
    ap (λ rows. lookup_run rows run.id) (store-requeue cfg now run s)
        ∙ lookup-set_run_state now run.id queued "" s.store run.id
        ∙ ground (arith, found, eq_iff run.id run.id),
    unfold moved in refl,
  ),
)
