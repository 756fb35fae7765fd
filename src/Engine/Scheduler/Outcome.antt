-- ===== src/Engine/Scheduler/Outcome.antt =====
-- What `submit` leaves, on each of its branches.
use pr_review.Prelude.{
  ℕ, ◌+◌, ◌≤◌, ◌<◌, String, ◌≡◌, ◌≢◌, refl, sym, subst, ap, ◌∙◌, Bool, true, false, Option, none,
  some, [], ◌∷◌, ◌++◌, ◌==◌, eq_iff, arith, if◌then◌else◌, get, get-put,
}
use pr_review.Core.Models.{PullRequest, Run, cancelled}
use pr_review.Storage.Runs.{Table, find, inserted, lookup_run, moved, set_run_state}
use pr_review.Storage.Runs.Laws.{lookup-set_run_state}
use pr_review.Engine.Queue.{Queue, lane, admit, enqueue}
use pr_review.Engine.Queue.Invariant.{IsSound}
use pr_review.Engine.Queue.Steps.{
  admit-IsSound, rejected-IsSound, lane-admit, depth-admit, enqueue-room, enqueue-full,
}
use pr_review.Engine.Scheduler.{
  Config, Pending, Scheduler, key_of, new_run, create, enqueue_run, submit_new, conclude, noted,
  full_message,
}
use pr_review.Engine.Scheduler.Create.{lookup-create}

module _ (cfg : Config) (now : ℕ) (identifier : String) (pull : PullRequest) (trigger : String)
    (s : Scheduler) where
  abbrev key : String
  key = key_of pull.repo pull.number

  abbrev entry : Pending
  entry = record { pull = pull; trigger = trigger; run_id = identifier; queued_at = now }

  -- The row of a new run.
  abbrev started : Run
  started = (inserted now (new_run now identifier pull trigger)).run

  -- A new run is at the back of its repository's lane, has a row and is pending.
  pub record IsAdmitted (r : Option String × Scheduler) : Type 0 where
    pub result : r.0 ≡ some identifier
    pub sound : IsSound s.queue → IsSound r.1.queue
    pub lanes :
        (repo : String)
        → lane r.1.queue repo ≡ (
            if pull.repo == repo
            then lane s.queue pull.repo ++ identifier ∷ []
            else lane s.queue repo)
    pub depth : r.1.queue.depth ≡ s.queue.depth + 1
    pub runs :
        (id : String)
        → lookup_run r.1.store id
          ≡ (if identifier == id then some started else lookup_run s.store id)
    pub entries :
        (k : String) → get r.1.pending k ≡ (if key == k then some entry else get s.pending k)

  -- The queue was full: nothing waits that did not before, and the new row is cancelled.
  pub record IsRefused (r : Option String × Scheduler) : Type 0 where
    pub result : r.0 ≡ none
    pub sound : IsSound s.queue → IsSound r.1.queue
    pub lanes : (repo : String) → lane r.1.queue repo ≡ lane s.queue repo
    pub counted : r.1.queue.rejected ≡ s.queue.rejected + 1
    pub ended : (run : Run) × (lookup_run r.1.store identifier ≡ some run) × (run.state ≡ cancelled)
    pub others : (id : String) → id ≢ identifier → lookup_run r.1.store id ≡ lookup_run s.store id
    pub pending : r.1.pending ≡ s.pending

  module _ (new : find s.store identifier ≡ none) where
    created : Scheduler
    created = create now identifier pull trigger s

    created-queue : created.queue ≡ s.queue
    unfolding created create
    created-queue = refl

    created-pending : created.pending ≡ s.pending
    unfolding created create
    created-pending = refl

    created-runs :
        (id : String)
        → lookup_run created.store id
          ≡ (if identifier == id then some started else lookup_run s.store id)
    unfolding created
    created-runs = lookup-create now identifier pull trigger s new

    abbrev ended_store : Table
    ended_store = set_run_state now identifier cancelled (full_message cfg) created.store

    ended-runs :
        (id : String)
        → lookup_run ended_store id ≡ (
            if identifier == id
            then some (moved now cancelled (full_message cfg) started)
            else lookup_run s.store id)
    ended-runs id =
        lookup-set_run_state now identifier cancelled (full_message cfg) created.store id
        ∙ ground (arith, created-runs id)

    -- What `submit_new` gives when `_enqueue` has answered `answer`.
    concluded : Queue × Bool → Option String × Scheduler
    unfolding conclude noted
    concluded answer =
        conclude cfg now identifier pull trigger (noted cfg pull.repo identifier created answer)

    submit_new-eq :
        submit_new cfg now identifier pull trigger s
        ≡ concluded (enqueue cfg.max_queue_depth pull.repo identifier s.queue)
    unfolding submit_new enqueue_run concluded created create
    submit_new-eq = refl

    concluded_room : IsAdmitted (concluded (admit pull.repo identifier s.queue, true))
    unfolding concluded
    concluded_room = record {
      result = refl;
      sound = admit-IsSound pull.repo identifier s.queue;
      lanes = lane-admit pull.repo identifier s.queue;
      depth = depth-admit pull.repo identifier s.queue;
      runs = λ id. created-runs id;
      entries = λ k. get-put created.pending key entry k ∙ ground (arith, created-pending);
    }

    concluded_full :
        IsRefused (concluded (record (s.queue) { rejected = s.queue.rejected + 1 }, false))
    unfolding concluded
    concluded_full = record {
      result = refl;
      sound = rejected-IsSound s.queue;
      lanes = λ repo. unfold lane in refl;
      counted = refl;
      ended = (
        moved now cancelled (full_message cfg) started,
        ended-runs identifier ∙ ground (arith, eq_iff identifier identifier),
        unfold moved in refl,
      );
      others = λ id ne. ended-runs id ∙ ground (arith, eq_iff identifier id);
      pending = created-pending;
    }

    pub submit_new-room :
        s.queue.depth < cfg.max_queue_depth
        → IsAdmitted (submit_new cfg now identifier pull trigger s)
    submit_new-room room =
        subst IsAdmitted
          (sym (
            submit_new-eq
            ∙ ap concluded (enqueue-room _ pull.repo identifier s.queue (ground arith))))
          concluded_room

    pub submit_new-full :
        cfg.max_queue_depth ≤ s.queue.depth
        → IsRefused (submit_new cfg now identifier pull trigger s)
    submit_new-full full =
        subst IsRefused
          (sym (
            submit_new-eq
            ∙ ap concluded (enqueue-full _ pull.repo identifier s.queue (ground arith))))
          concluded_full
