-- ===== src/Engine/Scheduler/Submit.antt =====
-- Which branch `submit` takes, and what it leaves on each.
use pr_review.Prelude.{
  ℕ, ◌≤◌, ◌<◌, String, ◌≡◌, ◌≢◌, refl, Bool, true, false, Option, none, some, ◌==◌, ◌||◌, ◌⊎◌, inl,
  inr, eq_iff, arith, leb, if◌then◌else◌, get, get-put, Bool-cases,
}
use pr_review.Core.Models.{PullRequest}
use pr_review.Storage.Runs.{find, lookup_run, latest_run, repointed}
use pr_review.Storage.Runs.Laws.{map_run, lookup-retarget}
use pr_review.Engine.Scheduler.{
  Config, Pending, Scheduler, key_of, submit_new, redirect, same_answer, submit_pending, submit,
}
use pr_review.Engine.Scheduler.Outcome.{IsAdmitted, IsRefused, submit_new-room, submit_new-full}

module _ (pull : PullRequest) (trigger : String) (s : Scheduler) where
  abbrev key : String
  key = key_of pull.repo pull.number

  -- The pending run of the pull request has the newest commits if it has not started, and nothing
  -- is added to the queue.
  pub record IsRedirected (pending : Pending) (r : Option String × Scheduler) : Type 0 where
    pub result : r.0 ≡ some pending.run_id
    pub queue : r.1.queue ≡ s.queue
    pub runs :
        (id : String)
        → lookup_run r.1.store id ≡ (
            if pending.run_id == id
            then map_run (repointed pull.base_sha pull.head_sha) (lookup_run s.store id)
            else lookup_run s.store id)
    pub entries :
        (k : String)
        → get r.1.pending k ≡ (
            if key == k
            then some (record pending { pull = pull; trigger = trigger })
            else get s.pending k)

  pub redirect-IsRedirected : (p : Pending) → IsRedirected p (redirect pull trigger p s)
  unfolding redirect
  redirect-IsRedirected p = record {
    result = refl;
    queue = refl;
    runs = lookup-retarget p.run_id pull.base_sha pull.head_sha s.store;
    entries = get-put s.pending key (record p { pull = pull; trigger = trigger });
  }

module _ (cfg : Config) (now : ℕ) (identifier : String) (pull : PullRequest) (trigger : String)
    (s : Scheduler) where
  abbrev IsComplete : Type 0
  IsComplete = (pull.base_sha ≢ "") × (pull.head_sha ≢ "")

  -- The latest run already answers for this head, or none does.
  abbrev answered : Bool
  answered = same_answer pull (latest_run pull.repo pull.number s.store)

  -- No run of the pull request waits.
  abbrev HasNoPending : Type 0
  HasNoPending = (p : Pending) → get s.pending (key pull trigger s) ≡ some p → p.run_id ≡ ""

  -- Whether `submit` starts a new run.
  abbrev IsNew : Bool → Type 0
  IsNew force = IsComplete × ((force ≡ true) ⊎ ((answered ≡ false) × HasNoPending))

  pub data Outcome (force : Bool) (r : Option String × Scheduler) : Type 0 where
    incomplete : (pull.base_sha ≡ "") ⊎ (pull.head_sha ≡ "") → r ≡ (none, s) → Outcome force r
    repeated : IsComplete → force ≡ false → answered ≡ true → r ≡ (none, s) → Outcome force r
    redirected :
        (p : Pending)
        → IsComplete
        → force ≡ false
        → answered ≡ false
        → get s.pending (key pull trigger s) ≡ some p
        → p.run_id ≢ ""
        → IsRedirected pull trigger s p r
        → Outcome force r
    admitted :
        IsNew force
        → s.queue.depth < cfg.max_queue_depth
        → IsAdmitted cfg now identifier pull trigger s r
        → Outcome force r
    refused :
        IsNew force
        → cfg.max_queue_depth ≤ s.queue.depth
        → IsRefused cfg now identifier pull trigger s r
        → Outcome force r

  module _ (new : find s.store identifier ≡ none) where
    new-Outcome :
        (force : Bool) → IsNew force → Outcome force (submit_new cfg now identifier pull trigger s)
    new-Outcome force w = elim (Bool-cases (leb cfg.max_queue_depth s.queue.depth)) [
      | inl full ↦
          let p : cfg.max_queue_depth ≤ s.queue.depth = ground arith in
          refused w p (submit_new-full cfg now identifier pull trigger s new p)
      | inr room ↦
          let p : s.queue.depth < cfg.max_queue_depth = ground arith in
          admitted w p (submit_new-room cfg now identifier pull trigger s new p)
    ]

    pending-Outcome :
        (o : Option Pending)
        → get s.pending (key pull trigger s) ≡ o
        → IsComplete
        → answered ≡ false
        → Outcome false (submit_pending cfg now identifier pull trigger o s)
    unfolding submit_pending
    pending-Outcome none e c a = new-Outcome false (c, inr (a, λ p q. ground arith))
    pending-Outcome (some p) e c a = elim (Bool-cases (p.run_id == "")) [
      | inl empty ↦
          rw empty (new-Outcome false (c, inr (a, λ q same. ground (arith, eq_iff p.run_id ""))))
      | inr named ↦ rw named (
          redirected p c refl a e (ground (arith, eq_iff p.run_id ""))
            (redirect-IsRedirected pull trigger s p))
    ]

    module _ (c : IsComplete) where
      unforced-Outcome :
          (b : Bool)
          → answered ≡ b
          → Outcome false (
              if b
              then (none, s)
              else submit_pending cfg now identifier pull trigger
                  (get s.pending (key pull trigger s))
                  s)
      unforced-Outcome true a = repeated c refl a refl
      unforced-Outcome false a = pending-Outcome (get s.pending (key pull trigger s)) refl c a

      complete-Outcome :
          (force : Bool)
          → Outcome force (
              if force
              then submit_new cfg now identifier pull trigger s
              else if answered
              then (none, s)
              else submit_pending cfg now identifier pull trigger
                  (get s.pending (key pull trigger s))
                  s)
      complete-Outcome true = new-Outcome true (c, inl refl)
      complete-Outcome false = unforced-Outcome answered refl

    abbrev missing : Bool
    missing = pull.base_sha == "" || pull.head_sha == ""

    is_incomplete : missing ≡ true → (pull.base_sha ≡ "") ⊎ (pull.head_sha ≡ "")
    is_incomplete h = ground (arith, eq_iff pull.base_sha "", eq_iff pull.head_sha "")

    is_complete : missing ≡ false → IsComplete
    is_complete h = (
      (λ e. ground (arith, eq_iff pull.base_sha "")),
      (λ e. ground (arith, eq_iff pull.base_sha "", eq_iff pull.head_sha "")),
    )

    -- With a fresh identifier, `submit` has five outcomes, each under the condition stated with it: a pull request without
    -- both commits, or whose head is already answered for, changes nothing; a pending run is
    -- pointed at the new commits and the queue stays as it is; otherwise a new run is admitted at
    -- the back of its lane, or, if the queue is full, refused and its row cancelled.
    pub submit-Outcome :
        (force : Bool) → Outcome force (submit cfg now identifier pull trigger force s)
    unfolding submit
    submit-Outcome force = elim (Bool-cases missing) [
      | inl m ↦ rw m (incomplete (is_incomplete m) refl)
      | inr m ↦ rw m (complete-Outcome (is_complete m) force)
    ]
