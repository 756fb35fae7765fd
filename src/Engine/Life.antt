-- ===== src/Engine/Life.antt =====
-- The whole scheduler under any interleaving of its methods: every identifier that waits has a row.
pub mod Tracked
use pr_review.Prelude.{
  ℕ, String, ◌≡◌, sym, ap, ◌∙◌, subst, Bool, true, Option, none, some, [], ◌∷◌, ◌++◌, ◌==◌, eq_iff,
  arith, if◌then◌else◌, contains, contains-snoc, Bool-cases, inl, inr, ◌⊎◌,
}
use pr_review.Core.Models.{PullRequest, Run, RunState, queued, cancelled}
use pr_review.Storage.Runs.{Table, find, lookup_run, inserted, set_run_state, moved, repointed}
use pr_review.Storage.Runs.Laws.{lookup-set_run_state}
use pr_review.Engine.Queue.{Queue, lane, idle, enqueue}
use pr_review.Engine.Queue.Invariant.{IsSound, idle-IsSound}
use pr_review.Engine.Queue.Steps.{enqueue-IsSound, lane-enqueue}
use pr_review.Engine.Queue.Next.{Turn, sleeps, serves, next-Turn, next-IsSound}
use pr_review.Engine.Scheduler.{Config, Scheduler, new_run, submit, requeue, cancel}
use pr_review.Engine.Scheduler.Requeue.{queue-requeue, store-requeue}
use pr_review.Engine.Scheduler.Submit.{
  Outcome, incomplete, repeated, redirected, admitted, refused, submit-Outcome,
}
use pr_review.Engine.Consumer.{claim, launch, settle, Ending, stopped}

abbrev pub initial : Table → Scheduler
initial rows = record { queue = idle; pending = []; active = []; store = rows; events = [] }

-- One call of a method, at any time, with any arguments that its callers may give.
pub data Step (cfg : Config) (s : Scheduler) : Scheduler → Type 0 where
  submits :
      (now : ℕ) (identifier : String) (pull : PullRequest) (trigger : String) (force : Bool)
      → find s.store identifier ≡ none
      → Step cfg s (submit cfg now identifier pull trigger force s).1
  requeues :
      (now : ℕ) (run row : Run)
      → lookup_run s.store run.id ≡ some row
      → Step cfg s (requeue cfg now run s)
  cancels : (now : ℕ) (identifier : String) → Step cfg s (cancel now identifier s).1
  claims : (now : ℕ) → Step cfg s (claim cfg now s).1
  launches : (run : Run) (debounced : Bool) → Step cfg s (launch run debounced s).1
  settles :
      (now : ℕ) (identifier : String) (ending : Ending)
      → Step cfg s (settle now identifier ending s)

pub data Reach (cfg : Config) (s : Scheduler) : Scheduler → Type 0 where
  start : Reach cfg s s
  more : {t u : Scheduler} → Reach cfg s t → Step cfg t u → Reach cfg s u

abbrev pub HasRow : Table → String → Type 0
HasRow rows id = (run : Run) × (lookup_run rows id ≡ some run)

pub record IsTracked (s : Scheduler) : Type 0 where
  pub sound : IsSound s.queue
  pub rows : (repo id : String) → contains id (lane s.queue repo) ≡ true → HasRow s.store id

pub set_run_state-HasRow :
    (now : ℕ) (id : String) (state : RunState) (error : String) (rows : Table) (other : String)
    → HasRow rows other
    → HasRow (set_run_state now id state error rows) other
set_run_state-HasRow now id state error rows other (run, e) = (
  if id == other then moved now state error run else run,
  lookup-set_run_state now id state error rows other ∙ ground (arith, e),
)

-- Two states compared: what waits in the second one waited in the first, or has a row there.
abbrev pub Comes : Scheduler → Scheduler → Type 0
Comes s s' =
    (repo id : String)
    → contains id (lane s'.queue repo) ≡ true
    → (contains id (lane s.queue repo) ≡ true) ⊎ HasRow s'.store id

abbrev pub Keeps : Scheduler → Scheduler → Type 0
Keeps s s' = (id : String) → HasRow s.store id → HasRow s'.store id

pub IsTracked-by :
    (s s' : Scheduler) → IsTracked s → IsSound s'.queue → Comes s s' → Keeps s s' → IsTracked s'
IsTracked-by s s' h sound comes keeps = record {
  sound = sound;
  rows = λ repo id waits. known id (comes repo id waits) (λ old. keeps id (h.rows repo id old));
}
  where
    known :
        {A : Type 0} (id : String)
        → A ⊎ HasRow s'.store id
        → (A → HasRow s'.store id)
        → HasRow s'.store id
    known id (inl a) f = f a
    known id (inr r) f = r

pub same-HasRow :
    (rows rows' : Table) (id : String)
    → lookup_run rows' id ≡ lookup_run rows id
    → HasRow rows id
    → HasRow rows' id
same-HasRow rows rows' id e (run, found) = (run, e ∙ found)

-- After an identifier came to the back of a lane, what waits is old, or that identifier.
pub lane_cases :
    (q q' : Queue) (here identifier repo id : String)
    → lane q' repo ≡ (if here == repo then lane q here ++ identifier ∷ [] else lane q repo)
    → contains id (lane q' repo) ≡ true
    → (contains id (lane q repo) ≡ true) ⊎ (identifier ≡ id)
lane_cases q q' here identifier repo id e w =
    ground
      (arith, contains-snoc id identifier (lane q here), eq_iff identifier id, eq_iff here repo)

pub enqueue_cases :
    (max_depth : ℕ) (here identifier : String) (q : Queue) (repo id : String)
    → contains id (lane (enqueue max_depth here identifier q).0 repo) ≡ true
    → (contains id (lane q repo) ≡ true) ⊎ (identifier ≡ id)
enqueue_cases max_depth here identifier q repo id w = ground (
  arith,
  lane-enqueue max_depth here identifier q repo,
  contains-snoc id identifier (lane q here),
  eq_iff identifier id,
  eq_iff here repo,
)

pub dispatched_cases :
    {q : Queue} {r : Option String × Queue}
    → Turn q r
    → (repo id : String) → contains id (lane r.1 repo) ≡ true
    → contains id (lane q repo) ≡ true
unfolding contains lane
dispatched_cases (sleeps _ _ e) repo id w =
    ap (λ (x : Option String × Queue). contains id (lane x.1 repo)) (sym e) ∙ w
dispatched_cases {q} {r} (serves here x rest _ _ gone kept _ _ _) repo id w =
    ground (arith, eq_iff here repo, kept repo, eq_iff x id)

pub or_named :
    {A : Type 0} (rows : Table) (x id : String) → A ⊎ (x ≡ id) → HasRow rows x → A ⊎ HasRow rows id
or_named rows x id (inl a) r = inl a
or_named rows x id (inr e) r = inr (subst (HasRow rows) e r)
