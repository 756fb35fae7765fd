-- ===== src/Engine/Consumer.antt =====
-- The consumer loop of prflagger/engine/scheduler.py, cut where it awaits: other methods may run
-- between these steps. `claim` is what happens up to the debounce sleep, `launch` what happens
-- after it, and `settle` what happens when the run's task ends.
pub mod Cancelled
use pr_review.Prelude.{
  ℕ, ◌+◌, ◌-◌, String, Bool, Option, none, some, List, [], ◌∷◌, ◌++◌, ltb, if◌then◌else◌, get, pop,
  contains, remove,
}
use pr_review.Core.Models.{cancelled, Run, state_eq}
use pr_review.Storage.Runs.{lookup_run, set_run_state}
use pr_review.Engine.Queue.{next}
use pr_review.Engine.Scheduler.{Config, Pending, Scheduler, key_of}

-- What `_consume` does with an identifier: skip it, or wait this long and run it. `debounced` says
-- whether the pull request had a pending entry when the identifier was taken.
pub data Claim : Type 0 where
  waits : Claim
  skips : (identifier : String) → Claim
  holds : (run : Run) (debounced : Bool) (sleep : ℕ) → Claim

sleep_of : Config → ℕ → Option Pending → Bool × ℕ
sleep_of cfg now none = (Bool.false, 0)
sleep_of cfg now (some pending) =
    let age = now - pending.queued_at in
    (Bool.true, if ltb age cfg.debounce_s then cfg.debounce_s - age else 0)

claim_run : Config → ℕ → String → Option Run → Scheduler → Claim
unfolding sleep_of
claim_run cfg now identifier none s = skips identifier
claim_run cfg now identifier (some run) s =
    if state_eq run.state cancelled
    then skips identifier
    else (let (debounced, sleep) =
          sleep_of cfg now (get s.pending (key_of run.repo run.pr_number)) in
        holds run debounced sleep)

claim_from : Config → ℕ → Option String → Scheduler → Claim
unfolding claim_run
claim_from cfg now none s = waits
claim_from cfg now (some identifier) s =
    claim_run cfg now identifier (lookup_run s.store identifier) s

unfoldable pub claim : Config → ℕ → Scheduler → Claim × Scheduler
unfolding claim_from
claim cfg now s =
    let (taken, q) = next s.queue in (claim_from cfg now taken s, record s { queue = q })

abbrev pub run_or : Option Run → Run → Run
run_or none old = old
run_or (some run) old = run

-- The pending entry goes, the run is read again, and its task is started.
unfoldable pub launch : Run → Bool → Scheduler → Run × Scheduler
launch run debounced s =
    let run' = if debounced then run_or (lookup_run s.store run.id) run else run in
    (
      run',
      record s {
        pending = if debounced then pop s.pending (key_of run.repo run.pr_number) else s.pending;
        active = if contains run.id s.active then s.active else s.active ++ run.id ∷ [];
      },
    )

-- How the task of a run may end: `execute` returned, it was cancelled, or it raised.
pub data Ending : Type 0 where
  returned stopped crashed : Ending

unfoldable pub settle : ℕ → String → Ending → Scheduler → Scheduler
settle now identifier stopped s = record s {
  store = set_run_state now identifier cancelled "cancelled" s.store;
  active = remove identifier s.active;
}
settle now identifier _ s = record s { active = remove identifier s.active }
