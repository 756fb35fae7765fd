-- ===== src/Scenarios/Calls.antt =====
-- A pull request that is submitted, cancelled, claimed and recovered.
use pr_review.Prelude.{
  ℕ, String, ◌≡◌, refl, true, false, none, some, List, [], ◌∷◌, length, contains, put, get, arith,
  All, eq_iff,
}
use pr_review.Core.Models.{PullRequest, Run, queued, preparing, cancelled, is_terminal}
use pr_review.Storage.Runs.{Table, find, lookup_run, put_run, unfinished_runs, latest_run}
use pr_review.Engine.Queue.{lane, enqueue, next}
use pr_review.Engine.Scheduler.{
  Config, Pending, Scheduler, submit, submit_new, create, enqueue_run, same_answer, requeue, cancel,
  key_of,
}
use pr_review.Engine.Scheduler.Submit.{Outcome, submit-Outcome}
use pr_review.Engine.Scheduler.Lost.{
  IsStale, cancel-IsStale, resubmit, resubmit_stuck, requeue_lost,
}
use pr_review.Engine.Consumer.{claim, launch}
use pr_review.Engine.Consumer.Cancelled.{cancel-launch}
use pr_review.Engine.Recovery.{recover}
use pr_review.Engine.Recovery.Complete.{is_open, Waits, recover-Waits}
use pr_review.Engine.Life.{initial, IsTracked, submits, claims, cancels, start, more}
use pr_review.Engine.Life.Tracked.{Reach-IsTracked}
use pr_review.Core.Models.{RunState}
use pr_review.Storage.Runs.Times.{moves, started-moves}
use pr_review.Storage.Runs.Latest.{IsNewest, of_pull, latest_run-IsNewest}

abbrev cfg : Config
cfg = record { max_queue_depth = 1; debounce_s = 30 }

abbrev opened : String → PullRequest
opened head = record {
  repo = "o/r";
  number = 7;
  title = "";
  body = "";
  author = "ann";
  base_sha = "b0";
  head_sha = head;
  state = "open";
  updated_at = "";
  additions = 1;
  deletions = 0;
  changed_files = 1;
  draft = false;
}

-- A row that a crash left behind.
abbrev stranded : Run
stranded = record {
  id = "r0";
  repo = "o/other";
  pr_number = 3;
  base_sha = "b0";
  head_sha = "h0";
  state = preparing;
  trigger = "poll";
  created_at = 50;
  started_at = some 60;
  finished_at = none;
  error = "";
  usd_spent = 0;
}

abbrev rows : Table
rows = record { run = stranded; superseded_by = none; charter_impact = "" } ∷ []

abbrev waiting : Scheduler
waiting = (submit cfg 100 "r1" (opened "h1") "manual" false (initial rows)).1

abbrev waiting_run : Run
waiting_run = record {
  id = "r1";
  repo = "o/r";
  pr_number = 7;
  base_sha = "b0";
  head_sha = "h1";
  state = queued;
  trigger = "manual";
  created_at = 100;
  started_at = none;
  finished_at = none;
  error = "";
  usd_spent = 0;
}

abbrev waiting_entry : Pending
waiting_entry = record { pull = opened "h1"; trigger = "manual"; run_id = "r1"; queued_at = 100 }

waiting_found : lookup_run waiting.store "r1" ≡ some waiting_run
unfolding submit submit_new create enqueue_run enqueue lane put put_run find lookup_run same_answer
    latest_run get key_of
waiting_found = refl

waiting_pending : get waiting.pending (key_of "o/r" 7) ≡ some waiting_entry
unfolding submit submit_new create enqueue_run enqueue lane put put_run find lookup_run same_answer
    latest_run get key_of
waiting_pending = refl

fresh_row : find waiting.store "r2" ≡ none
unfolding submit submit_new create enqueue_run enqueue lane put put_run find lookup_run same_answer
    latest_run get key_of
fresh_row = refl

submit-Outcome_example :
    Outcome cfg 160 "r2"
      (opened "h2")
      "poll"
      waiting
      false
      (submit cfg 160 "r2" (opened "h2") "poll" false waiting)
submit-Outcome_example = submit-Outcome cfg 160 "r2" (opened "h2") "poll" waiting fresh_row false

fresh_start : find rows "r1" ≡ none
unfolding find
fresh_start = refl

Reach-IsTracked_example : IsTracked (claim cfg 200 (cancel 150 "r1" waiting).1).1
Reach-IsTracked_example = Reach-IsTracked cfg rows (
    more
      (more (more start (submits 100 "r1" (opened "h1") "manual" false fresh_start))
        (cancels 150 "r1"))
      (claims 200))

one_stranded : length (unfinished_runs rows) ≡ 1
unfolding unfinished_runs is_terminal
one_stranded = refl

recover-Waits_example :
    All
      (λ row. is_open row ≡ true → Waits cfg 300 (recover cfg 300 0 (initial rows)).1.queue row.run)
      rows
recover-Waits_example = recover-Waits cfg 300 0 (initial rows) (omega (arith, one_stranded))

abbrev given_up : Scheduler
given_up = (cancel 150 "r1" waiting).1

given_up-IsStale : IsStale "o/r" 7 given_up
given_up-IsStale =
    cancel-IsStale "o/r" 7 150 waiting waiting_entry waiting_run waiting_pending
      (λ e. ground (arith, eq_iff "r1" "")) waiting_found

abbrev again : List (ℕ × String × PullRequest)
again = (200, "r2", opened "h1") ∷ (300, "r3", opened "h2") ∷ []

resubmit_stuck_example :
    ((resubmit cfg "manual" again given_up).queue ≡ given_up.queue)
    × IsStale "o/r" 7 (resubmit cfg "manual" again given_up)
resubmit_stuck_example =
    resubmit_stuck "o/r" 7 cfg "manual" again given_up ((refl, refl), ((refl, refl), tt))
      given_up-IsStale

full_queue : waiting.queue.depth ≡ 1
unfolding submit submit_new create enqueue_run enqueue lane put put_run find lookup_run same_answer
    latest_run get key_of
full_queue = refl

stranded_found : lookup_run waiting.store "r0" ≡ some stranded
unfolding submit submit_new create enqueue_run enqueue lane put put_run find lookup_run same_answer
    latest_run get key_of
stranded_found = refl

requeue_lost_example :
    ((repo : String) → lane (requeue cfg 400 stranded waiting).queue repo ≡ lane waiting.queue repo)
    × ((stored : Run) × (lookup_run (requeue cfg 400 stranded waiting).store "r0" ≡ some stored)
        × (stored.state ≡ queued))
requeue_lost_example =
    requeue_lost cfg 400 stranded stranded waiting (omega (arith, full_queue)) stranded_found

abbrev claimed : Scheduler
claimed = (claim cfg 160 waiting).1

claimed_found : lookup_run claimed.store "r1" ≡ some waiting_run
unfolding submit submit_new create enqueue_run enqueue lane put put_run find lookup_run same_answer
    latest_run get key_of claim next contains
claimed_found = refl

claimed_idle : contains "r1" claimed.active ≡ false
unfolding submit submit_new create enqueue_run enqueue lane put put_run find lookup_run same_answer
    latest_run get key_of claim next contains
claimed_idle = refl

cancel-launch_example :
    ((cancel 170 "r1" claimed).0 ≡ false)
    × ((launch waiting_run true (cancel 170 "r1" claimed).1).0.state ≡ cancelled)
    × (contains "r1" (launch waiting_run true (cancel 170 "r1" claimed).1).1.active ≡ true)
cancel-launch_example = cancel-launch 170 waiting_run waiting_run claimed claimed_found claimed_idle

latest_run-IsNewest_example :
    IsNewest (of_pull "o/other" 3 waiting.store) (latest_run "o/other" 3 waiting.store)
latest_run-IsNewest_example = latest_run-IsNewest "o/other" 3 waiting.store

abbrev crashed_again : List (ℕ × RunState × String)
crashed_again = (400, queued, "") ∷ (500, preparing, "") ∷ []

started-moves_example :
    (run' : Run) × (lookup_run (moves "r0" crashed_again waiting.store) "r0" ≡ some run')
    × (run'.started_at ≡ some 60)
started-moves_example =
    started-moves "r0" crashed_again waiting.store stranded 60 stranded_found refl
