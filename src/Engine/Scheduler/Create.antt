-- ===== src/Engine/Scheduler/Create.antt =====
-- The rows that `_create` leaves.
use pr_review.Prelude.{
  ℕ, String, ◌≡◌, Bool, false, not, Option, none, some, ◌==◌, ◌&&◌, arith, if◌then◌else◌,
}
use pr_review.Core.Models.{done, PullRequest, Run, state_eq}
use pr_review.Storage.Runs.{Row, find, lookup_run, inserted, put_run, latest_run}
use pr_review.Storage.Runs.Laws.{map_row, marked, find-put_run_new, find-supersede}
use pr_review.Engine.Scheduler.{Scheduler, supersede_previous, new_run, create}

-- Whether the previous run of the pull request has this identifier and is not done.
abbrev pub is_replaced : Option Run → String → Bool
is_replaced none other = false
is_replaced (some run) other = not (state_eq run.state done) && run.id == other

module _ (now : ℕ) (identifier : String) (pull : PullRequest) (trigger : String) (s : Scheduler)
    (new : find s.store identifier ≡ none) where
  abbrev pub previous : Option Run
  previous = latest_run pull.repo pull.number s.store

  abbrev pub fresh_row : Row
  fresh_row = inserted now (new_run now identifier pull trigger)

  abbrev pub row_before : String → Option Row
  row_before other = if identifier == other then some fresh_row else find s.store other

  find-supersede_previous :
      (p : Option Run) (other : String)
      → find
          (supersede_previous p identifier
            (put_run now (new_run now identifier pull trigger) s.store))
          other
        ≡ (if is_replaced p other
            then map_row (marked identifier) (row_before other)
            else row_before other)
  unfolding supersede_previous new_run
  find-supersede_previous none other =
      find-put_run_new now (new_run now identifier pull trigger) s.store other new
  find-supersede_previous (some p) other = ground (
    arith,
    find-put_run_new now (new_run now identifier pull trigger) s.store other new,
    find-supersede p.id identifier (put_run now (new_run now identifier pull trigger) s.store)
        other,
  )

  pub find-create :
      (other : String)
      → find (create now identifier pull trigger s).store other ≡ (
          if is_replaced previous other
          then map_row (marked identifier) (row_before other)
          else row_before other)
  unfolding create
  find-create other = find-supersede_previous previous other

  -- Only the columns of the row itself change: the run is the new one, or what it was.
  pub lookup-create :
      (other : String)
      → lookup_run (create now identifier pull trigger s).store other
        ≡ (if identifier == other then some fresh_row.run else lookup_run s.store other)
  unfolding lookup_run
  lookup-create other = ground (arith, find-create other)
