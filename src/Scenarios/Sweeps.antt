-- ===== src/Scenarios/Sweeps.antt =====
-- A sweep while a run of three weeks ago is still queued.
use pr_review.Prelude.{
  String, Bool, Option, none, false, ◌≡◌, refl, [], ◌∷◌, ◌&&◌, ◌||◌, some_where, contains,
}
use pr_review.Core.Models.{Run, queued}
use pr_review.Storage.Runs.{Table, runs}
use pr_review.Engine.Janitor.{
  Disk, cutoff_at, sweep, live_commits, named, sweep_worktrees, sweep_trees, sweep_tree,
  removed_tree,
}
use pr_review.Engine.Janitor.Kept.{has, has_tree, is_left, is_at, is_live, sweep-IsKept}

abbrev old_run : Run
old_run = record {
  id = "r1";
  repo = "o/r";
  pr_number = 3;
  base_sha = "b";
  head_sha = "h";
  state = queued;
  trigger = "poll";
  created_at = 100;
  started_at = none;
  finished_at = none;
  error = "";
  usd_spent = 0;
}

abbrev old_rows : Table
old_rows = record { run = old_run; superseded_by = none; charter_impact = "" } ∷ []

abbrev full : Disk
full = record {
  worktrees = record { name = "o-r"; trees = record { name = "h"; size = 5 } ∷ [] } ∷ [];
  runs = record { name = "r1"; size = 2 } ∷ [];
  jobs = [];
}

abbrev all_goes : String → String → Option String
all_goes slug sha = none

abbrev none_stuck : String → Bool
none_stuck id = false

-- The run is in flight and its transcripts stay, but its worktree goes.
in_flight_swept :
    has_tree "o-r" "h" (sweep 1900000 7 false all_goes none_stuck old_rows full).0.worktrees ≡ false
unfolding sweep runs some_where live_commits named sweep_worktrees sweep_trees sweep_tree
    removed_tree contains
in_flight_swept = refl

sweep-IsKept_example :
    (has_tree "o-r" "h" (sweep 1900000 7 false all_goes none_stuck old_rows full).0.worktrees ≡ (
      has_tree "o-r" "h" full.worktrees
      && (some_where (is_at (cutoff_at 1900000 7) "h") (runs none none 20000 old_rows)
          || (false || is_left (all_goes "o-r" "h")))))
    × (has "r1" (sweep 1900000 7 false all_goes none_stuck old_rows full).0.runs ≡ (
        has "r1" full.runs
        && (some_where (is_live (cutoff_at 1900000 7) "r1") (runs none none 20000 old_rows)
            || (false || none_stuck "r1"))))
sweep-IsKept_example =
    sweep-IsKept 1900000 7 false all_goes none_stuck old_rows full "o-r" "h" "r1" refl
