-- ===== src/Charter/Keeper.antt =====
-- prflagger/charter/keeper.py: check and refresh of CharterKeeper. The head that git names for the default
-- branch is an argument. The two locks keep a rebuild from running beside another: it is one step.
pub mod Own
pub mod Retry
use pr_review.Prelude.{
  ℕ, ◌+◌, String, Bool, true, false, not, Option, none, some, List, [], ◌∷◌, ◌++◌, ◌==◌, ◌&&◌, eqb,
  if◌then◌else◌, concat, join, join_with, begins, before, after_first, includes, take_text, decimal,
  length, Dict, is_nil,
}
use pr_review.Core.Records.{Repo}
use pr_review.Storage.Repos.{repo, set_branch_head}
use pr_review.Charter.Rebuild.{
  Config, Checkout, Event, branch_moved, building, failed, Tables, Outcome, Refreshed, emit,
  rebuild,
}

unfoldable pub reported : String → String → Outcome → Outcome
unfolding emit
reported slug sha (none, t) = (none, emit (failed slug sha) t)
reported slug sha (some r, t) = (some r, t)

unfoldable pub refresh_row :
    Config
    → ℕ
    → String
    → String
    → String
    → String
    → Bool
    → Option Repo
    → Option Checkout
    → Tables
    → Outcome
unfolding emit reported
refresh_row cfg now answer slug sha reason force none checkout t = (none, t)
refresh_row cfg now answer slug sha reason force (some r) checkout t =
    if not force && sha == r.charter_sha
    then (none, t)
    else reported slug sha
        (rebuild cfg now answer slug sha checkout (emit (building slug sha reason) t))

-- `refresh` at a commit that is given.
unfoldable pub refresh :
    Config → ℕ → String → String → String → String → Bool → Option Checkout → Tables → Outcome
unfolding refresh_row
refresh cfg now answer slug sha reason force checkout t =
    refresh_row cfg now answer slug sha reason force (repo slug t.memory.repos) checkout t

-- The head moved: it is noted, and the memory rebuilt if that is enabled.
unfoldable pub moved :
    Config → ℕ → String → String → String → String → Option Checkout → Tables → Outcome
unfolding emit
moved cfg now answer slug head previous checkout t =
    let t' = emit (branch_moved slug head previous) (record t {
      memory = record (t.memory) { repos = set_branch_head slug head t.memory.repos };
    }) in
    if cfg.refresh_on_branch_move
    then refresh cfg now answer slug head "default branch moved" false checkout t'
    else (none, t')

unfoldable pub check_row :
    Config → ℕ → String → String → Option String → Option Repo → Option Checkout → Tables → Outcome
check_row cfg now answer slug head none checkout t = (none, t)
check_row cfg now answer slug none (some r) checkout t = (none, t)
check_row cfg now answer slug (some head) (some r) checkout t =
    if head == r.branch_head
    then (none, t)
    else moved cfg now answer slug head r.branch_head checkout t

-- `check`, with the head that git names for the default branch.
unfoldable pub check :
    Config → ℕ → String → String → Option String → Option Checkout → Tables → Outcome
unfolding check_row
check cfg now answer slug head checkout t =
    check_row cfg now answer slug head (repo slug t.memory.repos) checkout t
