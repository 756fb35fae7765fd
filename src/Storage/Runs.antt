-- ===== src/Storage/Runs.antt =====
-- The `runs` table and the methods of prflagger/storage/repos.py that read and write it. The table
-- is its rows in the order of insertion, and each method that reads the clock is given the time.
-- SQL leaves the order of rows with one `created_at` open: here they keep that of insertion.
pub mod Laws
pub mod Latest
pub mod Times
use pr_review.Prelude.{
  ℕ, zero, suc, ◌+◌, String, Bool, true, false, not, Option, none, some, List, [], ◌∷◌, ◌++◌, map,
  ◌==◌, ◌&&◌, ◌||◌, eqb, leb, if◌then◌else◌,
}
use pr_review.Core.Models.{RunState, queued, Run, state_eq, is_terminal}

-- A row: the columns of a `Run`, and the two that only the database has.
pub record Row : Type 0 where
  pub run : Run
  pub superseded_by : Option String
  pub charter_impact : String

abbrev pub Table : Type 0
Table = List Row

-- WHERE id = ?
unfoldable pub find : Table → String → Option Row
find [] id = none
find (r ∷ rows) id = if r.run.id == id then some r else find rows id

-- UPDATE runs SET ... WHERE id = ?
unfoldable pub update : Table → String → (Row → Row) → Table
update [] id f = []
update (r ∷ rows) id f = (if r.run.id == id then f r else r) ∷ update rows id f

abbrev pub coalesce : Option ℕ → Option ℕ → Option ℕ
coalesce none other = other
coalesce (some t) other = some t

-- ON CONFLICT(id) DO UPDATE
pub overwrite : Run → Row → Row
overwrite run row = record row {
  run = record (row.run) {
    state = run.state;
    started_at = run.started_at;
    finished_at = run.finished_at;
    error = run.error;
    usd_spent = run.usd_spent;
  };
}

unfoldable pub inserted : ℕ → Run → Row
inserted now run = record {
  run = record run { created_at = if eqb run.created_at 0 then now else run.created_at };
  superseded_by = none;
  charter_impact = "";
}

upsert : Option Row → ℕ → Run → Table → Table
unfolding overwrite inserted
upsert none now run rows = rows ++ inserted now run ∷ []
upsert (some _) now run rows = update rows run.id (overwrite run)

unfoldable pub put_run : ℕ → Run → Table → Table
unfolding upsert
put_run now run rows = upsert (find rows run.id) now run rows

unfoldable pub moved : ℕ → RunState → String → Run → Run
moved now state error run = record run {
  started_at = if state_eq state queued then run.started_at else coalesce run.started_at (some now);
  finished_at = coalesce (if is_terminal state then some now else none) run.finished_at;
  state = state;
  error = error;
}

abbrev pub on_run : (Run → Run) → Row → Row
on_run f row = record row { run = f row.run }

unfoldable pub set_run_state : ℕ → String → RunState → String → Table → Table
set_run_state now id state error rows = update rows id (on_run (moved now state error))

abbrev pub run_of : Option Row → Option Run
run_of none = none
run_of (some row) = some row.run

-- `Store.run`
unfoldable pub lookup_run : Table → String → Option Run
lookup_run rows id = run_of (find rows id)

unfoldable pub insert_by : (Run → Run → Bool) → Run → List Run → List Run
insert_by before r [] = r ∷ []
insert_by before r (s ∷ rs) = if before r s then r ∷ s ∷ rs else s ∷ insert_by before r rs

-- ORDER BY, with ties as they come.
unfoldable pub order_by : (Run → Run → Bool) → List Run → List Run
unfolding insert_by
order_by before [] = []
order_by before (r ∷ rs) = insert_by before r (order_by before rs)

pub newest_first : Run → Run → Bool
newest_first r s = leb s.created_at r.created_at

unfoldable pub oldest_first : Run → Run → Bool
oldest_first r s = leb r.created_at s.created_at

unfoldable pub where_runs : (Run → Bool) → Table → List Run
where_runs p [] = []
where_runs p (row ∷ rows) =
    let rest = where_runs p rows in if p row.run then row.run ∷ rest else rest

unfoldable pub limit_to : ℕ → List Run → List Run
limit_to zero rs = []
limit_to (suc n) [] = []
limit_to (suc n) (r ∷ rs) = r ∷ limit_to n rs

-- `if repo:` and `if pr is not None:`, an absent or empty repository is no filter.
wanted_repo : Option String → Run → Bool
wanted_repo none r = true
wanted_repo (some repo) r = repo == "" || r.repo == repo

wanted_pr : Option ℕ → Run → Bool
wanted_pr none r = true
wanted_pr (some pr) r = eqb r.pr_number pr

unfoldable pub runs : Option String → Option ℕ → ℕ → Table → List Run
unfolding order_by where_runs limit_to wanted_repo wanted_pr newest_first
runs repo pr limit rows =
    limit_to limit
      (order_by newest_first (where_runs (λ r. wanted_repo repo r && wanted_pr pr r) rows))

abbrev pub first_run : List Run → Option Run
first_run [] = none
first_run (r ∷ rs) = some r

unfoldable pub latest_run : String → ℕ → Table → Option Run
unfolding runs
latest_run repo pr rows = first_run (runs (some repo) (some pr) 1 rows)

unfoldable pub unfinished_runs : Table → List Run
unfolding order_by where_runs oldest_first
unfinished_runs rows = order_by oldest_first (where_runs (λ r. not (is_terminal r.state)) rows)

unfoldable pub repointed : String → String → Run → Run
repointed base_sha head_sha run =
    if state_eq run.state queued
    then record run { base_sha = base_sha; head_sha = head_sha }
    else run

-- The state is part of the WHERE clause: a run that has started keeps its commits.
unfoldable pub retarget : String → String → String → Table → Table
retarget id base_sha head_sha rows = update rows id (on_run (repointed base_sha head_sha))

unfoldable pub set_run_base : String → String → Table → Table
set_run_base id base_sha rows = update rows id (on_run (λ run. record run { base_sha = base_sha }))

unfoldable pub supersede : String → String → Table → Table
supersede id by rows = update rows id (λ row. record row { superseded_by = some by })

unfoldable pub add_run_usd : String → ℕ → Table → Table
add_run_usd id usd rows =
    update rows id (on_run (λ run. record run { usd_spent = run.usd_spent + usd }))

unfoldable pub set_run_charter_impact : String → String → Table → Table
set_run_charter_impact id level rows = update rows id (λ row. record row { charter_impact = level })

-- Whether a row with this id is in such a state.
unfoldable pub where_state : (RunState → Bool) → Table → String → Bool
where_state p [] id = false
where_state p (row ∷ rows) id = (row.run.id == id && p row.run.state) || where_state p rows id
