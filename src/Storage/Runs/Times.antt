-- ===== src/Storage/Runs/Times.antt =====
-- The time at which a run started, through the states that follow.
use pr_review.Prelude.{ℕ, ◌≡◌, ◌∙◌, String, some, List, [], ◌∷◌, arith, eq_iff}
use pr_review.Core.Models.{RunState, Run}
use pr_review.Storage.Runs.{Table, lookup_run, moved, set_run_state}
use pr_review.Storage.Runs.Laws.{lookup-set_run_state}

-- The same run moved through states, each at a time and with an error text.
unfoldable pub moves : String → List (ℕ × RunState × String) → Table → Table
moves id [] rows = rows
moves id ((now, state, error) ∷ rest) rows = moves id rest (set_run_state now id state error rows)

started-moved :
    (now t : ℕ) (state : RunState) (error : String) (run : Run)
    → run.started_at ≡ some t
    → (moved now state error run).started_at ≡ some t
unfolding moved
started-moved now t state error run h = ground arith

lookup_run-moved :
    (now : ℕ) (id : String) (state : RunState) (error : String) (rows : Table) (run : Run)
    → lookup_run rows id ≡ some run
    → lookup_run (set_run_state now id state error rows) id ≡ some (moved now state error run)
lookup_run-moved now id state error rows run found =
    lookup-set_run_state now id state error rows id ∙ ground (arith, found, eq_iff id id)

-- Once a run that has a row has started, the time at which it did stays in its row, through whatever
-- states it is moved, back to the queue included.
pub started-moves :
    (id : String) (steps : List (ℕ × RunState × String)) (rows : Table) (run : Run) (t : ℕ)
    → lookup_run rows id ≡ some run
    → run.started_at ≡ some t
    → (run' : Run) × (lookup_run (moves id steps rows) id ≡ some run') × (run'.started_at ≡ some t)
unfolding moves
started-moves id [] rows run t found h = (run, found, h)
started-moves id ((now, state, error) ∷ rest) rows run t found h =
    started-moves id rest (set_run_state now id state error rows) (moved now state error run) t
      (lookup_run-moved now id state error rows run found) (started-moved now t state error run h)
