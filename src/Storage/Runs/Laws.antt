-- ===== src/Storage/Runs/Laws.antt =====
-- What the statements on the `runs` table do to a row that is looked up.
use pr_review.Prelude.{
  ℕ, String, ◌≡◌, refl, ap, ◌∙◌, Option, none, some, [], ◌∷◌, ◌++◌, ◌==◌, eq_iff, arith,
  if◌then◌else◌,
}
use pr_review.Core.Models.{RunState, Run}
use pr_review.Storage.Runs.{
  Row, Table, find, update, inserted, upsert, put_run, moved, on_run, run_of, lookup_run,
  set_run_state, repointed, retarget, supersede,
}

abbrev pub map_row : (Row → Row) → Option Row → Option Row
map_row f none = none
map_row f (some r) = some (f r)

pub find-update :
    (rows : Table) (id : String) (f : Row → Row)
    → ((r : Row) → (f r).run.id ≡ r.run.id)
    → (other : String)
    → find (update rows id f) other
      ≡ (if id == other then map_row f (find rows other) else find rows other)
unfolding find update
find-update [] id f keeps other = ground arith
find-update (r ∷ rows) id f keeps other = ground (
  arith,
  keeps r,
  eq_iff id other,
  eq_iff r.run.id id,
  eq_iff r.run.id other,
  eq_iff (f r).run.id other,
  find-update rows id f keeps other,
)

pub find-snoc :
    (rows : Table) (r : Row) (other : String)
    → find rows r.run.id ≡ none
    → find (rows ++ r ∷ []) other ≡ (if r.run.id == other then some r else find rows other)
unfolding find
find-snoc [] r other new = refl
find-snoc (s ∷ rows) r other new = ground (
  arith,
  eq_iff s.run.id r.run.id,
  eq_iff s.run.id other,
  eq_iff r.run.id other,
  find-snoc rows r other,
)

inserted-id : (now : ℕ) (run : Run) → (inserted now run).run.id ≡ run.id
unfolding inserted
inserted-id now run = refl

-- A run with a new identifier becomes a row of its own.
pub find-put_run_new :
    (now : ℕ) (run : Run) (rows : Table) (other : String)
    → find rows run.id ≡ none
    → find (put_run now run rows) other
      ≡ (if run.id == other then some (inserted now run) else find rows other)
unfolding put_run
find-put_run_new now run rows other new =
    ap (λ (o : Option Row). find (upsert o now run rows) other) new
    ∙ find-snoc rows (inserted now run) other new

abbrev pub map_run : (Run → Run) → Option Run → Option Run
map_run f none = none
map_run f (some run) = some (f run)

-- A statement that sets columns of one run, seen by looking runs up.
pub lookup-on_run :
    (rows : Table) (id : String) (f : Run → Run)
    → ((run : Run) → (f run).id ≡ run.id)
    → (other : String)
    → lookup_run (update rows id (on_run f)) other
      ≡ (if id == other then map_run f (lookup_run rows other) else lookup_run rows other)
unfolding lookup_run
lookup-on_run rows id f keeps other =
    ap run_of (find-update rows id (on_run f) (λ r. keeps r.run) other) ∙ ground arith

pub lookup-set_run_state :
    (now : ℕ) (id : String) (state : RunState) (error : String) (rows : Table) (other : String)
    → lookup_run (set_run_state now id state error rows) other ≡ (
        if id == other
        then map_run (moved now state error) (lookup_run rows other)
        else lookup_run rows other)
unfolding set_run_state
lookup-set_run_state now id state error rows other =
    lookup-on_run rows id (moved now state error) (λ run. unfold moved in refl) other

pub lookup-retarget :
    (id base head : String) (rows : Table) (other : String)
    → lookup_run (retarget id base head rows) other ≡ (
        if id == other
        then map_run (repointed base head) (lookup_run rows other)
        else lookup_run rows other)
unfolding retarget
lookup-retarget id base head rows other =
    lookup-on_run rows id (repointed base head) (λ run. unfold repointed in ground arith) other

abbrev pub marked : String → Row → Row
marked by row = record row { superseded_by = some by }

pub find-supersede :
    (id by : String) (rows : Table) (other : String)
    → find (supersede id by rows) other
      ≡ (if id == other then map_row (marked by) (find rows other) else find rows other)
unfolding supersede
find-supersede id by rows other = find-update rows id (marked by) (λ r. refl) other
