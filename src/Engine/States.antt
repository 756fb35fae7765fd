-- ===== src/Engine/States.antt =====
-- prflagger/engine/states.py
pub mod Forward
use pr_review.Prelude.{
  ℕ, zero, suc, ◌+◌, Bool, true, false, Option, none, some, List, [], ◌∷◌, ◌&&◌, ◌||◌, ltb,
  if◌then◌else◌,
}
use pr_review.Core.Models.{
  RunState, queued, preparing, image_build, base_run, head_run, probing, adjudicating, rendering,
  done, failed, cancelled, state_eq, is_terminal,
}

abbrev pub order : List RunState
order =
    queued ∷ preparing ∷ image_build ∷ base_run ∷ head_run ∷ probing ∷ adjudicating ∷ rendering
    ∷ done ∷ []

-- `_INDEX`: the position of each state of ORDER.
index_from : ℕ → List RunState → RunState → Option ℕ
unfolding state_eq
index_from n [] s = none
index_from n (x ∷ xs) s = if state_eq x s then some n else index_from (n + 1) xs s

unfoldable pub index : RunState → Option ℕ
unfolding index_from
index s = index_from 0 order s

later : Option ℕ → Option ℕ → Bool
later (some here) (some there) = ltb here there
later _ _ = false

unfoldable pub can_transition : RunState → RunState → Bool
unfolding is_terminal index later
can_transition current target =
    if is_terminal current
    then false
    else if state_eq target failed || state_eq target cancelled
    then true
    else if state_eq current queued && state_eq target preparing
    then true
    else later (index current) (index target)
