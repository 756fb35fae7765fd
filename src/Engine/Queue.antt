-- ===== src/Engine/Queue.antt =====
-- The bounded queue of prflagger/engine/scheduler.py: one lane for each repository, dispatched in
-- turn. `_next` here is one pass of its outer loop; where that waits for the event, it gives `none`.
pub mod Invariant
pub mod Steps
mod Turns
pub mod Next
pub mod Fair
use pr_review.Prelude.{
  ℕ, ◌+◌, ◌-◌, String, Bool, true, false, not, Option, none, some, List, [], ◌∷◌, ◌++◌, leb,
  if◌then◌else◌, length, Dict, get, put, pop, remove, filter_map,
}

pub record Queue : Type 0 where
  pub lanes : Dict (List String)
  pub order : List String
  pub waiting : Bool
  pub depth : ℕ
  pub rejected : ℕ

-- What `Scheduler.__init__` sets.
abbrev pub idle : Queue
idle = record { lanes = []; order = []; waiting = false; depth = 0; rejected = 0 }

abbrev pub entries : Option (List String) → List String
entries none = []
entries (some lane) = lane

-- `self._lanes.get(repo)`, where a missing lane counts as an empty one.
unfoldable pub lane : Queue → String → List String
unfolding get
lane q repo = entries (get q.lanes repo)

abbrev pub is_empty : List String → Bool
is_empty [] = true
is_empty (x ∷ xs) = false

lane_depth : String × List String → Option (String × ℕ)
lane_depth (repo, ids) = if is_empty ids then none else some (repo, length ids)

unfoldable pub lane_depths : Queue → List (String × ℕ)
unfolding lane_depth
lane_depths q = filter_map lane_depth q.lanes

-- What `_enqueue` does once there is room.
pub admit : String → String → Queue → Queue
admit repo identifier q = record q {
  lanes = put q.lanes repo (lane q repo ++ identifier ∷ []);
  order = if is_empty (lane q repo) then q.order ++ repo ∷ [] else q.order;
  waiting = true;
  depth = q.depth + 1;
}

unfoldable pub enqueue : ℕ → String → String → Queue → Queue × Bool
unfolding admit
enqueue max_depth repo identifier q =
    if leb max_depth q.depth
    then (record q { rejected = q.rejected + 1 }, false)
    else (admit repo identifier q, true)

-- One identifier leaves the head of the lane of `repo`, which stood first in the order: the order
-- rotates, and a lane that this drains is dropped from both.
pub dispatch : Queue → String → List String → List String → Queue
dispatch q repo rest left =
    let rotated = rest ++ repo ∷ [] in
    if is_empty left
    then record q { lanes = pop q.lanes repo; order = remove repo rotated; depth = q.depth - 1 }
    else record q { lanes = put q.lanes repo left; order = rotated; depth = q.depth - 1 }

-- An empty lane is skipped.
take_turn :
    Queue → String → List String → List String → Option String × Queue → Option String × Queue
unfolding dispatch
take_turn q repo rest [] skip = skip
take_turn q repo rest (identifier ∷ left) skip = (some identifier, dispatch q repo rest left)

next_from : Queue → List String → Option String × Queue
unfolding take_turn
next_from q [] = (none, record q { order = []; waiting = false })
next_from q (repo ∷ rest) = take_turn q repo rest (lane q repo) (next_from q rest)

unfoldable pub next : Queue → Option String × Queue
unfolding next_from
next q = next_from q q.order
