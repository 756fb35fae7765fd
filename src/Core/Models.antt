-- ===== src/Core/Models.antt =====
-- prflagger/core/models.py: the states of a run, pull requests and runs.
use pr_review.Prelude.{ℕ, String, Option, Bool, ◌==◌, ◌||◌}

pub data RunState : Type 0 where
  queued preparing image_build base_run head_run probing : RunState
  adjudicating rendering done failed cancelled : RunState

-- The string values of the enum, which its comparisons use and the database stores.
unfoldable pub value : RunState → String
value queued = "queued"
value preparing = "preparing"
value image_build = "image_build"
value base_run = "base_run"
value head_run = "head_run"
value probing = "probing"
value adjudicating = "adjudicating"
value rendering = "rendering"
value done = "done"
value failed = "failed"
value cancelled = "cancelled"

unfoldable pub state_eq : RunState → RunState → Bool
unfolding value
state_eq a b = value a == value b

-- `state in TERMINAL_STATES`.
unfoldable pub is_terminal : RunState → Bool
unfolding state_eq
is_terminal s = state_eq s done || (state_eq s failed || state_eq s cancelled)

-- A pull request as GitHub last reported it.
pub record PullRequest : Type 0 where
  pub repo : String
  pub number : ℕ
  pub title : String
  pub body : String
  pub author : String
  pub base_sha : String
  pub head_sha : String
  pub state : String
  pub updated_at : String
  pub additions : ℕ
  pub deletions : ℕ
  pub changed_files : ℕ
  pub draft : Bool

-- One verification of one pull request. Times are in the clock's ticks, money in micro-dollars.
pub record Run : Type 0 where
  pub id : String
  pub repo : String
  pub pr_number : ℕ
  pub base_sha : String
  pub head_sha : String
  pub state : RunState
  pub trigger : String
  pub created_at : ℕ
  pub started_at : Option ℕ
  pub finished_at : Option ℕ
  pub error : String
  pub usd_spent : ℕ
