-- ===== src/Engine/Queue/Invariant.antt =====
-- What holds of the queue between two operations.
use pr_review.Prelude.{
  ◌<◌, String, ◌≡◌, ◌≢◌, refl, arith, true, not, some, [], length, sum_by, get, contains, IsUnique,
}
use pr_review.Engine.Queue.{Queue, idle, lane, is_empty}

-- The waiting identifiers are counted over the repositories that take turns.
pub record IsSound (q : Queue) : Type 0 where
  pub order_unique : IsUnique q.order
  -- the repositories with work are those that take turns
  pub served : (repo : String) → contains repo q.order ≡ not (is_empty (lane q repo))
  -- a drained lane is not kept
  pub kept : (repo : String) → get q.lanes repo ≢ some []
  pub counted : q.depth ≡ sum_by (λ repo. length (lane q repo)) q.order
  -- a consumer that waits for the event is woken
  pub awake : 0 < q.depth → q.waiting ≡ true

pub idle-IsSound : IsSound idle
unfolding lane contains get
idle-IsSound = record {
  order_unique = tt;
  served = λ repo. refl;
  kept = λ repo e. ground arith;
  counted = refl;
  awake = λ h. ground arith;
}
