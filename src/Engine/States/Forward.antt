-- ===== src/Engine/States/Forward.antt =====
-- Where `can_transition` lets a run go, against a rank that only grows.
use pr_review.Prelude.{
  ℕ, ◌+◌, ◌≤◌, ◌<◌, ◌≡◌, refl, Bool, true, List, [], ◌∷◌, ◌&&◌, arith, length, ltb,
}
use pr_review.Core.Models.{
  RunState, queued, preparing, image_build, base_run, head_run, probing, adjudicating, rendering,
  done, failed, cancelled,
}
use pr_review.Engine.States.{can_transition}

-- How many of the eight steps to an end a state has behind it.
abbrev pub rank : RunState → ℕ
rank queued = 0
rank preparing = 1
rank image_build = 2
rank base_run = 3
rank head_run = 4
rank probing = 5
rank adjudicating = 6
rank rendering = 7
rank done = 8
rank failed = 8
rank cancelled = 8

-- A test of every state.
every : (RunState → Bool) → Bool
every p =
    p queued
    && (p preparing
        && (p image_build
            && (p base_run
                && (p head_run
                    && (p probing
                        && (p adjudicating
                            && (p rendering && (p done && (p failed && p cancelled)))))))))

every_sound : (p : RunState → Bool) → every p ≡ true → (s : RunState) → p s ≡ true
unfolding every
every_sound p h queued = ground arith
every_sound p h _ = ground arith

abbrev agrees : Bool → Bool → Bool
agrees Bool.true b = b
agrees Bool.false Bool.true = Bool.false
agrees Bool.false Bool.false = Bool.true

agrees-eq : (a b : Bool) → agrees a b ≡ true → a ≡ b
agrees-eq a b h = ground arith

abbrev table : RunState → RunState → Bool
table a b = agrees (can_transition a b) (ltb (rank a) (rank b))

table_holds : every (λ a. every (table a)) ≡ true
unfolding every can_transition
table_holds = refl

-- From one state a run may move to another exactly if that one is later in the happy path or an
-- end: states are skipped, never revisited, and no end is left.
pub can_transition-eq-rank : (a b : RunState) → can_transition a b ≡ ltb (rank a) (rank b)
can_transition-eq-rank a b =
    agrees-eq (can_transition a b) (ltb (rank a) (rank b))
      (every_sound (table a) (every_sound (λ s. every (table s)) table_holds a) b)

can_transition-lt : (a b : RunState) → can_transition a b ≡ true → rank a < rank b
can_transition-lt a b h = ground (arith, can_transition-eq-rank a b)

rank_le : (a : RunState) → rank a ≤ 8
rank_le queued = omega arith
rank_le _ = omega arith

-- Each state of the list follows from the one before by an allowed transition.
abbrev pub IsTrail : RunState → List RunState → Type 0
IsTrail s [] = Unit
IsTrail s (t ∷ ts) = (can_transition s t ≡ true) × IsTrail t ts

-- A list of states that follow one another by allowed transitions from a state is at most eight long,
-- less the rank of that state.
pub length-trail-le : (s : RunState) (ts : List RunState) → IsTrail s ts → length ts + rank s ≤ 8
length-trail-le s [] h = omega (arith, rank_le s)
length-trail-le s (t ∷ ts) h = omega (arith, can_transition-lt s t h.0, length-trail-le t ts h.1)
