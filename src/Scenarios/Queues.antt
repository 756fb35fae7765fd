-- ===== src/Scenarios/Queues.antt =====
-- Two repositories of which one has a burst of pull requests.
use pr_review.Prelude.{◌+◌, ◌≤◌, ◌≡◌, refl, true, some, List, [], ◌∷◌, length, contains, put, arith}
use pr_review.Core.Models.{queued, preparing, head_run, done}
use pr_review.Engine.States.{can_transition}
use pr_review.Engine.States.Forward.{rank, IsTrail, can_transition-eq-rank, length-trail-le}
use pr_review.Prelude.{ltb}
use pr_review.Engine.Queue.{Queue, idle, lane, next, enqueue}
use pr_review.Engine.Queue.Invariant.{IsSound, idle-IsSound}
use pr_review.Engine.Queue.Next.{Turn, next-Turn}
use pr_review.Engine.Queue.Fair.{
  Op, submit, take, run_ops, ahead, IsNext, run_ops-IsSound, depth_bounded, served_in_turn,
}

abbrev burst : List Op
burst =
    submit "o/busy" "r1" ∷ submit "o/busy" "r2" ∷ submit "o/quiet" "r3" ∷ submit "o/late" "r4" ∷ []

-- Room for three: the last submission is refused.
abbrev loaded : Queue
loaded = (run_ops 3 burst idle).1

loaded-IsSound : IsSound loaded
loaded-IsSound = run_ops-IsSound 3 burst idle idle-IsSound

loaded_refuses : loaded.rejected ≡ 1
unfolding run_ops enqueue lane put
loaded_refuses = refl

loaded_turn : (next loaded).0 ≡ some "r1"
unfolding run_ops next enqueue lane put
loaded_turn = refl

quiet_waits : IsNext 3 "o/quiet" "r3" loaded
unfolding run_ops enqueue lane put
quiet_waits = ([], refl)

abbrev traffic : List Op
traffic = take ∷ submit "o/busy" "r5" ∷ take ∷ []

quiet_turn : ahead "o/quiet" loaded.order ≡ 1
unfolding run_ops enqueue lane put
quiet_turn = refl

served_in_turn_example : contains "r3" (run_ops 3 traffic loaded).0 ≡ true
served_in_turn_example =
    served_in_turn 3 "o/quiet" "r3" traffic loaded loaded-IsSound quiet_waits
      (omega (arith, quiet_turn))

next-Turn_example : Turn loaded (next loaded)
next-Turn_example = next-Turn loaded loaded-IsSound

depth_bounded_example : (run_ops 3 burst idle).1.depth ≤ 3
depth_bounded_example = depth_bounded 3 burst idle idle-IsSound (omega arith)

can_transition-eq-rank_example : can_transition head_run done ≡ ltb (rank head_run) (rank done)
can_transition-eq-rank_example = can_transition-eq-rank head_run done

short-IsTrail : IsTrail queued (preparing ∷ head_run ∷ done ∷ [])
unfolding can_transition
short-IsTrail = (refl, (refl, (refl, tt)))

length-trail-le_example : length (preparing ∷ head_run ∷ done ∷ []) + rank queued ≤ 8
length-trail-le_example = length-trail-le queued (preparing ∷ head_run ∷ done ∷ []) short-IsTrail
