-- ===== src/Scenarios/Polls.antt =====
-- Polls of a repository's pull requests, and a ranking.
use pr_review.Prelude.{
  arith, ◌≤◌, ◌≡◌, refl, Bool, false, List, [], ◌∷◌, count_where, some_where, All, inr, leb, ◌&&◌,
  ◌==◌,
}
use pr_review.Core.Records.{Observation, Adjudication}
use pr_review.Engine.Scheduler.{Config}
use pr_review.Engine.Watcher.{Watch, Listed, listed, poll_pull, poll_repo, is_seen}
use pr_review.Engine.Watcher.Polled.{open_at, poll_repo_closes}
use pr_review.Engine.Watcher.Unretried.{poll_again}
use pr_review.Engine.Ranking.{rank, rank_adjudicated}
use pr_review.Engine.Ranking.Scores.{IsScored}
use pr_review.Engine.Ranking.Order.{unscored, IsRanked, rank-IsSorted}
use pr_review.Engine.Ranking.Demoted.{unjudged, rank_adjudicated-demotes}
use pr_review.Scenarios.Tables.{one_pull, seen_once}

-- A queue that takes nothing.
abbrev no_room : Config
no_room = record { max_queue_depth = 0; debounce_s = 5 }

abbrev watch : Watch
watch = record {
  scheduler = record {
    queue = record { lanes = []; order = []; depth = 0; waiting = false; rejected = 0 };
    pending = [];
    active = [];
    store = [];
    events = [];
  };
  pulls = record one_pull { number = 3 } ∷ [];
}

abbrev one_listed : Listed
one_listed = record { pull = one_pull; now = 10; identifier = "r1" }

abbrev polled : Watch
polled = (poll_pull no_room "o/r" one_listed watch).1

poll_again_example :
    ((poll_pull no_room "o/r" (record one_listed { now = 20 }) polled).0 ≡ 0)
    × ((poll_pull no_room "o/r" (record one_listed { now = 20 }) polled).1.scheduler
        ≡ polled.scheduler)
poll_again_example =
    poll_again no_room "o/r" one_listed (record one_listed { now = 20 }) watch refl refl refl

poll_repo_closes_example :
    open_at "o/r" 3 (poll_repo no_room "o/r" (listed (one_listed ∷ [])) watch).1.pulls ≡ false
poll_repo_closes_example =
    poll_repo_closes "o/r" 3 no_room (one_listed ∷ []) watch (unfold is_seen in refl)

abbrev two_seen : List Observation
two_seen = seen_once ∷ record seen_once { id = "a2"; severity = 900000 } ∷ []

rank-IsSorted_example :
    All (IsScored (("pkg.f", 2) ∷ []) 2) (rank (("pkg.f", 2) ∷ []) two_seen)
    × IsRanked (rank (("pkg.f", 2) ∷ []) two_seen)
    × ((p : Observation → Bool)
        → count_where (λ o. p (unscored o)) (rank (("pkg.f", 2) ∷ []) two_seen)
          ≡ count_where (λ o. p (unscored o)) two_seen)
unfolding some_where
rank-IsSorted_example = rank-IsSorted (("pkg.f", 2) ∷ []) 2 two_seen ((omega arith, tt), inr refl)

abbrev one_judged : List Adjudication
one_judged =
    record {
      observation_id = "a2";
      assessment = "probe_false_positive";
      reasoning = "The type is inferred.";
      citations = [];
      model = "opus";
      usd = 100;
    }
    ∷ []

abbrev is_a2 : Observation → Bool
is_a2 o = o.id == "a2"

rank_adjudicated-demotes_example :
    (count_where (λ o. is_a2 (unjudged o)) (rank_adjudicated [] one_judged two_seen)
      ≡ count_where (λ o. is_a2 (unjudged o)) two_seen)
    × (count_where
          (λ o. is_a2 (unjudged o) && leb 500000 o.confidence)
          (rank_adjudicated [] one_judged two_seen)
        ≤ count_where (λ o. is_a2 (unjudged o) && leb 500000 o.confidence) two_seen)
rank_adjudicated-demotes_example = rank_adjudicated-demotes [] one_judged two_seen is_a2 500000
