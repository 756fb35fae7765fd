-- ===== src/Engine/Ranking/Demoted.antt =====
-- The adjudicator may demote a finding, and do nothing else to it.
use pr_review.Prelude.{
  ℕ, ◌≤◌, String, ◌≡◌, refl, ap, sym, subst, ◌∙◌, Bool, true, false, List, [], ◌∷◌, ◌&&◌, leb,
  if◌then◌else◌, map, arith, contains, count_where, count_where-sort_by, Dict,
}
use pr_review.Core.Records.{Observation, Adjudication, Millionths}
use pr_review.Engine.Ranking.{
  scored, ranks_before, rank, halved, misleading, demoted, rank_adjudicated,
}
use pr_review.Engine.Ranking.Order.{unscored, count_where-map}

-- An observation without what ranking and the adjudicator may change.
abbrev pub unjudged : Observation → Observation
unjudged o = record o { rank_score = 0; confidence = 0 }

halved_below : (c : Millionths) → halved c ≤ c
unfolding halved
halved_below c = ground arith

demoted_below : (ids : List String) (o : Observation) → (demoted ids o).confidence ≤ o.confidence
unfolding demoted
demoted_below ids o = ground (arith, halved_below o.confidence)

same_if :
    (b : Bool) (o : Observation)
    → unjudged (if b then record o { confidence = halved o.confidence } else o) ≡ unjudged o
same_if true o = refl
same_if false o = refl

demoted_same : (ids : List String) (o : Observation) → unjudged (demoted ids o) ≡ unjudged o
unfolding demoted
demoted_same ids o = same_if (contains o.id ids) o

fewer_sure :
    (p : Observation → Bool) (least : Millionths) (ids : List String) (os : List Observation)
    → count_where (λ o. p (unjudged o) && leb least o.confidence) (map (demoted ids) os)
      ≤ count_where (λ o. p (unjudged o) && leb least o.confidence) os
fewer_sure p least ids [] = omega arith
fewer_sure p least ids (o ∷ os) =
    ground (arith, ap p (demoted_same ids o), demoted_below ids o, fewer_sure p least ids os)

-- What the adjudications do to a ranking: of the observations that fit a description, which may speak of
-- all but the score and the confidence, there are as many as before; and of those that fit it, no more
-- have a confidence as high as a given one.
pub rank_adjudicated-demotes :
    (callers : Dict ℕ) (adjudications : List Adjudication) (os : List Observation)
    (p : Observation → Bool) (least : Millionths)
    → (count_where (λ o. p (unjudged o)) (rank_adjudicated callers adjudications os)
        ≡ count_where (λ o. p (unjudged o)) os)
      × (count_where
            (λ o. p (unjudged o) && leb least o.confidence)
            (rank_adjudicated callers adjudications os)
          ≤ count_where (λ o. p (unjudged o) && leb least o.confidence) os)
unfolding rank_adjudicated rank
rank_adjudicated-demotes callers adjudications os p least =
    let ids = misleading adjudications in
    let sure : Observation → Bool = λ o. p (unjudged o) && leb least o.confidence in
    (
      count_where-sort_by (λ o. p (unjudged o)) ranks_before
            (map (scored callers) (map (demoted ids) os))
          ∙ count_where-map p (scored callers) unjudged (map (demoted ids) os) (λ o. refl)
          ∙ count_where-map p (demoted ids) unjudged os (demoted_same ids),
      subst (λ n. n ≤ count_where sure os)
          (sym (
            count_where-sort_by sure ranks_before (map (scored callers) (map (demoted ids) os))
            ∙ count_where-map sure (scored callers) unscored (map (demoted ids) os) (λ o. refl)))
          (fewer_sure p least ids os),
    )
