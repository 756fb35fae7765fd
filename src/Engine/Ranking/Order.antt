-- ===== src/Engine/Ranking/Order.antt =====
-- Ranking orders what it is given, and changes nothing else.
use pr_review.Prelude.{
  ℕ, ◌+◌, ◌<◌, ltb, ◌⊎◌, inl, inr, text_le, All, All-sort_by, Bool-cases, ◌≡◌, refl, ap, ap₂, ◌∙◌,
  Bool, true, false, List, [], ◌∷◌, if◌then◌else◌, map, arith, text_le_total, IsSorted, count_where,
  sort_by-IsSorted, count_where-sort_by, Dict,
}
use pr_review.Core.Records.{Observation}
use pr_review.Engine.Ranking.{scored, ranks_before, rank}
use pr_review.Engine.Ranking.Scores.{IsWidest, IsScored, score_of-IsScored}

-- An observation without its score.
abbrev pub unscored : Observation → Observation
unscored o = record o { rank_score = 0 }

ranks_total : (a b : Observation) → ranks_before a b ≡ false → ranks_before b a ≡ true
ranks_total a b h = ground (arith, text_le_total a.id b.id)

pub count_where-map :
    (p : Observation → Bool) (f g : Observation → Observation) (os : List Observation)
    → ((o : Observation) → g (f o) ≡ g o)
    → count_where (λ o. p (g o)) (map f os) ≡ count_where (λ o. p (g o)) os
count_where-map p f g [] same = refl
count_where-map p f g (o ∷ os) same =
    ap₂ (λ (b : Bool) n. (if b then 1 else 0) + n) (ap p (same o)) (count_where-map p f g os same)

-- An observation comes before another with a lower score, or with the same score and an identifier
-- that does not precede its own.
abbrev pub ComesBefore : Observation → Observation → Type 0
ComesBefore a b =
    (b.rank_score < a.rank_score) ⊎ ((a.rank_score ≡ b.rank_score) × (text_le a.id b.id ≡ true))

abbrev pub IsRanked : List Observation → Type 0
IsRanked [] = Unit
IsRanked (a ∷ []) = Unit
IsRanked (a ∷ b ∷ os) = ComesBefore a b × IsRanked (b ∷ os)

comes_before : (a b : Observation) → ranks_before a b ≡ true → ComesBefore a b
comes_before a b h = elim (Bool-cases (ltb b.rank_score a.rank_score)) [
  | inl higher ↦ inl (ground arith)
  | inr even ↦ inr (ground arith, ground arith)
]

sorted-IsRanked : (os : List Observation) → IsSorted ranks_before os → IsRanked os
sorted-IsRanked [] s = tt
sorted-IsRanked (a ∷ []) s = tt
sorted-IsRanked (a ∷ b ∷ os) s = (comes_before a b s.0, sorted-IsRanked (b ∷ os) s.1)

scored-All :
    (callers : Dict ℕ) (w : ℕ) (os : List Observation)
    → IsWidest callers w
    → All (IsScored callers w) (map (scored callers) os)
scored-All callers w [] wide = tt
scored-All callers w (o ∷ os) wide =
    (score_of-IsScored callers w o wide, scored-All callers w os wide)

-- `_rank` gives back what it is given, scored and in order. With the largest of the counts of callers, each
-- score is the nearest number to the product of confidence, severity, relevance and centrality; each
-- observation has a higher score than the next, or the same and an identifier that is not greater; and
-- of those that agree but for their score with a description there are as many as before.
pub rank-IsSorted :
    (callers : Dict ℕ) (w : ℕ) (os : List Observation)
    → IsWidest callers w
    → All (IsScored callers w) (rank callers os)
      × IsRanked (rank callers os)
      × ((p : Observation → Bool)
          → count_where (λ o. p (unscored o)) (rank callers os)
            ≡ count_where (λ o. p (unscored o)) os)
unfolding rank
rank-IsSorted callers w os wide = (
  All-sort_by (IsScored callers w) ranks_before (map (scored callers) os)
      (scored-All callers w os wide),
  sorted-IsRanked _ (sort_by-IsSorted ranks_before ranks_total (map (scored callers) os)),
  λ p.
      count_where-sort_by (λ o. p (unscored o)) ranks_before (map (scored callers) os)
      ∙ count_where-map p (scored callers) unscored os (λ o. refl),
)
