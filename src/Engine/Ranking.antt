-- ===== src/Engine/Ranking.antt =====
-- prflagger/engine/worker.py: _rank, _counts, the demotion in _adjudicate and _attach_norms. A product of
-- fractions is exact and then rounded half to even, where the program's is a float.
pub mod Scores
pub mod Order
pub mod Demoted
use pr_review.Prelude.{
  ℕ, ◌+◌, ◌*◌, ◌/◌, ◌%◌, max, String, Bool, true, false, not, Option, none, some, List, [], ◌∷◌,
  ◌==◌, ◌&&◌, ◌||◌, eqb, leb, ltb, if◌then◌else◌, map, contains, before, sort_by, text_le, Dict,
  get, put, is_nil, all_where, join,
}
use pr_review.Core.Records.{Norm, Observation, Adjudication, Millionths}
use pr_review.Storage.Reviews.{NormRow, norms, replace_norms}
use pr_review.Charter.Relevance.{weight_of}

abbrev pub is_even : ℕ → Bool
is_even n = eqb (n % 2) 0

-- The fraction to the nearest number, a half to the even one.
unfoldable pub round_div : ℕ → ℕ → ℕ
round_div n d =
    let twice = 2 * (n % d) in
    if ltb twice d || (eqb twice d && is_even (n / d)) then n / d else n / d + 1

abbrev count_or : Option ℕ → ℕ
count_or none = 0
count_or (some n) = n

-- max(callers.values(), default=0)
unfoldable pub widest_of : Dict ℕ → ℕ
widest_of [] = 0
widest_of ((symbol, n) ∷ rest) = max n (widest_of rest)

-- confidence x severity x centrality x relevance; the centrality is (widest + count) / (2 widest).
unfoldable pub score_of : Dict ℕ → Observation → Millionths
score_of callers o =
    let product = o.confidence * (o.severity * weight_of o.relevance) in
    let widest = widest_of callers in
    let count = count_or (get callers o.symbol) in
    if eqb widest 0
    then round_div product 2000000000000
    else round_div (product * (widest + count)) (2000000000000 * widest)

abbrev pub scored : Dict ℕ → Observation → Observation
scored callers o = record o { rank_score = score_of callers o }

-- (-rank_score, id)
abbrev pub ranks_before : Observation → Observation → Bool
ranks_before a b =
    ltb b.rank_score a.rank_score || (eqb a.rank_score b.rank_score && text_le a.id b.id)

-- `_rank`, with the callers that the store counts.
unfoldable pub rank : Dict ℕ → List Observation → List Observation
rank callers os = sort_by ranks_before (map (scored callers) os)

unfoldable pub counts_from : Dict ℕ → List Observation → Dict ℕ
counts_from out [] = out
counts_from out (o ∷ os) = counts_from (put out o.kind (count_or (get out o.kind) + 1)) os

-- `_counts`
unfoldable pub counts : List Observation → Dict ℕ
counts os = counts_from [] os

-- round(confidence * 0.5, 4)
unfoldable pub halved : Millionths → Millionths
halved c =
    let q = c / 200 in
    let r = c % 200 in if ltb r 100 || (eqb r 100 && is_even q) then 100 * q else 100 * (q + 1)

-- The observations that an adjudication shows to be misleading.
unfoldable pub misleading : List Adjudication → List String
misleading [] = []
misleading (a ∷ rest) =
    let ids = misleading rest in
    if a.assessment == "probe_false_positive" then a.observation_id ∷ ids else ids

unfoldable pub demoted : List String → Observation → Observation
demoted ids o = if contains o.id ids then record o { confidence = halved o.confidence } else o

-- The ranking that `_adjudicate` returns.
unfoldable pub rank_adjudicated : Dict ℕ → List Adjudication → List Observation → List Observation
rank_adjudicated callers adjudications os =
    rank callers (map (demoted (misleading adjudications)) os)

-- norm_for_tool in prflagger/brain/declared.py
abbrev norm_for_tool : String → String
norm_for_tool tool = join "declared-lint-" tool

-- The norm that makes a kind of finding matter.
unfoldable pub candidate_of : Observation → String
candidate_of o =
    if o.kind == "lint_regression"
    then norm_for_tool (before " " o.what_changed)
    else if o.kind == "api_change"
    then "declared-changelog"
    else if contains o.kind
        ("behavior_change" ∷ "timeout" ∷ "oom" ∷ "coverage_gap" ∷ "test_removed" ∷ [])
    then "declared-tests"
    else ""

unfoldable pub attach : List String → Observation → Observation
attach known o =
    if contains (candidate_of o) known then record o { norm_id = candidate_of o } else o

ids_of : List Norm → List String
ids_of [] = []
ids_of (n ∷ ns) = n.id ∷ ids_of ns

attached_or :
    List String
    → List Observation
    → Option (List NormRow)
    → Option (List Observation × List NormRow)
attached_or known os none = none
attached_or known os (some rows) = some (map (attach known) os, rows)

-- `_attach_norms`, with what declared_norms reads from the base commit. `none` is the ValueError of
-- replace_norms.
unfoldable pub attach_norms :
    String → List Norm → List NormRow → List Observation → Option (List Observation × List NormRow)
unfolding ids_of attached_or
attach_norms repo declared rows os =
    let known = ids_of (all_where (λ (n : Norm). n.source == "declared") (norms repo rows)) in
    if is_nil known
    then attached_or (ids_of declared) os (replace_norms repo "declared" declared rows)
    else some (map (attach known) os, rows)
