-- ===== src/Engine/Ranking/Scores.antt =====
-- prflagger/engine/worker.py: the score that _rank gives to an observation, as the nearest number to a fraction.
use pr_review.Prelude.{
  ℕ, ◌+◌, ◌*◌, ◌/◌, ◌%◌, ◌≤◌, ◌<◌, String, ◌≡◌, refl, sym, subst, ◌∙◌, Bool, true, false, [], ◌∷◌,
  ◌⊎◌, inl, inr, All, some_where, eqb, ltb, ◌&&◌, ◌||◌, if◌then◌else◌, arith, Dict, get,
}
use pr_review.Core.Records.{Observation}
use pr_review.Charter.Relevance.{weight_of}
use pr_review.Engine.Ranking.{is_even, round_div, count_or, widest_of, score_of}
use native.Mathlib.Omega.{div_any}
use native.Mathlib.Nat.{mod-lt, mul-suc}

-- No number is nearer to the fraction n / d than s.
abbrev pub IsNearest : ℕ → ℕ → ℕ → Type 0
IsNearest n d s = (2 * n ≤ 2 * (d * s) + d) × (2 * (d * s) ≤ 2 * n + d)

if-IsNearest :
    (n d q r : ℕ) (down : Bool)
    → d * q + r ≡ n
    → r < d
    → (down ≡ true → 2 * r ≤ d)
    → (down ≡ false → d ≤ 2 * r)
    → IsNearest n d (if down then q else q + 1)
if-IsNearest n d q r true e lt f g = (omega (arith, f refl), omega arith)
if-IsNearest n d q r false e lt f g =
    (omega (arith, mul-suc d q), omega (arith, g refl, mul-suc d q))

round_div-IsNearest : (n d : ℕ) → 0 < d → IsNearest n d (round_div n d)
unfolding round_div
round_div-IsNearest n d pos =
    let twice = 2 * (n % d) in
    if-IsNearest n d (n / d) (n % d) (ltb twice d || (eqb twice d && is_even (n / d))) (div_any n d)
      (mod-lt n pos) (λ h. ground arith) (λ h. ground arith)

-- The largest of the counts, 0 if there is none.
abbrev pub IsWidest : Dict ℕ → ℕ → Type 0
IsWidest callers w =
    All (λ (e : String × ℕ). e.1 ≤ w) callers
    × ((w ≡ 0) ⊎ (some_where (λ (e : String × ℕ). eqb e.1 w) callers ≡ true))

widest-le :
    (callers : Dict ℕ) (w : ℕ) → All (λ (e : String × ℕ). e.1 ≤ w) callers → widest_of callers ≤ w
unfolding widest_of
widest-le [] w h = omega arith
widest-le ((symbol, n) ∷ rest) w h = omega (arith, h.0, widest-le rest w h.1)

widest-ge :
    (callers : Dict ℕ) (w : ℕ)
    → some_where (λ (e : String × ℕ). eqb e.1 w) callers ≡ true
    → w ≤ widest_of callers
unfolding widest_of some_where
widest-ge [] w h = ground arith
widest-ge ((symbol, n) ∷ rest) w h = ground (arith, widest-ge rest w)

widest_lem : (callers : Dict ℕ) (w : ℕ) → IsWidest callers w → widest_of callers ≡ w
widest_lem callers w (all, inl none_yet) = omega (arith, widest-le callers w all)
widest_lem callers w (all, inr one) =
    omega (arith, widest-le callers w all, widest-ge callers w one)

-- The score is confidence x severity x relevance x centrality, in millionths, to the nearest: the
-- centrality is a half if nothing has a caller, and otherwise rises from a half to one with the
-- callers of the symbol, by the most that one symbol has.
pub record IsScored (callers : Dict ℕ) (w : ℕ) (o : Observation) : Type 0 where
  pub uncalled :
      w ≡ 0
      → IsNearest (o.confidence * (o.severity * weight_of o.relevance)) 2000000000000 o.rank_score
  pub called :
      0 < w
      → IsNearest
          (o.confidence
            * (o.severity * weight_of o.relevance)
            * (w + count_or (get callers o.symbol)))
          (2000000000000 * w)
          o.rank_score

score_when :
    (callers : Dict ℕ) (o : Observation) (w : ℕ)
    → widest_of callers ≡ w
    → score_of callers o ≡ (
        if eqb w 0
        then round_div (o.confidence * (o.severity * weight_of o.relevance)) 2000000000000
        else round_div
            (o.confidence
              * (o.severity * weight_of o.relevance)
              * (w + count_or (get callers o.symbol)))
            (2000000000000 * w))
unfolding score_of
score_when callers o w e = rw e refl

pub score_of-IsScored :
    (callers : Dict ℕ) (w : ℕ) (o : Observation)
    → IsWidest callers w
    → IsScored callers w (record o { rank_score = score_of callers o })
score_of-IsScored callers w o wide =
    let e = score_when callers o w (widest_lem callers w wide) in
    let product = o.confidence * (o.severity * weight_of o.relevance) in
    record {
      uncalled = λ z.
          subst (IsNearest product 2000000000000) (sym (e ∙ ground arith))
            (round_div-IsNearest product 2000000000000 (omega arith));
      called = λ pos.
          let n = product * (w + count_or (get callers o.symbol)) in
          subst (IsNearest n (2000000000000 * w)) (sym (e ∙ ground arith))
            (round_div-IsNearest n (2000000000000 * w) (omega arith));
    }
