-- ===== src/Llm/Ledger/Sums.antt =====
-- What each operation of the ledger does to what a cap is compared with.
use pr_review.Prelude.{
  ℕ, ◌+◌, ◌≤◌, String, ◌≡◌, true, false, Option, none, some, List, [], ◌∷◌, arith, eqb, sum_by,
  sum_by-append, ◌⊎◌, inl, inr,
}
use pr_review.Llm.Ledger.{
  Completion, Settings, Ledger, Reservation, Spend, Scope, total, daily, run, row_usd, held_usd,
  committed, drop_id, release, record_call, cost,
}

-- The reservation is among those in flight, and no other has its number.
abbrev pub Holds : Reservation → List Reservation → Type 0
Holds r [] = ⊥
Holds r (x ∷ xs) = (x ≡ r) ⊎ ((eqb x.id r.id ≡ false) × Holds r xs)

sum_by-drop_id :
    (f : Reservation → ℕ) (r : Reservation) (held : List Reservation)
    → Holds r held
    → sum_by f (drop_id r.id held) + f r ≡ sum_by f held
unfolding drop_id
sum_by-drop_id f r [] h = absurd h
sum_by-drop_id f r (x ∷ xs) (inl e) = ground arith
sum_by-drop_id f r (x ∷ xs) (inr (ne, h)) = ground (arith, sum_by-drop_id f r xs h)

sum_by-drop_id-le :
    (f : Reservation → ℕ) (id : ℕ) (held : List Reservation)
    → sum_by f (drop_id id held) ≤ sum_by f held
unfolding drop_id
sum_by-drop_id-le f id [] = omega arith
sum_by-drop_id-le f id (x ∷ xs) = ground (arith, sum_by-drop_id-le f id xs)

pub committed-release-le :
    (scope : Scope) (r : Reservation) (l : Ledger)
    → committed scope (release r l) ≤ committed scope l
unfolding committed release
committed-release-le scope r l = omega (arith, sum_by-drop_id-le (held_usd scope) r.id l.held)

-- A cached call costs nothing, so it commits nothing.
pub committed-record_cached :
    (cfg : Settings) (now : ℕ) (c : Completion) (model stage : String) (run_id repo : Option String)
    (scope : Scope) (l : Ledger)
    → committed scope (record_call cfg now c model stage run_id repo true none l).1
      ≡ committed scope l
unfolding committed record_call
committed-record_cached cfg now c model stage run_id repo scope l =
    omega (arith, sum_by-append (row_usd scope) l.rows (free ∷ []), free_usd)
  where
    free : Spend
    free = record {
      ts = now;
      run_id = run_id;
      repo = repo;
      model = model;
      stage = stage;
      completion = c;
      usd = 0;
      cached = true;
    }

    free_usd : row_usd scope free ≡ 0
    free_usd = ground arith

-- A call that was reserved for the same run and repository commits no more once it is recorded.
pub committed-record_reserved :
    (cfg : Settings) (now : ℕ) (c : Completion) (model stage : String) (r : Reservation)
    (scope : Scope) (l : Ledger)
    → Holds r l.held
    → cost cfg c (some model) ≤ r.usd
    → committed scope (record_call cfg now c model stage r.run_id r.repo false (some r) l).1
      ≤ committed scope l
unfolding committed record_call release
committed-record_reserved cfg now c model stage r scope l h paid = omega (
  arith,
  sum_by-append (row_usd scope) l.rows (row ∷ []),
  sum_by-drop_id (held_usd scope) r l.held h,
  row_le scope,
)
  where
    row : Spend
    row = record {
      ts = now;
      run_id = r.run_id;
      repo = r.repo;
      model = model;
      stage = stage;
      completion = c;
      usd = cost cfg c (some model);
      cached = false;
    }

    row_le : (s : Scope) → row_usd s row ≤ held_usd s r
    row_le total = ground arith
    row_le (daily repo since) = ground arith
    row_le (run id) = ground arith
