-- ===== src/Storage/Runs/Latest.antt =====
-- The latest run of a pull request is the newest of its rows.
use pr_review.Prelude.{
  ℕ, ◌≤◌, ◌≡◌, refl, sym, ap, subst, ◌∙◌, String, Option, none, some, List, [], ◌∷◌, ◌⊎◌, inl, inr,
  ◌==◌, ◌&&◌, ◌||◌, arith, eqb, if◌then◌else◌, All, Bool-cases,
}
use pr_review.Core.Models.{Run}
use pr_review.Storage.Runs.{
  Table, insert_by, order_by, newest_first, where_runs, limit_to, wanted_repo, wanted_pr, runs,
  first_run, latest_run,
}

abbrev pub Holds : Run → List Run → Type 0
Holds r [] = ⊥
Holds r (x ∷ xs) = (x ≡ r) ⊎ Holds r xs

-- Nothing of an empty list, and else an element that none is newer than.
abbrev pub IsNewest : List Run → Option Run → Type 0
IsNewest rs none = rs ≡ []
IsNewest rs (some r) = Holds r rs × All (λ x. x.created_at ≤ r.created_at) rs

-- The runs of a pull request, in the order of insertion; an empty repository is any.
unfoldable pub of_pull : String → ℕ → Table → List Run
of_pull repo pr [] = []
of_pull repo pr (row ∷ rows) =
    if (repo == "" || row.run.repo == repo) && eqb row.run.pr_number pr
    then row.run ∷ of_pull repo pr rows
    else of_pull repo pr rows

of_pull-where_runs :
    (repo : String) (pr : ℕ) (rows : Table)
    → where_runs (λ r. wanted_repo (some repo) r && wanted_pr (some pr) r) rows
      ≡ of_pull repo pr rows
unfolding where_runs wanted_repo wanted_pr of_pull
of_pull-where_runs repo pr [] = refl
of_pull-where_runs repo pr (row ∷ rows) = ground (arith, of_pull-where_runs repo pr rows)

first_run-limit_to : (rs : List Run) → first_run (limit_to 1 rs) ≡ first_run rs
unfolding limit_to
first_run-limit_to [] = refl
first_run-limit_to (r ∷ rs) = refl

still_older :
    (r x : Run) (rs : List Run)
    → x.created_at ≤ r.created_at
    → All (λ y. y.created_at ≤ x.created_at) rs
    → All (λ y. y.created_at ≤ r.created_at) rs
still_older r x [] p h = tt
still_older r x (y ∷ ys) p h = (omega (arith, h.0), still_older r x ys p h.1)

nothing_older : (r : Run) (rs : List Run) → rs ≡ [] → All (λ y. y.created_at ≤ r.created_at) rs
nothing_older r [] e = tt
nothing_older r (x ∷ xs) e = absurd (ground arith)

insert_by-IsNewest :
    (r : Run) (rs sorted : List Run)
    → IsNewest rs (first_run sorted)
    → IsNewest (r ∷ rs) (first_run (insert_by newest_first r sorted))
unfolding insert_by newest_first
insert_by-IsNewest r rs [] h = (inl refl, (omega arith, nothing_older r rs h))
insert_by-IsNewest r rs (x ∷ xs) h = elim (Bool-cases (newest_first r x)) [
  | inl newer ↦ rw newer (inl refl, (omega arith, still_older r x rs (ground arith) h.1))
  | inr older ↦ rw older (inr h.0, (ground arith, h.1))
]

order_by-IsNewest : (rs : List Run) → IsNewest rs (first_run (order_by newest_first rs))
unfolding order_by
order_by-IsNewest [] = refl
order_by-IsNewest (r ∷ rs) =
    insert_by-IsNewest r rs (order_by newest_first rs) (order_by-IsNewest rs)

-- `latest_run` gives nothing exactly where the table has no run of the pull request, and otherwise
-- one of its runs that none of them is newer than.
pub latest_run-IsNewest :
    (repo : String) (pr : ℕ) (rows : Table)
    → IsNewest (of_pull repo pr rows) (latest_run repo pr rows)
unfolding latest_run runs
latest_run-IsNewest repo pr rows =
    subst (IsNewest (of_pull repo pr rows))
      (sym (
        first_run-limit_to _
        ∙ ap (λ l. first_run (order_by newest_first l)) (of_pull-where_runs repo pr rows)))
      (order_by-IsNewest (of_pull repo pr rows))
