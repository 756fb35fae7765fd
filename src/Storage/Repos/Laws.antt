-- ===== src/Storage/Repos/Laws.antt =====
-- What is stored is what is read.
use pr_review.Prelude.{
  ℕ, String, ◌≡◌, ◌∙◌, ap, ap₂, subst, true, none, some, inl, inr, eq_iff, arith, if◌then◌else◌,
  first_where, first_where-holds, some_where, Bool, false, ◌&&◌, ◌||◌, upsert_child, refl,
  upsert_where-same, upsert_where-other, Option-cases, Bool-cases,
}
use pr_review.Core.Models.{PullRequest}
use pr_review.Storage.Repos.{
  Repos, Pulls, is_repo, is_pull, pull_updated, write_pull, put_pull, pull,
}

module _ (p : PullRequest) where
  is_pull_self : is_pull p.repo p.number p ≡ true
  is_pull_self = ground (arith, eq_iff p.repo p.repo)

  updated_same : (old : PullRequest) → is_pull p.repo p.number old ≡ true → pull_updated p old ≡ p
  updated_same old h =
      ap₂ (λ r n. record p { repo = r; number = n }) (ground (arith, eq_iff old.repo p.repo))
        (ground arith)

  stored_same : (rows : Pulls) → first_where (is_pull p.repo p.number) (write_pull p rows) ≡ some p
  unfolding write_pull
  stored_same rows = elim (Option-cases (first_where (is_pull p.repo p.number) rows)) [
    | inl absent ↦
        upsert_where-same (is_pull p.repo p.number) (pull_updated p) p rows none is_pull_self
          (λ y h. h) absent
    | inr (old, found) ↦
        upsert_where-same (is_pull p.repo p.number) (pull_updated p) p rows (some old) is_pull_self
          (λ y h. h) found
        ∙ ap some (updated_same old (first_where-holds (is_pull p.repo p.number) rows old found))
  ]

  pub pull-write_pull :
      (rows : Pulls) (repo : String) (number : ℕ)
      → pull repo number (write_pull p rows)
        ≡ (if is_pull repo number p then some p else pull repo number rows)
  unfolding pull write_pull
  pull-write_pull rows repo number = elim (Bool-cases (is_pull repo number p)) [
    | inl same ↦ rw same (
        subst (λ r. first_where (is_pull r number) (write_pull p rows) ≡ some p)
          (ground (arith, eq_iff p.repo repo))
          (subst (λ n. first_where (is_pull p.repo n) (write_pull p rows) ≡ some p) (ground arith)
            (stored_same rows)))
    | inr other ↦ rw other (
        upsert_where-other (is_pull p.repo p.number) (is_pull repo number) (pull_updated p) p rows
          (λ y h. ground (arith, eq_iff y.repo p.repo, eq_iff y.repo repo, eq_iff p.repo repo))
          (λ y h. ground (arith, eq_iff y.repo p.repo, eq_iff y.repo repo, eq_iff p.repo repo))
          other)
  ]

  -- The repository has a row, or the pull request has one already.
  abbrev pub has_parent : Repos → Pulls → Bool
  has_parent known rows =
      some_where (is_repo p.repo) known || some_where (is_pull p.repo p.number) rows

  abbrev put_if : Bool → Pulls → Bool × Pulls
  put_if accepted rows = if accepted then (true, write_pull p rows) else (false, rows)

  pull_if :
      (accepted : Bool) (rows : Pulls) (repo : String) (number : ℕ)
      → ((put_if accepted rows).0 ≡ accepted)
        × (pull repo number (put_if accepted rows).1
            ≡ (if accepted && is_pull repo number p then some p else pull repo number rows))
  pull_if true rows repo number = (refl, pull-write_pull rows repo number)
  pull_if false rows repo number = (refl, refl)

  -- `put_pull` is accepted exactly if the repository has a row, or the pull request one of its own. If it
  -- is, `pull` reads this pull request under its repository and number, and what it read before under
  -- any other; if it is refused, `pull` reads what it read before.
  pub pull-put_pull :
      (known : Repos) (rows : Pulls) (repo : String) (number : ℕ)
      → ((put_pull known p rows).0 ≡ has_parent known rows)
        × (pull repo number (put_pull known p rows).1 ≡ (
            if has_parent known rows && is_pull repo number p
            then some p
            else pull repo number rows))
  pull-put_pull known rows repo number =
      unfold put_pull in
      unfold upsert_child in unfold write_pull in pull_if (has_parent known rows) rows repo number

  -- For a repository that has a row, `put_pull` is its statement.
  put_pull_registered :
      (known : Repos) (rows : Pulls)
      → some_where (is_repo p.repo) known ≡ true
      → put_pull known p rows ≡ (true, write_pull p rows)
  unfolding put_pull upsert_child write_pull
  put_pull_registered known rows has_row =
      ap (λ b. put_if (b || some_where (is_pull p.repo p.number) rows) rows) has_row
