-- ===== src/Engine/Watcher/Polled.antt =====
-- What GitHub does not list is open no more.
use pr_review.Prelude.{
  ℕ, String, ◌≡◌, subst, ◌∙◌, Bool, true, false, some, List, [], ◌∷◌, ◌==◌, ◌&&◌, if◌then◌else◌,
  arith, eq_iff, Bool-cases, inl, inr, some_where, some_where-sort_by, some_where-all_where,
  some_where-upsert_where, gone-upsert_where,
}
use pr_review.Core.Models.{PullRequest}
use pr_review.Storage.Repos.{write_pull, is_pull, pull_updated, pulls, Pulls}
use pr_review.Engine.Scheduler.{Config}
use pr_review.Engine.Watcher.{
  Watch, Listed, is_seen, closed, close_unseen, listed, poll_repo, poll_listed,
}

-- A row of the repository's with that number is open.
abbrev is_open : String → ℕ → PullRequest → Bool
is_open slug number p = is_pull slug number p && p.state == "open"

unfoldable pub open_at : String → ℕ → Pulls → Bool
open_at slug number rows = some_where (is_open slug number) rows

not_true : (b : Bool) → (b ≡ true → false ≡ true) → b ≡ false
not_true b h = ground (arith, h)

module _ (slug : String) (number : ℕ) where
  put-closed :
      (p : PullRequest) (rows : Pulls)
      → open_at slug number (write_pull (closed p) rows) ≡ true
      → open_at slug number rows ≡ true
  unfolding open_at write_pull closed
  put-closed p rows h =
      some_where-upsert_where (is_open slug number) (is_pull p.repo p.number)
        (pull_updated (closed p)) (closed p) rows (λ y e. ground arith) (ground arith) h

  gone-closed :
      (p : PullRequest) (rows : Pulls)
      → is_open slug number p ≡ true
      → open_at slug number (write_pull (closed p) rows) ≡ false
  unfolding open_at write_pull closed
  gone-closed p rows h =
      gone-upsert_where (is_open slug number) (is_pull p.repo p.number) (pull_updated (closed p))
        (closed p) rows (λ y e. ground arith)
        (λ y e. ground (arith, eq_iff y.repo slug, eq_iff p.repo slug, eq_iff y.repo p.repo))
        (ground arith)

  same_number : (p : PullRequest) → is_open slug number p ≡ true → number ≡ p.number
  same_number p h = ground arith

  snapshot :
      (rows : Pulls)
      → some_where (is_open slug number) (pulls slug (some "open") rows) ≡ open_at slug number rows
  unfolding pulls open_at
  snapshot rows =
      some_where-sort_by (is_open slug number) _ _
      ∙ some_where-all_where (is_open slug number) _ rows (λ p h. ground arith)

  step_only :
      (seen : Bool) (p : PullRequest) (rows : Pulls)
      → open_at slug number (if seen then rows else write_pull (closed p) rows) ≡ true
      → open_at slug number rows ≡ true
  step_only true p rows h = h
  step_only false p rows h = put-closed p rows h

  module _ (ls : List Listed) where
    closed_only :
        (ps : List PullRequest) (rows : Pulls)
        → open_at slug number (close_unseen ls ps rows) ≡ true
        → open_at slug number rows ≡ true
    unfolding close_unseen
    closed_only [] rows h = h
    closed_only (p ∷ ps) rows h =
        step_only (is_seen ls p.number) p rows
          (closed_only ps (if is_seen ls p.number then rows else write_pull (closed p) rows) h)

    closed_all :
        (ps : List PullRequest) (rows : Pulls)
        → is_seen ls number ≡ false
        → some_where (is_open slug number) ps ≡ true
        → open_at slug number (close_unseen ls ps rows) ≡ false
    unfolding close_unseen some_where
    closed_all [] rows unseen h = ground arith
    closed_all (p ∷ ps) rows unseen h = elim (Bool-cases (is_open slug number p)) [
      | inl here ↦
          not_true
            (open_at slug number (
              close_unseen ls ps
                (if is_seen ls p.number then rows else write_pull (closed p) rows)))
            (λ e.
              let after =
                closed_only ps (if is_seen ls p.number then rows else write_pull (closed p) rows)
                  e in
              ground (
                arith,
                gone-closed p rows here,
                subst (λ n. is_seen ls n ≡ false) (same_number p here) unseen,
              ))
      | inr other ↦ closed_all ps _ unseen (ground arith)
    ]

    closed_after :
        (rows : Pulls)
        → is_seen ls number ≡ false
        → open_at slug number (close_unseen ls (pulls slug (some "open") rows) rows) ≡ false
    closed_after rows unseen = elim (Bool-cases (open_at slug number rows)) [
      | inl h ↦ closed_all (pulls slug (some "open") rows) rows unseen (snapshot rows ∙ h)
      | inr h ↦
          not_true (open_at slug number (close_unseen ls (pulls slug (some "open") rows) rows))
            (λ e. let before = closed_only (pulls slug (some "open") rows) rows e in ground arith)
    ]

  -- After a poll, a pull request that GitHub's answer does not list is not open, whatever was stored.
  pub poll_repo_closes :
      (cfg : Config) (ls : List Listed) (w : Watch)
      → is_seen ls number ≡ false
      → open_at slug number (poll_repo cfg slug (listed ls) w).1.pulls ≡ false
  unfolding poll_repo
  poll_repo_closes cfg ls w unseen = closed_after ls (poll_listed cfg slug ls w).1.pulls unseen
