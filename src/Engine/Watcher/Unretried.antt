-- ===== src/Engine/Watcher/Unretried.antt =====
-- A pull request is handed to the scheduler once for each head.
use pr_review.Prelude.{ℕ, String, ◌≡◌, refl, ap, ◌∙◌, Option, none, some, arith, eq_iff}
use pr_review.Storage.Repos.{write_pull, pull}
use pr_review.Storage.Repos.Laws.{pull-write_pull}
use pr_review.Engine.Scheduler.{Config}
use pr_review.Engine.Watcher.{Watch, Listed, reason, submitted, poll_pull}

module _ (cfg : Config) (slug : String) where
  stored_after :
      (l : Listed) (why : Option String) (w : Watch)
      → (submitted cfg slug l why w).1.pulls ≡ w.pulls
  unfolding submitted
  stored_after l none w = refl
  stored_after l (some why) w = refl

  -- After a poll of a listed pull request, a poll that lists it with the same head submits nothing and
  -- leaves the scheduler as it is, whether the scheduler took the pull request then or refused it.
  pub poll_again :
      (l again : Listed) (w : Watch)
      → l.pull.repo ≡ slug
      → again.pull.number ≡ l.pull.number
      → again.pull.head_sha ≡ l.pull.head_sha
      → ((poll_pull cfg slug again (poll_pull cfg slug l w).1).0 ≡ 0)
        × ((poll_pull cfg slug again (poll_pull cfg slug l w).1).1.scheduler
            ≡ (poll_pull cfg slug l w).1.scheduler)
  poll_again l again w own same head = (
    ap (λ (r : ℕ × Watch). r.0) (quiet (poll_pull cfg slug l w).1 known),
    ap (λ (r : ℕ × Watch). r.1.scheduler) (quiet (poll_pull cfg slug l w).1 known),
  )
    where
      known : pull slug again.pull.number (poll_pull cfg slug l w).1.pulls ≡ some l.pull
      known =
          unfold poll_pull in
          (ap (pull slug again.pull.number) (
              stored_after l (reason (pull slug l.pull.number w.pulls) l.pull)
                (record w { pulls = write_pull l.pull w.pulls }))
            ∙ pull-write_pull l.pull w.pulls slug again.pull.number
            ∙ ground (arith, eq_iff l.pull.repo slug))

      same_head : reason (some l.pull) again.pull ≡ none
      same_head = unfold reason in ground (arith, eq_iff l.pull.head_sha again.pull.head_sha)

      quiet :
          (v : Watch)
          → pull slug again.pull.number v.pulls ≡ some l.pull
          → poll_pull cfg slug again v ≡ (0, record v { pulls = write_pull again.pull v.pulls })
      quiet v e =
          unfold poll_pull in
          ap (λ o. submitted cfg slug again o (record v { pulls = write_pull again.pull v.pulls }))
            (ap (λ o. reason o again.pull) e ∙ same_head)
          ∙ (unfold submitted in refl)
