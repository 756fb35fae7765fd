-- ===== src/Engine/Watcher.antt =====
-- prflagger/engine/watcher.py: poll_once and _poll_repo of Watcher. What GitHub lists for a repository, or
-- the error, is an argument; so are the time and the identifier that each `submit` draws. The charter
-- keeper, which a watcher may have, is not here. poll_once polls the repositories of the table, of
-- which no caller deletes one, and what GitHub lists and what is read back is of the repository polled:
-- the foreign key of put_pull holds, and its statement, `write_pull`, stands for it.
pub mod Polled
pub mod Unretried
use pr_review.Prelude.{
  ℕ, ◌+◌, String, Bool, true, false, not, Option, none, some, List, [], ◌∷◌, ◌++◌, ◌==◌, ◌&&◌, ◌||◌,
  eqb, if◌then◌else◌, contains, begins, take_text, length,
}
use pr_review.Core.Models.{PullRequest}
use pr_review.Core.Records.{Repo}
use pr_review.Storage.Repos.{Repos, Pulls, write_pull, pull, pulls, repos}
use pr_review.Engine.Scheduler.{
  Config, Scheduler, Event, emit, submit, pull_changed, watcher_error, watcher_polled,
}

-- The tables and the log that a poll writes.
pub record Watch : Type 0 where
  pub scheduler : Scheduler
  pub pulls : Pulls

-- A pull request that GitHub lists, and what `submit` draws if it is called for it.
pub record Listed : Type 0 where
  pub pull : PullRequest
  pub now : ℕ
  pub identifier : String

-- Why a listed pull request is submitted.
unfoldable pub reason : Option PullRequest → PullRequest → Option String
reason none p = some "new"
reason (some known) p = if known.head_sha == p.head_sha then none else some "head moved"

noted : String → PullRequest → Option String → Scheduler → Scheduler
unfolding emit
noted slug p none s = s
noted slug p (some why) s = emit (pull_changed slug p.number p.head_sha why) s

abbrev one_if : Option String → ℕ
one_if none = 0
one_if (some identifier) = 1

submitted : Config → String → Listed → Option String → Watch → ℕ × Watch
unfolding noted
submitted cfg slug l none w = (0, w)
submitted cfg slug l (some why) w =
    let (answer, s) =
      submit cfg l.now l.identifier l.pull "watcher" false
        (noted slug l.pull (some why) w.scheduler) in
    (one_if answer, record w { scheduler = s })

-- One pass of the loop over the list.
unfoldable pub poll_pull : Config → String → Listed → Watch → ℕ × Watch
unfolding submitted
poll_pull cfg slug l w =
    submitted cfg slug l (reason (pull slug l.pull.number w.pulls) l.pull)
      (record w { pulls = write_pull l.pull w.pulls })

unfoldable pub poll_listed : Config → String → List Listed → Watch → ℕ × Watch
poll_listed cfg slug [] w = (0, w)
poll_listed cfg slug (l ∷ ls) w =
    let (n, w') = poll_pull cfg slug l w in
    let (m, w'') = poll_listed cfg slug ls w' in (n + m, w'')

-- seen
unfoldable pub is_seen : List Listed → ℕ → Bool
is_seen [] number = false
is_seen (l ∷ ls) number = eqb l.pull.number number || is_seen ls number

unfoldable pub closed : PullRequest → PullRequest
closed p = record p { state = "closed" }

unfoldable pub close_unseen : List Listed → List PullRequest → Pulls → Pulls
unfolding closed
close_unseen ls [] rows = rows
close_unseen ls (p ∷ ps) rows =
    close_unseen ls ps (if is_seen ls p.number then rows else write_pull (closed p) rows)

-- What GitHub answers for a repository.
pub data Answer : Type 0 where
  unavailable : (error : String) → Answer
  listed : (open_pulls : List Listed) → Answer

-- `_poll_repo`
unfoldable pub poll_repo : Config → String → Answer → Watch → ℕ × Watch
unfolding emit
poll_repo cfg slug (unavailable error) w =
    (0, record w { scheduler = emit (watcher_error slug (take_text 300 error)) w.scheduler })
poll_repo cfg slug (listed ls) w =
    let (n, w') = poll_listed cfg slug ls w in
    (n, record w' { pulls = close_unseen ls (pulls slug (some "open") w'.pulls) w'.pulls })

-- What the configuration says of a repository.
pub record Entry : Type 0 where
  pub watch : Bool
  pub clone_url : String

-- GitHub lists pull requests only of what is cloned from it.
unfoldable pub is_polled : Entry → Bool
is_polled e =
    e.watch && not (not (e.clone_url == "") && not (begins "https://github.com/" e.clone_url))

unfoldable pub poll_all :
    Config → (String → Entry) → (String → Answer) → List Repo → Watch → ℕ × Watch
poll_all cfg entry answer [] w = (0, w)
poll_all cfg entry answer (r ∷ rs) w =
    let (n, w') =
      if is_polled (entry r.slug) then poll_repo cfg r.slug (answer r.slug) w else (0, w) in
    let (m, w'') = poll_all cfg entry answer rs w' in (n + m, w'')

-- `poll_once`
unfoldable pub poll_once : Config → (String → Entry) → (String → Answer) → Repos → Watch → ℕ × Watch
unfolding emit
poll_once cfg entry answer rows w =
    let (n, w') = poll_all cfg entry answer (repos rows) w in
    (n, record w' { scheduler = emit (watcher_polled n (length rows)) w'.scheduler })
