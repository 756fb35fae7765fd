-- ===== src/Storage/Repos.antt =====
-- The `repos` and `pulls` tables of prflagger/storage/repos.py. A column that holds JSON is the value
-- that it holds.
pub mod Laws
use pr_review.Prelude.{
  ℕ, String, Bool, true, false, Option, none, some, List, [], ◌∷◌, ◌==◌, ◌&&◌, eqb, leb,
  if◌then◌else◌, first_where, all_where, drop_where, update_where, upsert_where, upsert_child,
  some_where, sort_by, text_le,
}
use pr_review.Core.Models.{PullRequest}
use pr_review.Core.Records.{Repo}

abbrev pub Repos : Type 0
Repos = List Repo

abbrev pub is_repo : String → Repo → Bool
is_repo slug r = r.slug == slug

abbrev pub repo_updated : Repo → Repo → Repo
repo_updated new old = record old {
  default_branch = new.default_branch;
  toolchain_id = new.toolchain_id;
  package_roots = new.package_roots;
}

-- The columns that the statement does not name start empty.
abbrev pub repo_inserted : ℕ → Repo → Repo
repo_inserted now new = record new {
  added_at = if eqb new.added_at 0 then now else new.added_at;
  charter_sha = "";
  branch_head = "";
}

unfoldable pub repo : String → Repos → Option Repo
repo slug rows = first_where (is_repo slug) rows

abbrev or_given : Option Repo → Repo → Repo
or_given none r = r
or_given (some stored) r = stored

unfoldable pub put_repo : ℕ → Repo → Repos → Repo × Repos
unfolding repo
put_repo now r rows =
    let rows' = upsert_where (is_repo r.slug) (repo_updated r) (repo_inserted now r) rows in
    (or_given (repo r.slug rows') r, rows')

unfoldable pub repos : Repos → List Repo
repos rows = sort_by (λ (a b : Repo). text_le a.slug b.slug) rows

unfoldable pub set_atlas_sha : String → String → Repos → Repos
set_atlas_sha slug sha rows = update_where (is_repo slug) (λ r. record r { atlas_sha = sha }) rows

unfoldable pub set_branch_head : String → String → Repos → Repos
set_branch_head slug sha rows =
    update_where (is_repo slug) (λ r. record r { branch_head = sha }) rows

-- The end of `put_charter`.
unfoldable pub set_charter_sha : String → String → Repos → Repos
set_charter_sha slug sha rows =
    update_where (is_repo slug) (λ r. record r { charter_sha = sha }) rows

abbrev pub Pulls : Type 0
Pulls = List PullRequest

abbrev pub is_pull : String → ℕ → PullRequest → Bool
is_pull repo number p = p.repo == repo && eqb p.number number

abbrev pub pull_updated : PullRequest → PullRequest → PullRequest
pull_updated new old = record new { repo = old.repo; number = old.number }

-- The statement, where its foreign key holds. The time at which a pull request was seen is written and
-- read nowhere.
unfoldable pub write_pull : PullRequest → Pulls → Pulls
write_pull p rows = upsert_where (is_pull p.repo p.number) (pull_updated p) p rows

-- Under the foreign key on `repos`: the table, and whether the statement was accepted or raised.
unfoldable pub put_pull : Repos → PullRequest → Pulls → Bool × Pulls
put_pull known p rows =
    upsert_child (some_where (is_repo p.repo) known) (is_pull p.repo p.number) (pull_updated p) p
      rows

-- ON DELETE CASCADE: the pull requests of the repository go with it.
unfoldable pub delete_repo : String → Repos × Pulls → Repos × Pulls
delete_repo slug (rows, pulls) =
    (drop_where (is_repo slug) rows, drop_where (λ (p : PullRequest). p.repo == slug) pulls)

unfoldable pub pull : String → ℕ → Pulls → Option PullRequest
pull repo number rows = first_where (is_pull repo number) rows

abbrev in_state : Option String → String → PullRequest → Bool
in_state none repo p = p.repo == repo
in_state (some state) repo p =
    if state == "" then p.repo == repo else p.repo == repo && p.state == state

-- ORDER BY number DESC
unfoldable pub pulls : String → Option String → Pulls → List PullRequest
pulls repo state rows =
    sort_by (λ (a b : PullRequest). leb b.number a.number) (all_where (in_state state repo) rows)
