-- ===== src/Storage/Charters.antt =====
-- The charters of prflagger/storage/repos.py: a repository's memory of itself. A payload is the charter
-- that it holds.
pub mod Laws
use pr_review.Prelude.{
  ℕ, ◌+◌, max, String, Bool, true, false, Option, none, some, List, [], ◌∷◌, ◌++◌, ◌==◌, ◌&&◌, eqb,
  leb, if◌then◌else◌, first_where, all_where, sort_by, limit_rows,
}
use pr_review.Core.Records.{Charter, CharterDrift, DriftSignal, Level, drift_level}
use pr_review.Storage.Repos.{Repos, set_charter_sha}

abbrev pub Charters : Type 0
Charters = List Charter

abbrev pub is_at : String → String → Charter → Bool
is_at repo sha c = c.repo == repo && c.sha == sha

-- SELECT MAX(number) FROM charters WHERE repo = ?
unfoldable pub max_number : String → Charters → ℕ
max_number repo [] = 0
max_number repo (c ∷ cs) =
    let rest = max_number repo cs in if c.repo == repo then max c.number rest else rest

head_of : List Charter → Option Charter
head_of [] = none
head_of (c ∷ cs) = some c

-- ORDER BY number DESC LIMIT 1
unfoldable pub newest : String → Charters → Option Charter
unfolding head_of
newest repo rows = head_of (
    sort_by (λ (a b : Charter). leb b.number a.number)
      (all_where (λ (c : Charter). c.repo == repo) rows))

unfoldable pub charter : String → Option String → Charters → Option Charter
charter repo none rows = newest repo rows
charter repo (some sha) rows =
    if sha == "" then newest repo rows else first_where (is_at repo sha) rows

pub record Memory : Type 0 where
  pub charters : Charters
  pub repos : Repos

abbrev pub numbered : ℕ → Charters → Charter → Charter
numbered now rows c = record c {
  number = max_number c.repo rows + 1;
  built_at = if eqb c.built_at 0 then now else c.built_at;
}

unfoldable pub store_new : ℕ → Charter → Memory → Option Charter → Charter × Memory
store_new now c m (some existing) = (existing, m)
store_new now c m none =
    let stored = numbered now m.charters c in
    (
      stored,
      record {
        charters = m.charters ++ stored ∷ [];
        repos = set_charter_sha stored.repo stored.sha m.repos;
      },
    )

unfoldable pub put_charter : ℕ → Charter → Memory → Charter × Memory
unfolding store_new
put_charter now c m = store_new now c m (charter c.repo (some c.sha) m.charters)

abbrev summary_of : Charter → ℕ × String × ℕ
summary_of c = (c.number, c.sha, c.built_at)

summaries : List Charter → List (ℕ × String × ℕ)
summaries [] = []
summaries (c ∷ cs) = summary_of c ∷ summaries cs

unfoldable pub charter_history : String → ℕ → Charters → List (ℕ × String × ℕ)
unfolding summaries
charter_history repo limit rows = summaries (
    limit_rows limit (
      sort_by (λ (a b : Charter). leb b.number a.number)
        (all_where (λ (c : Charter). c.repo == repo) rows)))

pub record CharterChange : Type 0 where
  pub id : ℕ
  pub repo : String
  pub from_sha : String
  pub to_sha : String
  pub level : Level
  pub signals : List DriftSignal
  pub created_at : ℕ

-- The table, and the last id that it gave out.
pub record Changes : Type 0 where
  pub rows : List CharterChange
  pub last : ℕ

unfoldable pub put_charter_change : ℕ → CharterDrift → Changes → ℕ × Changes
put_charter_change now d t =
    let row : CharterChange = record {
      id = t.last + 1;
      repo = d.repo;
      from_sha = d.from_sha;
      to_sha = d.to_sha;
      level = drift_level d;
      signals = d.signals;
      created_at = now;
    } in
    (t.last + 1, record { rows = t.rows ++ row ∷ []; last = t.last + 1 })

unfoldable pub charter_changes : String → ℕ → Changes → List CharterChange
charter_changes repo limit t = limit_rows limit (
    sort_by (λ (a b : CharterChange). leb b.id a.id)
      (all_where (λ (c : CharterChange). c.repo == repo) t.rows))
