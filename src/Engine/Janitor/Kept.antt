-- ===== src/Engine/Janitor/Kept.antt =====
-- prflagger/engine/janitor.py: which worktrees and transcripts are there after a sweep.
use pr_review.Prelude.{
  ℕ, ◌+◌, String, ◌≡◌, refl, ap, ◌∙◌, Bool, true, false, not, Option, none, some, List, [], ◌∷◌,
  ◌==◌, ◌&&◌, ◌||◌, leb, contains, some_where, arith, eq_iff,
}
use pr_review.Core.Models.{Run, is_terminal}
use pr_review.Storage.Runs.{Table, runs}
use pr_review.Engine.Janitor.{
  Directory, Slug, Disk, Reclaimed, live_runs, live_commits, named, sweep_tree, removed_tree,
  sweep_trees, sweep_worktrees, sweep_transcripts, cutoff_at, nothing, sweep,
}

abbrev pub is_left : Option String → Bool
is_left none = false
is_left (some _) = true

abbrev pub has : String → List Directory → Bool
has name ds = some_where (λ (d : Directory). d.name == name) ds

-- The worktree of a commit under the name of a repository.
abbrev pub has_tree : String → String → List Slug → Bool
has_tree slug sha ss = some_where (λ (s : Slug). s.name == slug && has sha s.trees) ss

-- The run is recent, and the commit is one of its two.
abbrev pub is_at : ℕ → String → Run → Bool
is_at cutoff sha r = leb cutoff r.created_at && (r.base_sha == sha || r.head_sha == sha)

-- The run is this one, and it is recent or not over.
abbrev pub is_live : ℕ → String → Run → Bool
is_live cutoff id r = r.id == id && (leb cutoff r.created_at || not (is_terminal r.state))

contains-live_commits :
    (cutoff : ℕ) (sha : String) (rs : List Run)
    → (sha == "") ≡ false
    → contains sha (live_commits cutoff rs) ≡ some_where (is_at cutoff sha) rs
unfolding contains live_commits named some_where
contains-live_commits cutoff sha [] real = refl
contains-live_commits cutoff sha (r ∷ rs) real = ground (
  arith,
  eq_iff r.base_sha sha,
  eq_iff r.head_sha sha,
  eq_iff r.base_sha "",
  eq_iff r.head_sha "",
  eq_iff sha "",
  contains-live_commits cutoff sha rs real,
)

contains-live_runs :
    (cutoff : ℕ) (id : String) (rs : List Run)
    → contains id (live_runs cutoff rs) ≡ some_where (is_live cutoff id) rs
unfolding contains live_runs some_where
contains-live_runs cutoff id [] = refl
contains-live_runs cutoff id (r ∷ rs) = ground (arith, contains-live_runs cutoff id rs)

sweep_tree-kept :
    (live : List String) (dry_run : Bool) (left : String → Option String) (t : Directory)
    (r : Reclaimed)
    → (sweep_tree live dry_run left t r).0
      ≡ (contains t.name live || (dry_run || is_left (left t.name)))
unfolding sweep_tree removed_tree
sweep_tree-kept live dry_run left t r = ground arith

has-sweep_trees :
    (live : List String) (dry_run : Bool) (left : String → Option String) (sha : String)
    (ts : List Directory) (r : Reclaimed)
    → has sha (sweep_trees live dry_run left ts r).0
      ≡ (has sha ts && (contains sha live || (dry_run || is_left (left sha))))
unfolding sweep_trees some_where
has-sweep_trees live dry_run left sha [] r = refl
has-sweep_trees live dry_run left sha (t ∷ ts) r =
    let swept = sweep_tree live dry_run left t r in
    ground (
      arith,
      eq_iff t.name sha,
      sweep_tree-kept live dry_run left t r,
      has-sweep_trees live dry_run left sha ts swept.1,
    )

has-sweep_transcripts :
    (live : List String) (dry_run : Bool) (stuck : String → Bool) (id : String)
    (ds : List Directory) (r : Reclaimed)
    → has id (sweep_transcripts live dry_run stuck ds r).0
      ≡ (has id ds && (contains id live || (dry_run || stuck id)))
unfolding sweep_transcripts some_where
has-sweep_transcripts live dry_run stuck id [] r = refl
has-sweep_transcripts live dry_run stuck id (d ∷ ds) r = ground (
  arith,
  eq_iff d.name id,
  has-sweep_transcripts live dry_run stuck id ds r,
  has-sweep_transcripts live dry_run stuck id ds
      (record r { transcripts = r.transcripts + 1; bytes_freed = r.bytes_freed + d.size }),
)

has_tree-sweep_worktrees :
    (live : List String) (dry_run : Bool) (left : String → String → Option String)
    (slug sha : String) (ss : List Slug) (r : Reclaimed)
    → has_tree slug sha (sweep_worktrees live dry_run left ss r).0
      ≡ (has_tree slug sha ss && (contains sha live || (dry_run || is_left (left slug sha))))
unfolding sweep_worktrees some_where
has_tree-sweep_worktrees live dry_run left slug sha [] r = refl
has_tree-sweep_worktrees live dry_run left slug sha (s ∷ ss) r =
    let swept = sweep_trees live dry_run (left s.name) s.trees r in
    ground (
      arith,
      eq_iff s.name slug,
      has-sweep_trees live dry_run (left s.name) sha s.trees r,
      has_tree-sweep_worktrees live dry_run left slug sha ss swept.1,
    )

-- A sweep leaves the worktree of a commit exactly if it was there and a recent run, among the newest
-- 20,000, has the commit for its base or its head, whatever the state of the run, or the sweep is a
-- dry run, or git and the file system could not remove it; and it leaves the transcripts of a run
-- exactly if they were there and the run, among the newest 20,000, is recent or not over, or the sweep
-- is a dry run, or rmtree could not remove them.
pub sweep-IsKept :
    (now keep_days : ℕ) (dry_run : Bool) (left : String → String → Option String)
    (stuck : String → Bool) (table : Table) (disk : Disk) (slug sha id : String)
    → (sha == "") ≡ false
    → (has_tree slug sha (sweep now keep_days dry_run left stuck table disk).0.worktrees ≡ (
        has_tree slug sha disk.worktrees
        && (some_where (is_at (cutoff_at now keep_days) sha) (runs none none 20000 table)
            || (dry_run || is_left (left slug sha)))))
      × (has id (sweep now keep_days dry_run left stuck table disk).0.runs ≡ (
          has id disk.runs
          && (some_where (is_live (cutoff_at now keep_days) id) (runs none none 20000 table)
              || (dry_run || stuck id))))
unfolding sweep
sweep-IsKept now keep_days dry_run left stuck table disk slug sha id real =
    let cutoff = cutoff_at now keep_days in
    let newest = runs none none 20000 table in
    let trees = sweep_worktrees (live_commits cutoff newest) dry_run left disk.worktrees nothing in
    (
      has_tree-sweep_worktrees (live_commits cutoff newest) dry_run left slug sha disk.worktrees
            nothing
          ∙ ap
              (λ live.
                has_tree slug sha disk.worktrees && (live || (dry_run || is_left (left slug sha))))
              (contains-live_commits cutoff sha newest real),
      has-sweep_transcripts (live_runs cutoff newest) dry_run stuck id disk.runs trees.1
          ∙ ap (λ live. has id disk.runs && (live || (dry_run || stuck id)))
              (contains-live_runs cutoff id newest),
    )
