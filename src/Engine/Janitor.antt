-- ===== src/Engine/Janitor.antt =====
-- prflagger/engine/janitor.py: what a sweep removes of the worktrees, the transcripts and the cached
-- results of jobs. The directories of the cache are lists, in the order of their names; what git and
-- the file system do with a directory that is to go is an argument. Images, of which Docker decides, the
-- event log and the cut of long texts are left out.
pub mod Kept
use pr_review.Prelude.{
  ℕ, ◌+◌, ◌-◌, ◌*◌, String, Bool, true, false, not, Option, none, some, List, [], ◌∷◌, ◌++◌, ◌==◌,
  ◌||◌, leb, if◌then◌else◌, contains,
}
use pr_review.Core.Models.{Run, is_terminal}
use pr_review.Storage.Runs.{Table, runs}

pub record Reclaimed : Type 0 where
  pub worktrees : ℕ
  pub transcripts : ℕ
  pub bytes_freed : ℕ
  pub failures : List (String × String)

-- A worktree, named by its commit, or the directory of a run's transcripts, named by the run.
pub record Directory : Type 0 where
  pub name : String
  pub size : ℕ

-- The worktrees of a repository.
pub record Slug : Type 0 where
  pub name : String
  pub trees : List Directory

pub record CachedJob : Type 0 where
  pub mtime : ℕ
  pub size : ℕ

pub record Disk : Type 0 where
  pub worktrees : List Slug
  pub runs : List Directory
  pub jobs : List CachedJob

unfoldable pub live_runs : ℕ → List Run → List String
live_runs cutoff [] = []
live_runs cutoff (r ∷ rs) =
    let rest = live_runs cutoff rs in
    if leb cutoff r.created_at || not (is_terminal r.state) then r.id ∷ rest else rest

-- `if sha`
unfoldable pub named : String → List String → List String
named sha shas = if sha == "" then shas else sha ∷ shas

unfoldable pub live_commits : ℕ → List Run → List String
unfolding named
live_commits cutoff [] = []
live_commits cutoff (r ∷ rs) =
    let rest = live_commits cutoff rs in
    if leb cutoff r.created_at then named r.base_sha (named r.head_sha rest) else rest

count_tree : Directory → Reclaimed → Reclaimed
count_tree t r = record r { worktrees = r.worktrees + 1; bytes_freed = r.bytes_freed + t.size }

-- After `git worktree remove` and rmtree: what git printed, if the worktree is there still.
unfoldable pub removed_tree : Option String → Directory → Reclaimed → Bool × Reclaimed
unfolding count_tree
removed_tree none t r = (false, count_tree t r)
removed_tree (some stderr) t r = (true, record r { failures = r.failures ++ (t.name, stderr) ∷ [] })

-- Whether the worktree is there afterwards.
unfoldable pub sweep_tree :
    List String → Bool → (String → Option String) → Directory → Reclaimed → Bool × Reclaimed
unfolding count_tree
sweep_tree live dry_run left t r =
    if contains t.name live
    then (true, r)
    else if dry_run
    then (true, count_tree t r)
    else removed_tree (left t.name) t r

unfoldable pub sweep_trees :
    List String
    → Bool
    → (String → Option String)
    → List Directory
    → Reclaimed
    → List Directory × Reclaimed
sweep_trees live dry_run left [] r = ([], r)
sweep_trees live dry_run left (t ∷ ts) r =
    let swept = sweep_tree live dry_run left t r in
    let rest = sweep_trees live dry_run left ts swept.1 in
    (if swept.0 then t ∷ rest.0 else rest.0, rest.1)

-- `_sweep_worktrees`
unfoldable pub sweep_worktrees :
    List String
    → Bool
    → (String → String → Option String)
    → List Slug
    → Reclaimed
    → List Slug × Reclaimed
sweep_worktrees live dry_run left [] r = ([], r)
sweep_worktrees live dry_run left (s ∷ ss) r =
    let swept = sweep_trees live dry_run (left s.name) s.trees r in
    let rest = sweep_worktrees live dry_run left ss swept.1 in
    (record s { trees = swept.0 } ∷ rest.0, rest.1)

-- `_sweep_transcripts`; the directories that rmtree cannot remove are given, and are counted too.
unfoldable pub sweep_transcripts :
    List String → Bool → (String → Bool) → List Directory → Reclaimed → List Directory × Reclaimed
sweep_transcripts live dry_run stuck [] r = ([], r)
sweep_transcripts live dry_run stuck (d ∷ ds) r =
    let rest = sweep_transcripts live dry_run stuck ds in
    if contains d.name live
    then (d ∷ (rest r).0, (rest r).1)
    else (let r' = record r {
      transcripts = r.transcripts + 1;
      bytes_freed = r.bytes_freed + d.size;
    } in
        (if dry_run || stuck d.name then d ∷ (rest r').0 else (rest r').0, (rest r').1))

-- `_sweep_job_cache`
unfoldable pub sweep_job_cache : ℕ → Bool → List CachedJob → Reclaimed → List CachedJob × Reclaimed
sweep_job_cache cutoff dry_run [] r = ([], r)
sweep_job_cache cutoff dry_run (e ∷ es) r =
    let rest = sweep_job_cache cutoff dry_run es in
    if leb cutoff e.mtime
    then (e ∷ (rest r).0, (rest r).1)
    else (let r' = record r { bytes_freed = r.bytes_freed + e.size } in
        (if dry_run then e ∷ (rest r').0 else (rest r').0, (rest r').1))

-- A run is recent from this time on. Times are natural, so a window that is longer than the clock
-- has run starts at 0.
abbrev pub cutoff_at : ℕ → ℕ → ℕ
cutoff_at now keep_days = now - keep_days * 86400

abbrev pub nothing : Reclaimed
nothing = record { worktrees = 0; transcripts = 0; bytes_freed = 0; failures = [] }

unfoldable pub sweep :
    ℕ
    → ℕ
    → Bool
    → (String → String → Option String)
    → (String → Bool)
    → Table
    → Disk
    → Disk × Reclaimed
sweep now keep_days dry_run left stuck table disk =
    let cutoff = cutoff_at now keep_days in
    let newest = runs none none 20000 table in
    let trees = sweep_worktrees (live_commits cutoff newest) dry_run left disk.worktrees nothing in
    let transcripts = sweep_transcripts (live_runs cutoff newest) dry_run stuck disk.runs trees.1 in
    let jobs = sweep_job_cache cutoff dry_run disk.jobs transcripts.1 in
    (record { worktrees = trees.0; runs = transcripts.0; jobs = jobs.0 }, jobs.1)
