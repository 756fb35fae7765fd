-- ===== src/Sandbox/Pool.antt =====
-- How prflagger/sandbox/pool.py runs a job: the arguments of its container, and what an exit code
-- says. A code is what the process returned, or the signal that killed it.
pub mod Passed
use Prim.Native.String.{◌++◌ as join}
use pr_review.Prelude.{
  ℕ, String, Bool, true, false, not, List, [], ◌∷◌, ◌++◌, ◌||◌, eqb, if◌then◌else◌,
}

pub data Outcome : Type 0 where
  passed failed install_failed timeout collection_error oom : Outcome

-- Of a job's fields, those that its invocation reads; numbers are given in decimal.
pub record JobSpec : Type 0 where
  pub run_id : String
  pub repo_path : String
  pub command : List String
  pub timeout_s : String
  pub memory_mb : String

unfoldable pub docker_argv : JobSpec → String → String → List String
docker_argv spec image container_name =
    "docker"
    ∷ "run"
    ∷ "--rm"
    ∷ "--name"
    ∷ container_name
    ∷ "--label"
    ∷ "prflagger=1"
    ∷ "--label"
    ∷ join "prflagger.run=" spec.run_id
    ∷ "--network=none"
    ∷ join "--memory=" (join spec.memory_mb "m")
    ∷ join "--memory-swap=" (join spec.memory_mb "m")
    ∷ "--pids-limit=256"
    ∷ "--cpus=1"
    ∷ "--read-only"
    ∷ "--tmpfs"
    ∷ "/tmp:rw,exec,size=256m"
    ∷ "--user"
    ∷ "1000:1000"
    ∷ "--security-opt"
    ∷ "no-new-privileges"
    ∷ "--cap-drop=ALL"
    ∷ "-v"
    ∷ join spec.repo_path ":/src:ro"
    ∷ image
    ∷ "timeout"
    ∷ spec.timeout_s
    ∷ spec.command

pub data Code : Type 0 where
  exited : ℕ → Code
  killed : (signal : ℕ) → Code

unfoldable pub same_code : Code → Code → Bool
same_code (exited m) (exited n) = eqb m n
same_code (killed m) (killed n) = eqb m n
same_code _ _ = false

unfoldable pub one_of : Code → List Code → Bool
unfolding same_code
one_of c [] = false
one_of c (x ∷ xs) = same_code x c || one_of c xs

abbrev pub is_empty : List Code → Bool
is_empty [] = true
is_empty (x ∷ xs) = false

-- `_classify`
unfoldable pub classify : Code → List Code → Outcome
classify c ok_codes =
    if same_code c (exited 124)
    then timeout
    else if same_code c (exited 137)
    then oom
    else if same_code c (exited 125)
    then install_failed
    else if same_code c (exited 0)
    then passed
    else if not (is_empty ok_codes)
    then (if one_of c ok_codes then passed else failed)
    else if same_code c (exited 2)
    then collection_error
    else failed
