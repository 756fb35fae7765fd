-- ===== src/Sandbox/Jobs.antt =====
-- prflagger/sandbox/pool.py: SandboxPool.run and _execute around the container, and the cache of results.
-- What the host and the container do is an argument: the share of the disk that is free, the image or
-- the error of its build, and what the process left. Lines of output, samples, the starts of stages
-- and log messages are left out, times are whole numbers, and the files of the cache, which carry a
-- version, are a table of results by idempotency key.
pub mod Reused
use pr_review.Prelude.{
  ℕ, String, Bool, true, false, Option, none, some, List, [], ◌∷◌, ◌++◌, ltb, if◌then◌else◌,
  contains, Dict, get, put, length,
}
use pr_review.Sandbox.Pool.{Outcome, failed, install_failed, Code, classify}

pub record TestResult : Type 0 where
  pub outcome : Outcome
  pub per_test : Dict String
  pub duration_s : ℕ
  pub peak_rss_mb : Option ℕ
  pub stdout : String
  pub stderr : String

-- A job: the run that wants it, its idempotency key, and the exits that its caller takes for a pass.
pub record Job : Type 0 where
  pub run_id : String
  pub job_id : String
  pub stage : String
  pub idempotency_key : String
  pub ok_codes : List Code

-- What the process left.
pub record Ended : Type 0 where
  pub code : Code
  pub per_test : Dict String
  pub duration_s : ℕ
  pub peak_rss_mb : Option ℕ
  pub stdout : String
  pub stderr : String

pub data Container : Type 0 where
  not_built : (stdout stderr : String) → Container
  ran : Ended → Container

-- job.finished
pub record Finished : Type 0 where
  pub run_id : String
  pub job_id : String
  pub stage : String
  pub outcome : Outcome
  pub tests : ℕ
  pub cached : Bool

pub record Pool : Type 0 where
  pub cache : Dict TestResult
  pub cancelled : List String
  pub events : List Finished

-- `_result`
unfoldable pub result_of : Outcome → String → String → TestResult
result_of outcome stdout stderr = record {
  outcome = outcome;
  per_test = [];
  duration_s = 0;
  peak_rss_mb = none;
  stdout = stdout;
  stderr = stderr;
}

unfoldable pub finish : Job → TestResult → Bool → Pool → Pool
finish j r cached pool = record pool {
  events =
      pool.events
      ++ record {
        run_id = j.run_id;
        job_id = j.job_id;
        stage = j.stage;
        outcome = r.outcome;
        tests = length r.per_test;
        cached = cached;
      }
        ∷ [];
}

-- MIN_FREE_RATIO of prflagger/engine/janitor.py is given by the caller, as a share of a million.
pub record Host : Type 0 where
  pub free : ℕ
  pub min_free : ℕ

unfoldable pub ended_result : Job → Ended → TestResult
ended_result j e = record {
  outcome = classify e.code j.ok_codes;
  per_test = e.per_test;
  duration_s = e.duration_s;
  peak_rss_mb = e.peak_rss_mb;
  stdout = e.stdout;
  stderr = e.stderr;
}

unfoldable pub job_result : Job → Container → TestResult
job_result j (not_built stdout stderr) = result_of install_failed stdout stderr
job_result j (ran e) = ended_result j e

-- `_execute`: whatever came of it is written to the cache.
unfoldable pub execute : Job → Container → Pool → TestResult × Pool
unfolding finish
execute j c pool =
    let r = job_result j c in
    (r, finish j r false (record pool { cache = put pool.cache j.idempotency_key r }))

cancelled_text : String
cancelled_text = "run cancelled before this job started"

unfoldable pub run_new : Host → String → Job → Container → Pool → TestResult × Pool
unfolding finish cancelled_text
run_new host disk_text j c pool =
    if contains j.run_id pool.cancelled
    then (result_of failed "" cancelled_text, pool)
    else if ltb host.free host.min_free
    then (
      result_of install_failed "" disk_text,
      finish j (result_of install_failed "" disk_text) false pool,
    )
    else execute j c pool

unfoldable pub run_found :
    Host → String → Job → Container → Option TestResult → Pool → TestResult × Pool
unfolding finish
run_found host disk_text j c none pool = run_new host disk_text j c pool
run_found host disk_text j c (some r) pool = (r, finish j r true pool)

-- `run`; the text is what a full disk is reported with.
unfoldable pub run : Host → String → Job → Container → Pool → TestResult × Pool
unfolding run_found
run host disk_text j c pool = run_found host disk_text j c (get pool.cache j.idempotency_key) pool

-- `cancel`
unfoldable pub cancel : String → Pool → Pool
cancel run_id pool = record pool { cancelled = run_id ∷ pool.cancelled }
