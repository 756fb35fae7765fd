-- ===== src/Scenarios/Jobs.antt =====
-- A job that runs out of time, and a later one with its key.
use pr_review.Prelude.{◌≡◌, refl, [], none, contains, get}
use pr_review.Sandbox.Pool.{exited}
use pr_review.Sandbox.Jobs.{Host, Job, Container, not_built, ran, Pool, job_result, run}
use pr_review.Sandbox.Jobs.Reused.{run_once}

abbrev host : Host
host = record { free = 900000; min_free = 100000 }

abbrev slow_job : Job
slow_job = record {
  run_id = "r1";
  job_id = "j1";
  stage = "head";
  idempotency_key = "k";
  ok_codes = [];
}

abbrev same_job : Job
same_job = record slow_job { run_id = "r2"; job_id = "j2" }

abbrev slow : Container
slow = ran record {
  code = exited 124;
  per_test = [];
  duration_s = 120;
  peak_rss_mb = none;
  stdout = "";
  stderr = "";
}

abbrev idle : Pool
idle = record { cache = []; cancelled = []; events = [] }

run_once_example :
    ((run host "" slow_job slow idle).0 ≡ job_result slow_job slow)
    × ((run host "" same_job (not_built "" "") (run host "" slow_job slow idle).1).0
        ≡ job_result slow_job slow)
unfolding contains get
run_once_example =
    run_once host "" slow_job slow idle refl refl host "" same_job (not_built "" "") refl refl
