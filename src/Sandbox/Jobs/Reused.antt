-- ===== src/Sandbox/Jobs/Reused.antt =====
-- prflagger/sandbox/pool.py: what a job is told that comes after another with its key.
use pr_review.Prelude.{
  String, ◌≡◌, refl, ap, ◌∙◌, false, none, some, ltb, contains, get, get-put, arith, eq_iff,
}
use pr_review.Sandbox.Jobs.{
  Host, Job, Container, Pool, job_result, execute, finish, run_new, run_found, run,
}

module _ (host : Host) (text : String) (j : Job) (c : Container) (pool : Pool)
    (wanted : contains j.run_id pool.cancelled ≡ false)
    (room : ltb host.free host.min_free ≡ false) where
  run_executed : get pool.cache j.idempotency_key ≡ none → run host text j c pool ≡ execute j c pool
  unfolding run
  run_executed absent =
      ap (λ found. run_found host text j c found pool) absent
      ∙ (unfold run_found in unfold run_new in ground arith)

  cached_after :
      (k : Job)
      → k.idempotency_key ≡ j.idempotency_key
      → get (execute j c pool).1.cache k.idempotency_key ≡ some (job_result j c)
  unfolding execute finish
  cached_after k same =
      get-put pool.cache j.idempotency_key (job_result j c) k.idempotency_key
      ∙ ground (arith, eq_iff j.idempotency_key k.idempotency_key)

  found_after :
      (host' : Host) (text' : String) (k : Job) (c' : Container)
      → k.idempotency_key ≡ j.idempotency_key
      → (run host' text' k c' (execute j c pool).1).0 ≡ job_result j c
  unfolding run run_found
  found_after host' text' k c' same =
      ap (λ found. (run_found host' text' k c' found (execute j c pool).1).0) (cached_after k same)

  -- A job that is not in the cache, whose run is not cancelled and for which the disk has room is executed,
  -- and what came of it, a failed build or a timeout included, is what the next job with its
  -- key is told: whatever run that is of, cancelled or not, whatever the disk has left, and whatever
  -- its own container would do.
  pub run_once :
      (host' : Host) (text' : String) (k : Job) (c' : Container)
      → get pool.cache j.idempotency_key ≡ none
      → k.idempotency_key ≡ j.idempotency_key
      → ((run host text j c pool).0 ≡ job_result j c)
        × ((run host' text' k c' (run host text j c pool).1).0 ≡ job_result j c)
  run_once host' text' k c' absent same = (
    ap (λ out. out.0) (run_executed absent) ∙ (unfold execute in refl),
    ap (λ out. (run host' text' k c' out.1).0) (run_executed absent)
        ∙ found_after host' text' k c' same,
  )
