-- ===== src/Sandbox/Pool/Passed.antt =====
-- What a job may count as passed.
use pr_review.Prelude.{◌≡◌, ◌≢◌, true, List, [], ◌∷◌, ◌⊎◌, arith}
use pr_review.Sandbox.Pool.{passed, Code, exited, killed, same_code, one_of, classify}

-- A job is taken to have passed only if it exited with 0 or with a code that its caller named, and
-- neither ran out of time or memory nor failed to start.
pub classify-passed :
    (c : Code) (ok_codes : List Code)
    → classify c ok_codes ≡ passed
    → ((c ≡ exited 0) ⊎ (one_of c ok_codes ≡ true))
      × (c ≢ exited 124)
      × (c ≢ exited 137)
      × (c ≢ exited 125)
unfolding classify same_code one_of
classify-passed (exited n) [] h = ground arith
classify-passed (exited n) (x ∷ xs) h = ground arith
classify-passed (killed n) [] h = ground arith
classify-passed (killed n) (x ∷ xs) h = ground arith
