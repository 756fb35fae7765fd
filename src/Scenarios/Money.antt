-- ===== src/Scenarios/Money.antt =====
-- A model call that is reserved, answered and booked.
use pr_review.Prelude.{◌≤◌, ◌≡◌, refl, some, [], ◌∷◌, eq_iff, get, arith}
use pr_review.Llm.Ledger.{
  Completion, Request, Settings, Ledger, Reservation, cost, tokens_of, worst_case, round_usd,
  worst_of, cache_write, reserve, committed, cap_of,
}
use pr_review.Llm.Ledger.Pricing.{cost-le-worst_case}
use pr_review.Llm.Ledger.Caps.{IsCapped, start, more, reserves, ticks, Reach-IsCapped}

abbrev cfg : Settings
cfg = record {
  budget = record { total_usd = 5000000; per_run_usd = 1000000; per_repo_daily_usd = 2000000 };
  prices = ("sonnet", record { input = 3000; output = 15000 }) ∷ [];
  ttl = "5m";
}

abbrev question : Request
question = record {
  model = "sonnet";
  prompt_chars = 3000;
  system_chars = 600 ∷ [];
  max_tokens = 1000;
}

abbrev answered : Completion
answered = record {
  model = "sonnet";
  input_tokens = 900;
  output_tokens = 400;
  cache_read_tokens = 100;
  cache_write_tokens = 50;
}

question_tokens : tokens_of question ≡ 1264
unfolding tokens_of
question_tokens = refl

question_worst : worst_case cfg question ≡ some 19740
unfolding worst_case get round_usd worst_of tokens_of cache_write
question_worst = refl

cost-le-worst_case_example : cost cfg answered (some "sonnet") ≤ 19740
cost-le-worst_case_example =
    cost-le-worst_case cfg question answered 19740 (λ e. ground (arith, eq_iff "sonnet" ""))
      question_worst (omega (arith, question_tokens)) (omega arith)

abbrev unused : Ledger
unused = record { rows = []; held = []; next = 0 }

unused-IsCapped : IsCapped cfg.budget 1000 unused
unfolding committed cap_of
unused-IsCapped = record { within = λ scope cur. omega arith }

abbrev booked : Reservation
booked = record { id = 1; usd = 19740; run_id = some "r1"; repo = some "o/r" }

abbrev in_flight : Ledger
in_flight = (reserve cfg 1000 question (some "r1") (some "o/r") unused).1

Reach-IsCapped_example : IsCapped cfg.budget 1500 in_flight
Reach-IsCapped_example =
    Reach-IsCapped cfg 1000 unused unused-IsCapped
      (more (more start (reserves question (some "r1") (some "o/r"))) (ticks 1500 (omega arith)))
