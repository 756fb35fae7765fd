-- ===== src/Scenarios/Answers.antt =====
-- A model that is asked, and a citation that it makes.
use pr_review.Prelude.{
  leading_number, begins, includes, occurs, join_with, words, limit_rows, get, strip_text,
  after_text, if◌then◌else◌, ◌==◌, ◌≡◌, refl, true, none, some, [], ◌∷◌, contains, before,
}
use pr_review.Core.Records.{Citation}
use pr_review.Adjudicate.Citations.{
  Evidence, diff_path, resolve, resolve_code, from_claim, place_of, path_and_lines, span, in_bounds,
  has_parent, at_place, at_lines, quoted, contains_text, excerpt,
}
use pr_review.Adjudicate.Citations.Held.{IsHeld, resolve-IsHeld}
use pr_review.Llm.Client.{Prompt, World, Client, Tag, failed, redacted, ask}
use pr_review.Llm.Client.Settled.{IsRedacted, IsSettled, ask-IsSettled}

abbrev evidence : Evidence
evidence = record {
  read = λ side path.
      if path == "src/a.py" then some ("import os" ∷ "def f():" ∷ "    return  1" ∷ []) else none;
  norm_ids = "declared-tests" ∷ [];
  test_ids = [];
  changed_paths = "src/a.py" ∷ [];
  charter_sources = [];
}

abbrev cited : Citation
cited = record { type_ = "code"; ref = " src/a.py:2-3"; quote = "f(): return 1" }

abbrev found_at : Citation
found_at = record { type_ = "code"; ref = "src/a.py:2-3"; quote = "f(): return 1" }

cited_run : resolve cited evidence ≡ some found_at
unfolding resolve resolve_code get from_claim place_of after_text strip_text path_and_lines span
    leading_number in_bounds begins has_parent includes at_place at_lines quoted contains_text
    occurs join_with words excerpt limit_rows
cited_run = refl

resolve-IsHeld_example :
    (found_at.type_ ≡ cited.type_)
    × (found_at.ref ≡ strip_text " src/a.py:2-3")
    × IsHeld evidence "code" (strip_text " src/a.py:2-3") "f(): return 1" "f(): return 1"
resolve-IsHeld_example = resolve-IsHeld cited found_at evidence cited_run

-- A reference to a file of the head, with the side written out, resolves to nothing: the side is cut off
-- with the colon that the path ends at.
head_cited : resolve (record { type_ = "diff"; ref = "head:src/a.py"; quote = "" }) evidence ≡ none
unfolding resolve contains strip_text diff_path after_text before
head_cited = refl

abbrev world : World
world = record {
  settings = record {
    budget = record { total_usd = 5000000; per_run_usd = 1000000; per_repo_daily_usd = 2000000 };
    prices = ("sonnet", record { input = 3000; output = 15000 }) ∷ [];
    ttl = "5m";
  };
  redact = λ s. s;
  key = λ p. p.prompt;
  respond = λ p. failed (some 401) "no such key";
}

abbrev client : Client
client = record {
  ledger = record { rows = []; held = []; next = 0 };
  has_provider = true;
  unavailable_reason = "";
  credentials = "profile";
  cache = [];
  sent = [];
}

abbrev tag : Tag
tag = record { stage = "adjudicate"; run_id = some "r1"; repo = some "o/r" }

abbrev asked : Prompt
asked = record {
  model = "sonnet";
  prompt = "Is this so?";
  system = ("You judge.", true) ∷ [];
  max_tokens = 100;
}

ask-IsSettled_example :
    IsRedacted world asked (redacted world asked)
    × IsSettled world 1000 tag
        (redacted world asked)
        client
        (ask world 1000 tag true asked client).1
ask-IsSettled_example = ask-IsSettled world 1000 tag true asked client tt
