-- ===== src/Scenarios/Memory.antt =====
-- A repository that moves, and the findings that are judged by its charter.
use pr_review.Prelude.{
  String, ◌≡◌, ◌≢◌, refl, true, false, none, some, List, [], ◌∷◌, arith, eq_iff, contains,
  first_where, before, begins,
}
use pr_review.Core.Records.{
  Charter, CharterDrift, DriftSignal, minor, major, drift_level, Observation, Repo,
}
use pr_review.Storage.Repos.{repo}
use pr_review.Charter.Signals.{Limits, Python}
use pr_review.Charter.Drift.{compare, entry_names}
use pr_review.Charter.Drift.Breaks.{lost_entry, compare-Break}
use pr_review.Charter.Headline.{headline}
use pr_review.Charter.Headline.Told.{IsTold, headline-IsTold}
use pr_review.Charter.Relevance.{grounded}
use pr_review.Charter.Relevance.Labels.{IsGrounded, grounded-IsGrounded}
use pr_review.Charter.Keeper.{check}
use pr_review.Charter.Rebuild.{Config, Checkout, Tables, fresh_charter}
use pr_review.Charter.Keeper.Own.{IsUntouched, check-IsUntouched}
use pr_review.Charter.Keeper.Retry.{check_stuck}
use pr_review.Scenarios.Tables.{first_charter}

abbrev python : Python
python = record {
  lower = λ s. s;
  ratio = λ s t. 500000;
  percent_of = λ n. "50%";
  percent = λ n m. "50%";
  repr = λ s. s;
}

abbrev limits : Limits
limits = record {
  api_removed_major_fraction = 200000;
  api_removed_major_count = 10;
  api_added_notable_fraction = 300000;
  purpose_major_similarity = 600000;
  purpose_notable_similarity = 900000;
}

-- The command is gone.
abbrev next_charter : Charter
next_charter = record first_charter { sha = "h2"; entry_points = "s = r.cli:main" ∷ [] }

compare-Break_example :
    (d : CharterDrift) × (compare python limits first_charter next_charter ≡ some d)
    × (drift_level d ≡ major)
compare-Break_example =
    compare-Break python limits first_charter next_charter
      (lost_entry "r" (unfold entry_names contains before begins in refl)
        (unfold entry_names contains before begins in refl))
      refl

abbrev quiet : DriftSignal
quiet = record {
  kind = "standards";
  level = minor;
  detail = "declared tooling changed";
  evidence = "mypy";
}

abbrev loud : DriftSignal
loud = record {
  kind = "license";
  level = major;
  detail = "the license changed";
  evidence = "MIT → GPL";
}

abbrev update : CharterDrift
update = record { repo = "o/r"; from_sha = "h1"; to_sha = "h2"; signals = quiet ∷ loud ∷ [] }

headline-IsTold_example :
    (s : DriftSignal) × (headline update ≡ some s)
    × IsTold (drift_level update) (quiet ∷ loud ∷ []) s
headline-IsTold_example = headline-IsTold update quiet (loud ∷ []) refl

abbrev failing : Observation
failing = record {
  id = "a1";
  run_id = "r1";
  kind = "behavior_change";
  symbol = "r.read";
  what_changed = "test_read fails";
  how_we_know = "it passed at base";
  evidence_ref = "tests/test_read.py::test_read";
  severity = 900000;
  confidence = 1000000;
  rank_score = 0;
  relevance = "";
  relevance_note = "";
  norm_id = "";
}

grounded-IsGrounded_example :
    (out : List Observation) × (grounded (failing ∷ []) (some first_charter) "o/r" ≡ some out)
    × IsGrounded (failing ∷ []) out
grounded-IsGrounded_example = grounded-IsGrounded (failing ∷ []) first_charter "o/r" refl

abbrev cfg : Config
cfg = record {
  python = python;
  limits = limits;
  refresh_on_branch_move = true;
  notifier = record { digest = λ s. s; has_webhook = false; webhook_min_level = major };
}

abbrev checkout : Checkout
checkout = record {
  symbols = [];
  edges = [];
  atlas = "{}";
  extract = λ names. next_charter;
  norms = [];
  modules = 0;
}

abbrev watched : Repo
watched = record {
  slug = "o/r";
  default_branch = "main";
  toolchain_id = "";
  package_roots = [];
  added_at = 1;
  atlas_sha = "";
  charter_sha = "h1";
  branch_head = "h1";
}

abbrev tables : Tables
tables = record {
  symbols = [];
  edges = [];
  atlases = [];
  memory = record {
    charters =
        record first_charter { number = 1 }
        ∷ record first_charter { repo = "p/q"; number = 1 }
        ∷ [];
    repos = watched ∷ [];
  };
  changes = record { rows = []; last = 0 };
  norms = [];
  notices = [];
  events = [];
}

named_commit : ◌≢◌ {A = String} "h2" ""
named_commit e = ground (arith, eq_iff "h2" "")

abbrev after_check : Tables
after_check = (check cfg 9 "" "o/r" (some "h2") (some checkout) tables).1

check-IsUntouched_example :
    IsUntouched "p/q"
      (tables.memory.charters, tables.norms)
      (after_check.memory.charters, after_check.norms)
check-IsUntouched_example =
    check-IsUntouched cfg 9 "" "o/r" "p/q" checkout tables (unfold fresh_charter in named_commit)
      (unfold fresh_charter in refl) (λ e. ground (arith, eq_iff "p/q" "o/r")) (some "h2")

check_stuck_example :
    (check cfg 20 "" "o/r" (some "h2") (some checkout) after_check ≡ (none, after_check))
    × ((check cfg 9 "" "o/r" (some "h2") none tables).1.memory.charters ≡ tables.memory.charters)
check_stuck_example =
    check_stuck "o/r" "h2" cfg 9 20 "" "" (some checkout) (some checkout) tables watched
      (unfold repo first_where in refl) (λ e. ground (arith, eq_iff "h2" "h1"))
