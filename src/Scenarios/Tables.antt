-- ===== src/Scenarios/Tables.antt =====
-- Rows of the tables, written and read again.
use pr_review.Prelude.{
  ◌≡◌, refl, true, false, some_where, upsert_child, none, some, [], ◌∷◌, first_where, arith, eq_iff,
}
use pr_review.Core.Models.{PullRequest}
use pr_review.Core.Records.{Symbol, Observation, Charter, Notification, major}
use pr_review.Storage.Repos.{Repos, pull, put_pull}
use pr_review.Storage.Repos.Laws.{pull-put_pull}
use pr_review.Storage.Findings.{is_observation, put_observations}
use pr_review.Storage.Findings.Laws.{fact, put_observations-fact}
use pr_review.Storage.Graph.{symbol, put_symbols}
use pr_review.Storage.Graph.Laws.{symbol-put_symbols, last_named}
use pr_review.Storage.Charters.{Memory, put_charter}
use pr_review.Storage.Charters.Laws.{IsRemembered, put_charter-IsRemembered}
use pr_review.Storage.Notices.{put_notification, acknowledge}
use pr_review.Storage.Notices.Laws.{start, acknowledges, put_notification-once}

abbrev pub one_pull : PullRequest
one_pull = record {
  repo = "o/r";
  number = 7;
  title = "Add a flag";
  body = "";
  author = "ann";
  base_sha = "b1";
  head_sha = "h1";
  state = "open";
  updated_at = "2024-01-02";
  additions = 3;
  deletions = 1;
  changed_files = 1;
  draft = false;
}

abbrev registered : Repos
registered =
    record {
      slug = "o/r";
      default_branch = "main";
      toolchain_id = "python";
      package_roots = [];
      added_at = 1;
      atlas_sha = "";
      charter_sha = "";
      branch_head = "";
    }
    ∷ []

pull-put_pull_example :
    ((put_pull registered one_pull []).0 ≡ true)
    × (pull "o/r" 7 (put_pull registered one_pull []).1 ≡ some one_pull)
unfolding some_where
pull-put_pull_example = pull-put_pull one_pull registered [] "o/r" 7

-- A repository that has no row.
pull_refused : (put_pull [] one_pull []).0 ≡ false
unfolding put_pull upsert_child some_where
pull_refused = refl

abbrev pub seen_once : Observation
seen_once = record {
  id = "a1";
  run_id = "r1";
  kind = "lint";
  symbol = "pkg.f";
  what_changed = "f lost its type";
  how_we_know = "mypy";
  evidence_ref = "pkg.py:3";
  severity = 300000;
  confidence = 800000;
  rank_score = 0;
  relevance = "";
  relevance_note = "";
  norm_id = "";
}

abbrev seen_again : Observation
seen_again = record seen_once {
  what_changed = "another account of it";
  confidence = 400000;
  rank_score = 120000;
}

put_observations-fact_example :
    (new : Observation) × (first_where
        (is_observation "a1")
        (put_observations [] (seen_again ∷ []) (seen_once ∷ [])).1
      ≡ some new)
    × (fact new ≡ fact seen_once)
put_observations-fact_example =
    put_observations-fact [] (seen_again ∷ []) (seen_once ∷ []) "a1" seen_once stored
  where
    stored : first_where (is_observation "a1") (seen_once ∷ []) ≡ some seen_once
    stored = unfold first_where in refl

abbrev go_symbol : Symbol
go_symbol = record {
  fqn = "main.Run";
  kind = "function";
  file = "main.go";
  line_start = 3;
  line_end = 9;
  lang = "go";
}

symbol-put_symbols_example :
    symbol "o/r" "main.Run" (put_symbols "o/r" (go_symbol ∷ []) [])
    ≡ last_named "main.Run" none (go_symbol ∷ [])
unfolding symbol first_where
symbol-put_symbols_example = symbol-put_symbols "o/r" "main.Run" (go_symbol ∷ []) []

abbrev pub first_charter : Charter
first_charter = record {
  repo = "o/r";
  sha = "h1";
  name = "r";
  summary = "Reads feeds.";
  claims = [];
  version = "1.0";
  license = "MIT";
  toolchain = "python";
  entry_points = "r = r.cli:main" ∷ [];
  modules = [];
  public_api = "r.read" ∷ [];
  dependencies = [];
  standards = [];
  built_at = 0;
  number = 0;
}

abbrev blank_memory : Memory
blank_memory = record { charters = []; repos = [] }

put_charter-IsRemembered_example :
    IsRemembered first_charter blank_memory (put_charter 5 first_charter blank_memory)
put_charter-IsRemembered_example =
    put_charter-IsRemembered 5 first_charter blank_memory (λ e. ground (arith, eq_iff "h1" ""))

abbrev update_notice : Notification
update_notice = record {
  id = "n1";
  repo = "o/r";
  kind = "update";
  level = major;
  title = "o/r changed";
  body = "";
  sha = "h1";
  created_at = 0;
  acknowledged_at = none;
  evidence = [];
}

put_notification-once_example :
    put_notification 30 update_notice
      (acknowledge 20 "n1" (put_notification 10 update_notice []).1).1
    ≡ (false, (acknowledge 20 "n1" (put_notification 10 update_notice []).1).1)
put_notification-once_example =
    put_notification-once 10 30 update_notice update_notice []
      (acknowledge 20 "n1" (put_notification 10 update_notice []).1).1 (acknowledges 20 "n1" start)
      refl
