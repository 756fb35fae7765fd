-- ===== src/Charter/Drift.antt =====
-- prflagger/charter/drift.py: compare.
pub mod Breaks
pub mod Same
use pr_review.Prelude.{
  ℕ, ◌+◌, ◌-◌, ◌*◌, String, Bool, true, false, not, Option, none, some, List, [], ◌∷◌, ◌++◌, ◌==◌,
  ◌&&◌, ◌||◌, eqb, leb, ltb, if◌then◌else◌, contains, distinct, all_where, sort_by, limit_rows,
  text_le, length, join, concat, after_text, begins, before, take_text, is_nil, decimal, Dict, get,
  put, is_some, filter_map,
}
use pr_review.Core.Records.{
  Charter, claims_of, CharterDrift, DriftSignal, Level, minor, notable, major, Millionths,
  one_whole,
}
use pr_review.Charter.Signals.{
  Limits, Python, count_text, sample, missing, texts_of, purpose_text, when, toolchain_signals,
  license_signals, version_signals,
}

-- {e.split(" = ")[0]: e for e in entries}
by_name : Dict String → List String → Dict String
by_name table [] = table
by_name table (e ∷ es) = by_name (put table (before " = " e) e) es

unfoldable pub entry_names : List String → List String
entry_names [] = []
entry_names (e ∷ es) = before " = " e ∷ entry_names es

entries_at : Dict String → List String → List String
entries_at table names = filter_map (get table) names

unfoldable pub entry_signals : Charter → Charter → List DriftSignal
unfolding by_name entries_at
entry_signals b a =
    let removed = missing (entry_names b.entry_points) (entry_names a.entry_points) in
    let added = missing (entry_names a.entry_points) (entry_names b.entry_points) in
    when (not (is_nil removed)) (record {
      kind = "entry_points";
      level = major;
      detail = join (count_text (length removed) "way" "ways") " of running the project removed";
      evidence = sample (entries_at (by_name [] b.entry_points) removed) 6;
    })
    ++ when (not (is_nil added)) (record {
      kind = "entry_points";
      level = notable;
      detail = join (count_text (length added) "new way" "new ways") " of running the project";
      evidence = sample (entries_at (by_name [] a.entry_points) added) 6;
    })

-- count / total >= fraction
at_least : ℕ → ℕ → Millionths → Bool
at_least count total fraction = leb (fraction * total) (count * one_whole)

unfoldable pub api_signals : Python → Limits → Charter → Charter → List DriftSignal
unfolding at_least
api_signals py limits b a =
    let total = length (distinct b.public_api) in
    let removed = missing b.public_api a.public_api in
    let added = missing a.public_api b.public_api in
    if is_nil b.public_api
    then []
    else when (not (is_nil removed)) (record {
      kind = "public_api_removed";
      level =
          if at_least (length removed) total limits.api_removed_major_fraction
            || leb limits.api_removed_major_count (length removed)
          then major
          else notable;
      detail = concat (
          count_text (length removed) "public symbol" "public symbols"
          ∷ " removed ("
          ∷ py.percent (length removed) total
          ∷ " of the "
          ∷ decimal total
          ∷ " it exposed)"
          ∷ []);
      evidence = sample removed 6;
    })
      ++ when (not (is_nil added)) (record {
        kind = "public_api_added";
        level =
            if at_least (length added) total limits.api_added_notable_fraction
            then notable
            else minor;
        detail = concat (
            count_text (length added) "public symbol" "public symbols"
            ∷ " added ("
            ∷ py.percent (length added) total
            ∷ " growth)"
            ∷ []);
        evidence = sample added 6;
      })

abbrev purpose_level : Limits → Millionths → Level
purpose_level limits ratio =
    if ltb ratio limits.purpose_major_similarity
    then major
    else if ltb ratio limits.purpose_notable_similarity
    then notable
    else minor

unfoldable pub purpose_signals : Python → Limits → Charter → Charter → List DriftSignal
purpose_signals py limits b a =
    let old = purpose_text py b in
    let new = purpose_text py a in
    let ratio = py.ratio old new in
    if not (old == "") && (not (new == "") && not (old == new))
    then record {
      kind = "purpose";
      level = purpose_level limits ratio;
      detail = concat (
          "how the repository describes its purpose changed ("
          ∷ py.percent_of ratio
          ∷ " similar to before)"
          ∷ []);
      evidence = concat (
          "before: "
          ∷ py.repr (take_text 140 b.summary)
          ∷ " · after: "
          ∷ py.repr (take_text 140 a.summary)
          ∷ []);
    }
      ∷ []
    else when (not (old == "") && new == "") (record {
      kind = "purpose";
      level = notable;
      detail = "the repository no longer states its purpose";
      evidence = join "before: " (py.repr (take_text 140 b.summary));
    })

-- A signal where there are items, with what is said of them.
abbrev some_items : List String → ℕ → String → Level → String → List DriftSignal
some_items items limit kind level detail =
    when (not (is_nil items))
      (record { kind = kind; level = level; detail = detail; evidence = sample items limit })

unfoldable pub module_names : List (String × String × String) → List String
module_names [] = []
module_names ((name, says, source) ∷ ms) = name ∷ module_names ms

unfoldable pub module_signals : Charter → Charter → List DriftSignal
unfolding module_names
module_signals b a =
    let gone = missing (module_names b.modules) (module_names a.modules) in
    let new = missing (module_names a.modules) (module_names b.modules) in
    some_items gone 6 "modules_removed" (if leb 3 (length gone) then major else notable)
      (join (count_text (length gone) "documented module" "documented modules") " removed")
    ++ some_items new 6 "modules_added" (if leb 3 (length new) then notable else minor)
        (join (count_text (length new) "documented module" "documented modules") " added")

unfoldable pub dependency_signals : Charter → Charter → List DriftSignal
dependency_signals b a =
    let dropped = missing b.dependencies a.dependencies in
    let gained = missing a.dependencies b.dependencies in
    some_items dropped 6 "dependencies_removed" notable
      (join (count_text (length dropped) "runtime dependency" "runtime dependencies") " removed")
    ++ some_items gained 6 "dependencies_added" (if leb 3 (length gained) then notable else minor)
        (join (count_text (length gained) "runtime dependency" "runtime dependencies") " added")

-- sorted(set(xs) ^ set(ys))
unfoldable pub either : List String → List String → List String
either xs ys = sort_by text_le (missing xs ys ++ missing ys xs)

unfoldable pub standard_signals : Charter → Charter → List DriftSignal
unfolding either
standard_signals b a =
    some_items (either b.standards a.standards) 6 "standards" minor "declared tooling changed"

-- NON_GOAL in prflagger/charter/extract.py
abbrev non_goal : String
non_goal = "Not a goal: "

unfoldable pub goals_of : Charter → List String
goals_of c = filter_map (after_text non_goal) (texts_of (claims_of "constraint" c))

unfoldable pub rules_of : Charter → List String
rules_of c = all_where (λ t. not (begins non_goal t)) (texts_of (claims_of "constraint" c))

unfoldable pub constraint_signals : Charter → Charter → List DriftSignal
constraint_signals b a =
    let goals_lost = missing (goals_of b) (goals_of a) in
    let goals_found = missing (goals_of a) (goals_of b) in
    let rules_lost = missing (rules_of b) (rules_of a) in
    let rules_found = missing (rules_of a) (rules_of b) in
    some_items goals_lost 3 "non_goals" notable (
      join (count_text (length goals_lost) "stated non-goal" "stated non-goals")
        " dropped — it may now do what it said it would not")
    ++ some_items goals_found 3 "non_goals" minor
        (join (count_text (length goals_found) "new non-goal" "new non-goals") " stated")
    ++ some_items rules_lost 3 "constraints" notable
        (join (count_text (length rules_lost) "of its own rules" "of its own rules") " dropped")
    ++ some_items rules_found 3 "constraints" minor
        (join (count_text (length rules_found) "new rule" "new rules") " stated")

unfoldable pub signals_between : Python → Limits → Charter → Charter → List DriftSignal
signals_between py limits b a =
    toolchain_signals b a
    ++ (license_signals b a
        ++ (version_signals b a
            ++ (entry_signals b a
                ++ (api_signals py limits b a
                    ++ (purpose_signals py limits b a
                        ++ (module_signals b a
                            ++ (dependency_signals b a
                                ++ (standard_signals b a ++ constraint_signals b a))))))))

-- `none` is the ValueError for the charters of two repositories.
unfoldable pub compare : Python → Limits → Charter → Charter → Option CharterDrift
compare py limits b a =
    if not (b.repo == a.repo)
    then none
    else some (record {
      repo = a.repo;
      from_sha = b.sha;
      to_sha = a.sha;
      signals = signals_between py limits b a;
    })
