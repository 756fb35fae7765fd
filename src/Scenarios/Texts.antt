-- ===== src/Scenarios/Texts.antt =====
-- A diff, a job's output and two identifiers.
use pr_review.Prelude.{◌+◌, ◌≤◌, ◌≡◌, refl, true, List, [], ◌∷◌, All, arith}
use pr_review.Analysis.Diff.{Text, Span, codes, merge, changed_ranges}
use pr_review.Analysis.Diff.Merged.{covers, covers-merge}
use pr_review.Analysis.Diff.Spans.{IsMerged, changed_ranges-IsMerged}
use pr_review.Sandbox.Stream.{
  Read, State, stdout, stderr, line, too_long, allow, display, drain, fresh,
}
use pr_review.Sandbox.Stream.Bounds.{lines_shown, chars_shown, transcript_bounded}
use pr_review.Sandbox.Stream.Notices.{line_count, limit_notices, notice_repeats}
use pr_review.Sandbox.Stream.Captured.{Captures, capture_of, lines_of, drain-Captures-fresh}
use pr_review.Sandbox.Pool.{passed, exited, classify, same_code, one_of}
use pr_review.Core.Ids.{run_id}
use pr_review.Core.Ids.Order.{text_lt, run_id_mono}

abbrev spans : List Span
spans = (10, 12) ∷ (3, 4) ∷ (13, 13) ∷ []

merged : merge spans ≡ (3, 4) ∷ (10, 13) ∷ []
unfolding merge
merged = refl

covers-merge_example : covers 13 (merge spans) ≡ covers 13 spans
covers-merge_example = covers-merge 13 spans

abbrev diff : List Text
diff = codes "+++ b/src/a.py" ∷ codes "@@ -1,2 +4,3 @@ def f():" ∷ codes "@@ -9 +12 @@" ∷ []

diff_ranges : changed_ranges diff ≡ (codes "src/a.py", (4, 6) ∷ (12, 12) ∷ []) ∷ []
unfolding changed_ranges
diff_ranges = refl

changed_ranges-IsMerged_example : All IsMerged (changed_ranges diff)
changed_ranges-IsMerged_example = changed_ranges-IsMerged diff

abbrev printed : List Read
printed =
    line stdout (codes "one")
    ∷ line stderr (codes "two")
    ∷ line stdout (codes "three")
    ∷ too_long stderr
    ∷ line stdout (codes "four")
    ∷ []

transcript_bounded_example :
    (lines_shown (drain printed (fresh 2 100 8)).shown ≤ 2)
    × (chars_shown (drain printed (fresh 2 100 8)).shown ≤ 100)
transcript_bounded_example = transcript_bounded 2 100 8 printed

drain-Captures-fresh_example :
    Captures 8 (capture_of stdout (drain printed (fresh 2 100 8))) (lines_of stdout printed)
drain-Captures-fresh_example = drain-Captures-fresh 2 100 8 stdout printed

-- The third line of a job that may show two.
abbrev over_lines : State
over_lines = drain printed (fresh 2 100 8)

over_lines_tripped : over_lines.budget.tripped ≡ true
unfolding drain allow fresh display
over_lines_tripped = refl

over_lines_count : over_lines.budget.lines ≡ over_lines.budget.max_lines + 1
over_lines_count = omega (arith, three, two)
  where
    three : over_lines.budget.lines ≡ 3
    three = unfold drain allow fresh display in refl

    two : over_lines.budget.max_lines ≡ 2
    two = unfold drain allow fresh display in refl

notice_repeats_example :
    limit_notices (drain printed over_lines).shown
    ≡ limit_notices over_lines.shown + line_count printed
notice_repeats_example = notice_repeats printed over_lines over_lines_tripped over_lines_count

run_id_mono_example : text_lt (run_id 1700000000000 9) (run_id 1700000000001 2) ≡ true
run_id_mono_example = run_id_mono 1700000000000 1700000000001 9 2 (omega arith) (omega arith)

-- A linter that found something.
found_something : classify (exited 1) (exited 1 ∷ []) ≡ passed
unfolding classify same_code one_of
found_something = refl
