-- ===== src/Analysis/Diff/Spans.antt =====
-- Every file's ranges, over any diff.
use pr_review.Prelude.{
  ℕ, ◌+◌, ◌-◌, Option, none, some, List, [], ◌∷◌, ◌++◌, arith, eqb, All, Bool-cases, Option-cases,
  inl, inr,
}
use pr_review.Analysis.Diff.{
  Text, Span, Ranges, codes, same_text, after_prefix, parse_hunk, add_span, add_hunk, other_line,
  scan_line, scan, merge_all, changed_ranges,
}
use pr_review.Analysis.Diff.Merged.{IsSpan, IsApart, merge-IsApart}

abbrev HasSpans : Text × List Span → Type 0
HasSpans (p, spans) = All IsSpan spans

All-snoc :
    (spans : List Span) (s : Span) → All IsSpan spans → IsSpan s → All IsSpan (spans ++ s ∷ [])
All-snoc [] s h p = (p, tt)
All-snoc (t ∷ ts) s h p = (h.0, All-snoc ts s h.1 p)

add_span-HasSpans :
    (path : Text) (s : Span) (ranges : Ranges)
    → IsSpan s
    → All HasSpans ranges
    → All HasSpans (add_span path s ranges)
unfolding add_span
add_span-HasSpans path s [] p h = ((p, tt), tt)
add_span-HasSpans path s ((q, spans) ∷ rest) p h = elim (Bool-cases (same_text q path)) [
  | inl same ↦ rw same (All-snoc spans s h.0 p, h.1)
  | inr other ↦ rw other (h.0, add_span-HasSpans path s rest p h.1)
]

add_hunk-HasSpans :
    (path : Text) (hunk : Option (ℕ × Option ℕ)) (ranges : Ranges)
    → All HasSpans ranges
    → All HasSpans (add_hunk path hunk ranges)
unfolding add_hunk
add_hunk-HasSpans path none ranges h = h
add_hunk-HasSpans path (some (start, none)) ranges h =
    add_span-HasSpans path (start, start + 1 - 1) ranges (omega arith) h
add_hunk-HasSpans path (some (start, some count)) ranges h = elim (Bool-cases (eqb count 0)) [
  | inl none_added ↦ rw none_added h
  | inr lines ↦ rw lines (add_span-HasSpans path (start, start + count - 1) ranges (ground arith) h)
]

other_line-HasSpans :
    (line : Text) (current : Option Text) (ranges : Ranges)
    → All HasSpans ranges
    → All HasSpans (other_line line current ranges)
unfolding other_line
other_line-HasSpans line none ranges h = h
other_line-HasSpans line (some path) ranges h =
    elim (Option-cases (after_prefix (codes "@@") line)) [
      | inl plain ↦ rw (plain, other_line) h
      | inr (_, hunk) ↦ rw (hunk, other_line) (add_hunk-HasSpans path (parse_hunk line) ranges h)
    ]

scan_line-HasSpans :
    (line : Text) (current : Option Text) (ranges : Ranges)
    → All HasSpans ranges
    → All HasSpans (scan_line line (current, ranges)).1
unfolding scan_line
scan_line-HasSpans line current ranges h = elim (Option-cases (after_prefix (codes "+++ ") line)) [
  | inl plain ↦ rw (plain, scan_line) (other_line-HasSpans line current ranges h)
  | inr (_, header) ↦ rw (header, scan_line) h
]

scan-HasSpans :
    (lines : List Text) (state : Option Text × Ranges)
    → All HasSpans state.1
    → All HasSpans (scan lines state)
unfolding scan
scan-HasSpans [] (current, ranges) h = h
scan-HasSpans (line ∷ lines) (current, ranges) h =
    scan-HasSpans lines (scan_line line (current, ranges))
      (scan_line-HasSpans line current ranges h)

abbrev pub IsMerged : Text × List Span → Type 0
IsMerged (p, spans) = IsApart 0 spans

merge_all-IsMerged : (ranges : Ranges) → All HasSpans ranges → All IsMerged (merge_all ranges)
unfolding merge_all
merge_all-IsMerged [] h = tt
merge_all-IsMerged ((p, []) ∷ rest) h = merge_all-IsMerged rest h.1
merge_all-IsMerged ((p, s ∷ ss) ∷ rest) h =
    (merge-IsApart (s ∷ ss) h.0, merge_all-IsMerged rest h.1)

-- Whatever the lines of the diff are, each file's ranges are in order, hold a line each, and have a
-- line between any two that is in neither.
pub changed_ranges-IsMerged : (lines : List Text) → All IsMerged (changed_ranges lines)
unfolding changed_ranges
changed_ranges-IsMerged lines =
    merge_all-IsMerged (scan lines (none, [])) (scan-HasSpans lines (none, []) tt)
