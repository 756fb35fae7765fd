-- ===== src/Sandbox/Stream/Bounds.antt =====
-- Both bounds hold over any output, and the capture is a prefix of it.
use pr_review.Prelude.{
  ℕ, ◌≤◌, ◌≡◌, false, List, [], ◌∷◌, ◌++◌, arith, length, sum_by, sum_by-append,
}
use pr_review.Sandbox.Stream.{
  Text, Budget, State, Stream, stdout, stderr, Read, line, too_long, Shown, output, dropped_notice,
  limit_notice, allow, answer, display, read_one, drain, fresh,
}

abbrev pub line_of : Shown → ℕ
line_of (output _ _) = 1
line_of _ = 0

abbrev pub chars_of : Shown → ℕ
chars_of (output _ t) = length t
chars_of _ = 0

-- How many lines of output were shown, and how many characters.
abbrev pub lines_shown : List Shown → ℕ
lines_shown xs = sum_by line_of xs

abbrev pub chars_shown : List Shown → ℕ
chars_shown xs = sum_by chars_of xs

module _ (max_lines max_bytes : ℕ) where
  -- The budget has counted what was shown, and has not let more through than its limits.
  record IsBounded (b : Budget) (seen : List Shown) : Type 0 where
    same_lines : b.max_lines ≡ max_lines
    same_bytes : b.max_bytes ≡ max_bytes
    lines_within : lines_shown seen ≤ max_lines
    chars_within : chars_shown seen ≤ max_bytes
    lines_counted : b.tripped ≡ false → lines_shown seen ≡ b.lines
    chars_counted : b.tripped ≡ false → chars_shown seen ≡ b.bytes

  allowed-IsBounded :
      (stream : Stream) (text : Text) (b : Budget) (seen : List Shown)
      → IsBounded b seen
      → let r = answer stream text (allow text b) seen in IsBounded r.1 r.0
  unfolding allow answer
  allowed-IsBounded stream text b seen h = ground (
    arith,
    sum_by-append line_of seen (output stream text ∷ []),
    sum_by-append chars_of seen (output stream text ∷ []),
    sum_by-append line_of seen (limit_notice ∷ []),
    sum_by-append chars_of seen (limit_notice ∷ []),
  )

  dropped-IsBounded :
      (b : Budget) (seen : List Shown)
      → IsBounded b seen
      → IsBounded b (seen ++ dropped_notice ∷ [])
  dropped-IsBounded b seen h = ground (
    arith,
    sum_by-append line_of seen (dropped_notice ∷ []),
    sum_by-append chars_of seen (dropped_notice ∷ []),
  )

  read_one-IsBounded :
      (r : Read) (s : State)
      → IsBounded s.budget s.shown
      → IsBounded (read_one r s).budget (read_one r s).shown
  unfolding read_one
  read_one-IsBounded (line stdout t) s h = allowed-IsBounded stdout (display t) s.budget s.shown h
  read_one-IsBounded (line stderr t) s h = allowed-IsBounded stderr (display t) s.budget s.shown h
  read_one-IsBounded (too_long stdout) s h = dropped-IsBounded s.budget s.shown h
  read_one-IsBounded (too_long stderr) s h = dropped-IsBounded s.budget s.shown h

  drain-IsBounded :
      (rs : List Read) (s : State)
      → IsBounded s.budget s.shown
      → IsBounded (drain rs s).budget (drain rs s).shown
  unfolding drain
  drain-IsBounded [] s h = h
  drain-IsBounded (r ∷ rs) s h = drain-IsBounded rs (read_one r s) (read_one-IsBounded r s h)

-- However much a job prints, and however its two streams interleave, the transcript shows at most
-- `max_lines` lines of output and at most `max_bytes` characters of it.
pub transcript_bounded :
    (max_lines max_bytes max_capture : ℕ) (rs : List Read)
    → let s = drain rs (fresh max_lines max_bytes max_capture) in
      (lines_shown s.shown ≤ max_lines) × (chars_shown s.shown ≤ max_bytes)
unfolding fresh
transcript_bounded max_lines max_bytes max_capture rs =
    let h = drain-IsBounded max_lines max_bytes rs (fresh max_lines max_bytes max_capture) start in
    (h.lines_within, h.chars_within)
  where
    start :
        IsBounded max_lines max_bytes
          (fresh max_lines max_bytes max_capture).budget
          (fresh max_lines max_bytes max_capture).shown
    start = ground arith
