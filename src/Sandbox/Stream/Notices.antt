-- ===== src/Sandbox/Stream/Notices.antt =====
-- The notice that the output limit was reached.
use pr_review.Prelude.{
  ℕ, suc, ◌+◌, ◌≤◌, ◌≡◌, ◌≢◌, refl, sym, subst, ◌∙◌, ap, true, List, [], ◌∷◌, ◌++◌, arith,
}
use pr_review.Sandbox.Stream.{
  Budget, State, stdout, stderr, Read, line, too_long, Shown, output, dropped_notice, limit_notice,
  allow, answer, read_one, drain,
}

-- How many lines a list of reads brings.
abbrev pub line_count : List Read → ℕ
line_count [] = 0
line_count (line _ _ ∷ rs) = suc (line_count rs)
line_count (too_long _ ∷ rs) = line_count rs

abbrev pub limit_notices : List Shown → ℕ
limit_notices [] = 0
limit_notices (limit_notice ∷ xs) = suc (limit_notices xs)
limit_notices (output _ _ ∷ xs) = limit_notices xs
limit_notices (dropped_notice ∷ xs) = limit_notices xs

limit_notices-append :
    (xs ys : List Shown) → limit_notices (xs ++ ys) ≡ limit_notices xs + limit_notices ys
limit_notices-append [] ys = omega arith
limit_notices-append (limit_notice ∷ xs) ys = omega (arith, limit_notices-append xs ys)
limit_notices-append (output s t ∷ xs) ys = limit_notices-append xs ys
limit_notices-append (dropped_notice ∷ xs) ys = limit_notices-append xs ys

-- The budget was tripped by the line after the last one allowed.
abbrev IsOverLines : Budget → Type 0
IsOverLines b = (b.tripped ≡ true) × (b.lines ≡ b.max_lines + 1)

budget-read_one :
    (r : Read) (s : State) → s.budget.tripped ≡ true → (read_one r s).budget ≡ s.budget
unfolding read_one allow answer
budget-read_one (line stdout t) s h = ground arith
budget-read_one (line stderr t) s h = ground arith
budget-read_one (too_long stdout) s h = refl
budget-read_one (too_long stderr) s h = refl

notices-read_one :
    (r : Read) (s : State)
    → IsOverLines s.budget
    → limit_notices (read_one r s).shown ≡ limit_notices s.shown + line_count (r ∷ [])
unfolding read_one allow answer
notices-read_one (line stdout t) s h =
    ground (arith, limit_notices-append s.shown (limit_notice ∷ []))
notices-read_one (line stderr t) s h =
    ground (arith, limit_notices-append s.shown (limit_notice ∷ []))
notices-read_one (too_long stdout) s h =
    ground (arith, limit_notices-append s.shown (dropped_notice ∷ []))
notices-read_one (too_long stderr) s h =
    ground (arith, limit_notices-append s.shown (dropped_notice ∷ []))

no_notice-read_one :
    (r : Read) (s : State)
    → s.budget.tripped ≡ true
    → s.budget.lines ≢ s.budget.max_lines + 1
    → limit_notices (read_one r s).shown ≡ limit_notices s.shown
unfolding read_one allow answer
no_notice-read_one (line stdout t) s h n = ground arith
no_notice-read_one (line stderr t) s h n = ground arith
no_notice-read_one (too_long stdout) s h n =
    ground (arith, limit_notices-append s.shown (dropped_notice ∷ []))
no_notice-read_one (too_long stderr) s h n =
    ground (arith, limit_notices-append s.shown (dropped_notice ∷ []))

line_count-cons :
    (r : Read) (rs : List Read) → line_count (r ∷ rs) ≡ line_count (r ∷ []) + line_count rs
line_count-cons (line _ _) rs = omega arith
line_count-cons (too_long _) rs = omega arith

-- Once a job has printed more lines than the limit, every further line of either stream is shown as
-- one more notice that the limit was reached.
pub notice_repeats :
    (rs : List Read) (s : State)
    → s.budget.tripped ≡ true
    → s.budget.lines ≡ s.budget.max_lines + 1
    → limit_notices (drain rs s).shown ≡ limit_notices s.shown + line_count rs
unfolding drain
notice_repeats [] s t l = omega arith
notice_repeats (r ∷ rs) s t l =
    let same = budget-read_one r s t in
    let rest =
      notice_repeats rs (read_one r s) (ap (λ (b : Budget). b.tripped) same ∙ t)
        (ap (λ (b : Budget). b.lines) same ∙ l ∙ sym (ap (λ (b : Budget). b.max_lines + 1) same)) in
    omega (arith, rest, notices-read_one r s (t, l), line_count-cons r rs)

-- Where the limit on characters is reached before the limit on lines, no notice is shown, however
-- much is still printed.
pub notice_missing :
    (rs : List Read) (s : State)
    → s.budget.tripped ≡ true
    → s.budget.lines ≤ s.budget.max_lines
    → limit_notices (drain rs s).shown ≡ limit_notices s.shown
unfolding drain
notice_missing [] s t l = refl
notice_missing (r ∷ rs) s t l =
    let same = budget-read_one r s t in
    notice_missing rs (read_one r s) (ap (λ (b : Budget). b.tripped) same ∙ t)
      (subst (λ (b : Budget). b.lines ≤ b.max_lines) (sym same) l)
    ∙ no_notice-read_one r s t (λ e. omega arith)
