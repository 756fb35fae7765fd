-- ===== src/Analysis/Diff.antt =====
-- prflagger/analysis/diff.py: the lines of the head revision that a diff changes. The lines of git's
-- output are an argument, as code points; a digit is an ASCII one.
pub mod Spans
pub mod Merged
use mathlib.Core.List.{reverse}
use Prim.Native.Char.{code}
use pr_review.Prelude.{
  ℕ, suc, ◌+◌, ◌-◌, ◌*◌, max, String, Bool, true, false, not, Option, none, some, List, [], ◌∷◌,
  ◌++◌, ◌&&◌, ◌||◌, ltb, leb, eqb, if◌then◌else◌,
}

abbrev pub Text : Type 0
Text = List ℕ

abbrev pub Span : Type 0
Span = ℕ × ℕ

abbrev pub codes : String → Text
codes String.[] = []
codes (String.◌∷◌ c s) = code c ∷ codes s

unfoldable pub same_text : Text → Text → Bool
same_text [] [] = true
same_text (a ∷ as') (b ∷ bs) = eqb a b && same_text as' bs
same_text _ _ = false

-- The rest of a line that begins with a prefix.
unfoldable pub after_prefix : Text → Text → Option Text
after_prefix [] line = some line
after_prefix (p ∷ ps) [] = none
after_prefix (p ∷ ps) (c ∷ cs) = if eqb p c then after_prefix ps cs else none

abbrev is_digit : ℕ → Bool
is_digit c = leb b'0' c && leb c b'9'

digits : ℕ → Text → ℕ × Text
digits n [] = (n, [])
digits n (c ∷ cs) =
    let rest = digits (n * 10 + (c - b'0')) cs in if is_digit c then rest else (n, c ∷ cs)

-- (\d+), read by int().
number : Text → Option (ℕ × Text)
unfolding digits
number [] = none
number (c ∷ cs) = if is_digit c then some (digits 0 (c ∷ cs)) else none

infixl 5 ◌>>=◌
abbrev ◌>>=◌ {ℓ κ} : {A : Type ℓ} {B : Type κ} → Option A → (A → Option B) → Option B
none >>= f = none
some a >>= f = f a

-- (?:,(\d+))?
abbrev comma_number : Option Text → Text → Option (Option ℕ × Text)
comma_number none line = some (none, line)
comma_number (some rest) line = do (n, more) ← number rest; some (some n, more)

count_part : Text → Option (Option ℕ × Text)
unfolding number after_prefix
count_part line = comma_number (after_prefix (codes ",") line) line

-- `_HUNK`: the start and the count on the head side.
unfoldable pub parse_hunk : Text → Option (ℕ × Option ℕ)
unfolding count_part
parse_hunk line = do
  old ← after_prefix (codes "@@ -") line
  (_, rest) ← number old
  (_, rest) ← count_part rest
  new ← after_prefix (codes " +") rest
  (start, rest) ← number new
  (count, rest) ← count_part rest
  _ ← after_prefix (codes " @@") rest
  some (start, count)

-- str.isspace
is_space : ℕ → Bool
is_space c =
    (leb 9 c && leb c 13)
    || (leb 28 c && leb c 32)
    || eqb c 133
    || eqb c 160
    || eqb c 5760
    || (leb 8192 c && leb c 8202)
    || eqb c 8232
    || eqb c 8233
    || eqb c 8239
    || eqb c 8287
    || eqb c 12288

drop_spaces : Text → Text
unfolding is_space
drop_spaces [] = []
drop_spaces (c ∷ cs) = if is_space c then drop_spaces cs else c ∷ cs

strip : Text → Text
unfolding drop_spaces
strip t = reverse (drop_spaces (reverse (drop_spaces t)))

abbrev quote : ℕ
quote = 34

starts_quoted : Text → Bool
starts_quoted [] = false
starts_quoted (c ∷ cs) = eqb c quote

drop_first : Text → Text
drop_first [] = []
drop_first (c ∷ cs) = cs

-- target[1:-1] of a target that starts and ends with a quote
unquote : Text → Text
unfolding starts_quoted drop_first
unquote t =
    if starts_quoted t && starts_quoted (reverse t)
    then reverse (drop_first (reverse (drop_first t)))
    else t

or_else : Option Text → Option Text → Text → Text
or_else (some t) _ _ = t
or_else none (some t) _ = t
or_else none none t = t

-- `_strip_prefix`
unfoldable pub strip_prefix : Text → Text
unfolding unquote or_else after_prefix
strip_prefix t =
    let t' = unquote t in or_else (after_prefix (codes "a/") t') (after_prefix (codes "b/") t') t'

-- The order of tuples.
unfoldable pub span_le : Span → Span → Bool
span_le (a, b) (c, d) = ltb a c || (eqb a c && leb b d)

insert_span : Span → List Span → List Span
unfolding span_le
insert_span s [] = s ∷ []
insert_span s (t ∷ ts) = if span_le s t then s ∷ t ∷ ts else t ∷ insert_span s ts

-- sorted(spans)
unfoldable pub sort_spans : List Span → List Span
unfolding insert_span
sort_spans [] = []
sort_spans (s ∷ ss) = insert_span s (sort_spans ss)

-- The loop of `_merge`. The last merged span is an argument: those before it are not touched again.
unfoldable pub merge_from : Span → List Span → List Span
merge_from last [] = last ∷ []
merge_from (s, e) ((s', e') ∷ rest) = elim (leb s' (e + 1)) [
  | true ↦ merge_from (s, max e e') rest
  | false ↦ (s, e) ∷ merge_from (s', e') rest
]

merge_sorted : List Span → List Span
unfolding merge_from
merge_sorted [] = []
merge_sorted (s ∷ ss) = merge_from s ss

unfoldable pub merge : List Span → List Span
unfolding merge_sorted sort_spans
merge spans = merge_sorted (sort_spans spans)

abbrev pub Ranges : Type 0
Ranges = List (Text × List Span)

-- ranges.setdefault(path, []).append(span)
unfoldable pub add_span : Text → Span → Ranges → Ranges
unfolding same_text
add_span path span [] = (path, span ∷ []) ∷ []
add_span path span ((p, spans) ∷ rest) =
    if same_text p path
    then (p, spans ++ span ∷ []) ∷ rest
    else (p, spans) ∷ add_span path span rest

-- The file named by a `+++` line; none where the file is gone at head.
target_of : Text → Option Text
unfolding strip strip_prefix same_text
target_of rest =
    let target = strip rest in
    if same_text target (codes "/dev/null") then none else some (strip_prefix target)

add_hunk : Text → Option (ℕ × Option ℕ) → Ranges → Ranges
unfolding add_span
add_hunk path none ranges = ranges
add_hunk path (some (start, none)) ranges = add_span path (start, start + 1 - 1) ranges
add_hunk path (some (start, some count)) ranges =
    if eqb count 0 then ranges else add_span path (start, start + count - 1) ranges

-- A line that is no `+++` line.
other_line : Text → Option Text → Ranges → Ranges
unfolding add_hunk parse_hunk
other_line line none ranges = ranges
other_line line (some path) ranges = elim (after_prefix (codes "@@") line) [
  | none ↦ ranges
  | some _ ↦ add_hunk path (parse_hunk line) ranges
]

scan_line : Text → Option Text × Ranges → Option Text × Ranges
unfolding target_of other_line
scan_line line (current, ranges) = elim (after_prefix (codes "+++ ") line) [
  | some rest ↦ (target_of rest, ranges)
  | none ↦ (current, other_line line current ranges)
]

scan : List Text → Option Text × Ranges → Ranges
unfolding scan_line
scan [] (current, ranges) = ranges
scan (line ∷ lines) state = scan lines (scan_line line state)

merge_all : Ranges → Ranges
unfolding merge
merge_all [] = []
merge_all ((p, []) ∷ rest) = merge_all rest
merge_all ((p, spans) ∷ rest) = (p, merge spans) ∷ merge_all rest

unfoldable pub changed_ranges : List Text → Ranges
unfolding scan merge_all
changed_ranges lines = merge_all (scan lines (none, []))
