-- ===== src/Analysis/Diff/Merged.antt =====
-- `_merge` gives the same lines as disjoint spans in order.
use pr_review.Prelude.{
  ℕ, ◌+◌, ◌≤◌, max, ◌≡◌, refl, ◌∙◌, Bool, false, List, [], ◌∷◌, ◌&&◌, ◌||◌, arith, leb, All,
  Bool-cases, inl, inr,
}
use pr_review.Analysis.Diff.{
  Span, span_le, insert_span, sort_spans, merge_from, merge_sorted, merge,
}

-- Whether a span of the list holds the line.
unfoldable pub covers : ℕ → List Span → Bool
covers n [] = false
covers n ((a, b) ∷ rest) = (leb a n && leb n b) || covers n rest

-- Each span starts at or after the one before it.
abbrev IsSorted : ℕ → List Span → Type 0
IsSorted low [] = Unit
IsSorted low ((a, b) ∷ rest) = (low ≤ a) × IsSorted a rest

-- No span is empty, and between two spans there is a line of neither.
abbrev pub IsApart : ℕ → List Span → Type 0
IsApart low [] = Unit
IsApart low ((a, b) ∷ rest) = (low ≤ a) × (a ≤ b) × IsApart (b + 2) rest

abbrev pub IsSpan : Span → Type 0
IsSpan (a, b) = a ≤ b

covers-insert_span :
    (n : ℕ) (s : Span) (ss : List Span) → covers n (insert_span s ss) ≡ covers n (s ∷ ss)
unfolding covers insert_span
covers-insert_span n s [] = refl
covers-insert_span n (a, b) ((c, d) ∷ ss) = ground (arith, covers-insert_span n (a, b) ss)

covers-sort_spans : (n : ℕ) (ss : List Span) → covers n (sort_spans ss) ≡ covers n ss
unfolding covers sort_spans
covers-sort_spans n [] = refl
covers-sort_spans n ((a, b) ∷ ss) =
    covers-insert_span n (a, b) (sort_spans ss) ∙ ground (arith, covers-sort_spans n ss)

lower-IsSorted : (low low' : ℕ) (ss : List Span) → low' ≤ low → IsSorted low ss → IsSorted low' ss
lower-IsSorted low low' [] p h = tt
lower-IsSorted low low' ((a, b) ∷ ss) p h = (omega arith, h.1)

insert_span-IsSorted :
    (low : ℕ) (s : Span) (ss : List Span)
    → low ≤ s.0
    → IsSorted low ss
    → IsSorted low (insert_span s ss)
unfolding insert_span span_le
insert_span-IsSorted low (a, b) [] p h = (p, tt)
insert_span-IsSorted low (a, b) ((c, d) ∷ ss) p h = elim (Bool-cases (span_le (a, b) (c, d))) [
  | inl before ↦ rw before (p, (ground arith, h.1))
  | inr after ↦ rw after (h.0, insert_span-IsSorted c (a, b) ss (ground arith) h.1)
]

sort_spans-IsSorted : (ss : List Span) → IsSorted 0 (sort_spans ss)
unfolding sort_spans
sort_spans-IsSorted [] = tt
sort_spans-IsSorted (s ∷ ss) =
    insert_span-IsSorted 0 s (sort_spans ss) (omega arith) (sort_spans-IsSorted ss)

covers-merge_from :
    (n a b : ℕ) (ss : List Span)
    → IsSorted a ss
    → covers n (merge_from (a, b) ss) ≡ covers n ((a, b) ∷ ss)
unfolding covers merge_from
covers-merge_from n a b [] h = refl
covers-merge_from n a b ((c, d) ∷ ss) h = elim (Bool-cases (leb c (b + 1))) [
  | inl touches ↦
      rw (touches, merge_from)
        (covers-merge_from n a (max b d) ss (lower-IsSorted c a ss h.0 h.1) ∙ ground arith)
  | inr away ↦ rw (away, merge_from) (ground (arith, covers-merge_from n c d ss h.1))
]

merge_from-IsApart :
    (low a b : ℕ) (ss : List Span)
    → low ≤ a
    → a ≤ b
    → IsSorted a ss
    → All IsSpan ss
    → IsApart low (merge_from (a, b) ss)
unfolding merge_from
merge_from-IsApart low a b [] p q h w = (p, q, tt)
merge_from-IsApart low a b ((c, d) ∷ ss) p q h w = elim (Bool-cases (leb c (b + 1))) [
  | inl touches ↦
      rw (touches, merge_from)
        (merge_from-IsApart low a (max b d) ss p (omega arith) (lower-IsSorted c a ss h.0 h.1) w.1)
  | inr away ↦
      rw (away, merge_from) (p, q, merge_from-IsApart (b + 2) c d ss (ground arith) w.0 h.1 w.1)
]

-- A line is in the merged spans exactly if it was in one of the given ones.
pub covers-merge : (n : ℕ) (spans : List Span) → covers n (merge spans) ≡ covers n spans
unfolding merge
covers-merge n spans =
    covers_sorted (sort_spans spans) (sort_spans-IsSorted spans) ∙ covers-sort_spans n spans
  where
    covers_sorted : (ss : List Span) → IsSorted 0 ss → covers n (merge_sorted ss) ≡ covers n ss
    covers_sorted [] h = refl
    covers_sorted ((a, b) ∷ ss) h = covers-merge_from n a b ss h.1

insert_span-All :
    (s : Span) (ss : List Span) → IsSpan s → All IsSpan ss → All IsSpan (insert_span s ss)
unfolding insert_span
insert_span-All s [] p h = (p, tt)
insert_span-All s (t ∷ ts) p h = elim (Bool-cases (span_le s t)) [
  | inl before ↦ rw before (p, h)
  | inr after ↦ rw after (h.0, insert_span-All s ts p h.1)
]

sort_spans-All : (ss : List Span) → All IsSpan ss → All IsSpan (sort_spans ss)
unfolding sort_spans
sort_spans-All [] h = tt
sort_spans-All (s ∷ ss) h = insert_span-All s (sort_spans ss) h.0 (sort_spans-All ss h.1)

-- From spans that hold a line each, in any order and overlapping as they like, the result is in
-- order, and any two of its spans have a line between them that is in neither.
pub merge-IsApart : (spans : List Span) → All IsSpan spans → IsApart 0 (merge spans)
unfolding merge
merge-IsApart spans w =
    apart_sorted (sort_spans spans) (sort_spans-IsSorted spans) (sort_spans-All spans w)
  where
    apart_sorted : (ss : List Span) → IsSorted 0 ss → All IsSpan ss → IsApart 0 (merge_sorted ss)
    apart_sorted [] h v = tt
    apart_sorted ((a, b) ∷ ss) h v = merge_from-IsApart 0 a b ss h.0 v.0 h.1 v.1
