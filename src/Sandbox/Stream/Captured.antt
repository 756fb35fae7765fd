-- ===== src/Sandbox/Stream/Captured.antt =====
-- What the parsers read: whole lines, from the first one on.
use pr_review.Prelude.{
  ℕ, ◌+◌, ◌≤◌, ◌≡◌, refl, sym, ◌∙◌, ap, subst, true, false, List, [], ◌∷◌, ◌++◌, arith, ltb, length,
  sum_by, sum_by-append, Bool-cases, inl, inr,
}
use mathlib.Core.List.{append-nil, append_assoc}
use pr_review.Sandbox.Stream.{
  Text, Capture, State, Stream, stdout, stderr, Read, line, too_long, keep, read_one, drain, fresh,
}

abbrev pub capture_of : Stream → State → Capture
capture_of stdout s = s.out
capture_of stderr s = s.err

-- The lines that one stream printed.
abbrev pub lines_of : Stream → List Read → List Text
lines_of s [] = []
lines_of stdout (line stdout t ∷ rs) = t ∷ lines_of stdout rs
lines_of stderr (line stderr t ∷ rs) = t ∷ lines_of stderr rs
lines_of stdout (line stderr t ∷ rs) = lines_of stdout rs
lines_of stderr (line stdout t ∷ rs) = lines_of stderr rs
lines_of stdout (too_long _ ∷ rs) = lines_of stdout rs
lines_of stderr (too_long _ ∷ rs) = lines_of stderr rs

-- How much the lines take, with a line end each.
abbrev pub stored : List Text → ℕ
stored ts = sum_by (λ t. length t + 1) ts

-- The captured lines begin what was printed, are all of it unless the capture says it is full, and
-- fit the capture's limit.
pub record Captures (limit : ℕ) (c : Capture) (printed : List Text) : Type 0 where
  pub same : c.max_bytes ≡ limit
  pub lost : List Text
  pub split : printed ≡ c.lines ++ lost
  pub whole : c.full ≡ false → lost ≡ []
  pub within : stored c.lines ≤ limit
  pub counted : c.full ≡ false → stored c.lines ≡ c.bytes

more_lost :
    (t : Text) (kept lost printed : List Text)
    → printed ≡ kept ++ lost
    → printed ++ t ∷ [] ≡ kept ++ (lost ++ t ∷ [])
more_lost t kept lost printed e = ap (λ l. l ++ t ∷ []) e ∙ append_assoc kept lost (t ∷ [])

module _ (limit : ℕ) (t : Text) (c : Capture) (printed : List Text)
    (h : Captures limit c printed) where
  abbrev size : ℕ
  size = c.bytes + length t + 1

  full-Captures : c.full ≡ true → Captures limit c (printed ++ t ∷ [])
  full-Captures full = record {
    same = h.same;
    lost = h.lost ++ t ∷ [];
    split = more_lost t c.lines h.lost printed h.split;
    whole = λ e. ground arith;
    within = h.within;
    counted = h.counted;
  }

  over-Captures : Captures limit (record c { bytes = size; full = true }) (printed ++ t ∷ [])
  over-Captures = record {
    same = h.same;
    lost = h.lost ++ t ∷ [];
    split = more_lost t c.lines h.lost printed h.split;
    whole = λ e. ground arith;
    within = h.within;
    counted = λ e. ground arith;
  }

  fits-Captures :
      c.full ≡ false
      → ltb c.max_bytes size ≡ false
      → Captures limit (record c { bytes = size; lines = c.lines ++ t ∷ [] }) (printed ++ t ∷ [])
  fits-Captures more fits = record {
    same = h.same;
    lost = [];
    split =
        ap (λ l. l ++ t ∷ []) (h.split ∙ ap (λ l. c.lines ++ l) (h.whole more) ∙ append-nil c.lines)
        ∙ sym (append-nil _);
    whole = λ e. refl;
    within = ground (arith, sum_by-append (λ (x : Text). length x + 1) c.lines (t ∷ []));
    counted = λ e. ground (arith, sum_by-append (λ (x : Text). length x + 1) c.lines (t ∷ []));
  }

  keep-Captures : Captures limit (keep t c) (printed ++ t ∷ [])
  keep-Captures = elim (Bool-cases c.full) [
    | inl full ↦
        subst (λ k. Captures limit k (printed ++ t ∷ [])) (sym (keep_full full))
          (full-Captures full)
    | inr more ↦ elim (Bool-cases (ltb c.max_bytes size)) [
      | inl over ↦
          subst (λ k. Captures limit k (printed ++ t ∷ [])) (sym (keep_over more over))
            over-Captures
      | inr fits ↦
          subst (λ k. Captures limit k (printed ++ t ∷ [])) (sym (keep_fits more fits))
            (fits-Captures more fits)
    ]
  ]
    where
      keep_full : c.full ≡ true → keep t c ≡ c
      keep_full full = unfold keep in ground arith

      keep_over :
          c.full ≡ false
          → ltb c.max_bytes size ≡ true
          → keep t c ≡ record c { bytes = size; full = true }
      keep_over more over = unfold keep in ground arith

      keep_fits :
          c.full ≡ false
          → ltb c.max_bytes size ≡ false
          → keep t c ≡ record c { bytes = size; lines = c.lines ++ t ∷ [] }
      keep_fits more fits = unfold keep in ground arith

marked_full :
    (limit : ℕ) (c : Capture) (printed : List Text)
    → Captures limit c printed
    → Captures limit (record c { full = true }) printed
marked_full limit c printed h = record {
  same = h.same;
  lost = h.lost;
  split = h.split;
  whole = λ e. ground arith;
  within = h.within;
  counted = λ e. ground arith;
}

module _ (limit : ℕ) where
  nothing_printed :
      (c : Capture) (printed : List Text)
      → Captures limit c printed
      → Captures limit c (printed ++ [])
  nothing_printed c printed h = subst (Captures limit c) (sym (append-nil printed)) h

  read_one-Captures :
      (stream : Stream) (r : Read) (s : State) (printed : List Text)
      → Captures limit (capture_of stream s) printed
      → Captures limit (capture_of stream (read_one r s)) (printed ++ lines_of stream (r ∷ []))
  unfolding read_one
  read_one-Captures stdout (line stdout t) s printed h = keep-Captures limit t s.out printed h
  read_one-Captures stderr (line stderr t) s printed h = keep-Captures limit t s.err printed h
  read_one-Captures stdout (line stderr t) s printed h = nothing_printed s.out printed h
  read_one-Captures stderr (line stdout t) s printed h = nothing_printed s.err printed h
  read_one-Captures stdout (too_long stdout) s printed h =
      nothing_printed _ printed (marked_full limit s.out printed h)
  read_one-Captures stderr (too_long stderr) s printed h =
      nothing_printed _ printed (marked_full limit s.err printed h)
  read_one-Captures stdout (too_long stderr) s printed h = nothing_printed s.out printed h
  read_one-Captures stderr (too_long stdout) s printed h = nothing_printed s.err printed h

  lines_of-cons :
      (stream : Stream) (r : Read) (rs : List Read)
      → lines_of stream (r ∷ rs) ≡ lines_of stream (r ∷ []) ++ lines_of stream rs
  lines_of-cons stdout (line stdout t) rs = refl
  lines_of-cons stderr (line stderr t) rs = refl
  lines_of-cons stdout (line stderr t) rs = refl
  lines_of-cons stderr (line stdout t) rs = refl
  lines_of-cons stdout (too_long _) rs = refl
  lines_of-cons stderr (too_long _) rs = refl

  drain-Captures :
      (stream : Stream) (rs : List Read) (s : State) (printed : List Text)
      → Captures limit (capture_of stream s) printed
      → Captures limit (capture_of stream (drain rs s)) (printed ++ lines_of stream rs)
  unfolding drain
  drain-Captures stream [] s printed h = nothing_printed (capture_of stream s) printed h
  drain-Captures stream (r ∷ rs) s printed h =
      subst (Captures limit (capture_of stream (drain rs (read_one r s))))
        (append_assoc printed (lines_of stream (r ∷ [])) (lines_of stream rs)
          ∙ ap (λ l. printed ++ l) (sym (lines_of-cons stream r rs)))
        (drain-Captures stream rs (read_one r s) (printed ++ lines_of stream (r ∷ []))
          (read_one-Captures stream r s printed h))

-- For either stream, what the parsers read begins what the stream printed, whole lines whatever the
-- transcript cut; it is all of it unless the capture says it is full; and it fits the limit.
pub drain-Captures-fresh :
    (max_lines max_bytes max_capture : ℕ) (stream : Stream) (rs : List Read)
    → Captures max_capture
        (capture_of stream (drain rs (fresh max_lines max_bytes max_capture)))
        (lines_of stream rs)
unfolding fresh
drain-Captures-fresh max_lines max_bytes max_capture stream rs =
    drain-Captures max_capture stream rs (fresh max_lines max_bytes max_capture) [] (start stream)
  where
    start :
        (s : Stream)
        → Captures max_capture (capture_of s (fresh max_lines max_bytes max_capture)) []
    start stdout = record {
      same = refl;
      lost = [];
      split = refl;
      whole = λ e. refl;
      within = omega arith;
      counted = λ e. refl;
    }
    start stderr = record {
      same = refl;
      lost = [];
      split = refl;
      whole = λ e. refl;
      within = omega arith;
      counted = λ e. refl;
    }
