-- ===== src/Charter/Drift/Breaks.antt =====
-- What makes an update major.
use pr_review.Prelude.{
  ℕ, ◌<◌, ◌≤◌, String, ◌≡◌, ◌≢◌, refl, ap, ◌∙◌, Bool, true, false, not, some, List, [], ◌∷◌, ◌++◌,
  ◌||◌, eqb, ltb, if◌then◌else◌, contains, distinct, all_where, arith, eq_iff, is_nil,
  is_nil-sort_by, text_le, inl, inr, ◌⊎◌,
}
use pr_review.Core.Records.{
  Charter, CharterDrift, DriftSignal, drift_level, highest_level, level_of, Level, level_none,
  minor, notable, major, level_index,
}
use pr_review.Charter.Signals.{
  Limits, Python, missing, changed, toolchain_signals, license_signals, version, version_grade,
  version_between, version_signals,
}
use pr_review.Charter.Drift.{entry_names, entry_signals, signals_between, compare}

-- Whether one of the signals is major.
unfoldable has_major : List DriftSignal → Bool
unfolding level_index
has_major [] = false
has_major (s ∷ ss) = eqb (level_index s.level) 3 || has_major ss

has_major-append :
    (ss ts : List DriftSignal) → has_major (ss ++ ts) ≡ (has_major ss || has_major ts)
unfolding has_major
has_major-append [] ts = refl
has_major-append (s ∷ ss) ts = ground (arith, has_major-append ss ts)

one_of_four :
    (ks ls ms ns rest : List DriftSignal)
    → (has_major ks ≡ true)
      ⊎ ((has_major ls ≡ true) ⊎ ((has_major ms ≡ true) ⊎ (has_major ns ≡ true)))
    → has_major (ks ++ (ls ++ (ms ++ (ns ++ rest)))) ≡ true
one_of_four ks ls ms ns rest h =
    has_major-append ks (ls ++ (ms ++ (ns ++ rest)))
    ∙ ap (λ x. has_major ks || x)
        (has_major-append ls (ms ++ (ns ++ rest))
          ∙ ap (λ x. has_major ls || x)
              (has_major-append ms (ns ++ rest)
                ∙ ap (λ x. has_major ms || x) (has_major-append ns rest)))
    ∙ ground arith

is_major : (l : Level) → level_index l ≡ 3 → l ≡ major
unfolding level_index
is_major level_none h = ground arith
is_major minor h = ground arith
is_major notable h = ground arith
is_major major h = refl

at_most : (l : Level) → level_index l ≤ 3
unfolding level_index
at_most level_none = omega arith
at_most minor = omega arith
at_most notable = omega arith
at_most major = omega arith

highest_level-major :
    (top : Level) (ss : List DriftSignal)
    → (eqb (level_index top) 3 || has_major ss) ≡ true
    → highest_level top ss ≡ major
unfolding highest_level has_major
highest_level-major top [] h = is_major top (ground arith)
highest_level-major top (s ∷ ss) h =
    highest_level-major (if ltb (level_index top) (level_index s.level) then s.level else top) ss
      (ground (arith, at_most top, at_most s.level))

drift_level-major : (d : CharterDrift) → has_major d.signals ≡ true → drift_level d ≡ major
unfolding drift_level level_of has_major
drift_level-major d h = by_signals d.signals h
  where
    by_signals : (ss : List DriftSignal) → has_major ss ≡ true → level_of ss ≡ major
    by_signals [] e = ground arith
    by_signals (s ∷ ss) e = highest_level-major s.level ss e

filled-all_where :
    (p : String → Bool) (k : String) (xs : List String)
    → contains k xs ≡ true
    → p k ≡ true
    → is_nil (all_where p xs) ≡ false
unfolding contains all_where
filled-all_where p k [] h e = ground arith
filled-all_where p k (x ∷ xs) h e = ground (arith, eq_iff x k, filled-all_where p k xs)

held : (k : String) (xs : List String) → contains k xs ≡ true → is_nil xs ≡ false
unfolding contains
held k [] h = ground arith
held k (x ∷ xs) h = refl

is_nil-distinct : (xs : List String) → is_nil (distinct xs) ≡ is_nil xs
unfolding distinct
is_nil-distinct [] = refl
is_nil-distinct (x ∷ xs) = ground (arith, is_nil-distinct xs, held x xs)

-- A name that is lost makes the difference a list that is not empty.
filled-missing :
    (k : String) (xs ys : List String)
    → contains k xs ≡ true
    → contains k ys ≡ false
    → is_nil (missing xs ys) ≡ false
unfolding missing
filled-missing k xs ys here gone =
    is_nil-sort_by text_le _
    ∙ is_nil-distinct _
    ∙ filled-all_where (λ x. not (contains x ys)) k xs here (ap not gone)

-- What breaks those who use the repository.
pub data Break (b a : Charter) : Type 0 where
  other_toolchain : b.toolchain ≢ "" → a.toolchain ≢ "" → b.toolchain ≢ a.toolchain → Break b a
  other_license : b.license ≢ "" → a.license ≢ "" → b.license ≢ a.license → Break b a
  new_major :
      (old new : ℕ × ℕ)
      → version b.version ≡ some old
      → version a.version ≡ some new
      → old.0 < new.0
      → Break b a
  lost_entry :
      (name : String)
      → contains name (entry_names b.entry_points) ≡ true
      → contains name (entry_names a.entry_points) ≡ false
      → Break b a

is_changed : (s t : String) → s ≢ "" → t ≢ "" → s ≢ t → changed s t ≡ true
is_changed s t f g h = ground (arith, eq_iff s "", eq_iff t "", eq_iff s t)

module _ (py : Python) (limits : Limits) (b a : Charter) where
  one_major :
      has_major (toolchain_signals b a) ≡ true
        ⊎ (has_major (license_signals b a) ≡ true
            ⊎ (has_major (version_signals b a) ≡ true ⊎ (has_major (entry_signals b a) ≡ true)))
      → has_major (signals_between py limits b a) ≡ true
  unfolding signals_between
  one_major h =
      one_of_four (toolchain_signals b a) (license_signals b a) (version_signals b a)
        (entry_signals b a) _ h

  new_version :
      (old new : ℕ × ℕ)
      → version b.version ≡ some old
      → version a.version ≡ some new
      → old.0 < new.0
      → has_major (version_signals b a) ≡ true
  unfolding version_signals has_major version_between version_grade level_index
  new_version old new f g lt = rw f (rw g (ground arith))

  lost_name :
      (name : String)
      → contains name (entry_names b.entry_points) ≡ true
      → contains name (entry_names a.entry_points) ≡ false
      → has_major (entry_signals b a) ≡ true
  unfolding entry_signals has_major level_index
  lost_name name here gone = ground (
    arith,
    filled-missing name (entry_names b.entry_points) (entry_names a.entry_points) here gone,
  )

  Break-major : Break b a → has_major (signals_between py limits b a) ≡ true
  Break-major (other_toolchain f g h) =
      let e = is_changed b.toolchain a.toolchain f g h in
      one_major (inl (unfold toolchain_signals has_major in ground (arith, e)))
  Break-major (other_license f g h) =
      let e = is_changed b.license a.license f g h in
      one_major (inr (inl (unfold license_signals has_major in ground (arith, e))))
  Break-major (new_major old new f g lt) = one_major (inr (inr (inl (new_version old new f g lt))))
  Break-major (lost_entry name here gone) = one_major (inr (inr (inr (lost_name name here gone))))

  -- If both charters name a toolchain, or both a license, and not the same, or the major version in both
  -- rises, or a name under which the repository is run is gone, then comparing its charters gives an
  -- update that is major, whatever else changed and whatever the limits are.
  pub compare-Break :
      Break b a
      → b.repo ≡ a.repo
      → (d : CharterDrift) × (compare py limits b a ≡ some d) × (drift_level d ≡ major)
  unfolding compare
  compare-Break h e = (
    record {
      repo = a.repo;
      from_sha = b.sha;
      to_sha = a.sha;
      signals = signals_between py limits b a;
    },
    ground (arith, eq_iff b.repo a.repo),
    drift_level-major _ (Break-major h),
  )
