-- ===== src/Charter/Signals.antt =====
-- prflagger/charter/drift.py: the signals of `compare`, one function for each part of a charter. What
-- Python's tables and floats give is an argument: str.lower, difflib's ratio in millionths, the
-- percentage of a fraction and the repr of a text. The other fractions are exact.
use pr_review.Prelude.{
  ℕ, ◌-◌, String, Bool, true, false, not, Option, none, some, List, [], ◌∷◌, ◌==◌, ◌&&◌, ◌||◌, eqb,
  ltb, if◌then◌else◌, contains, distinct, all_where, sort_by, limit_rows, text_le, length, join,
  concat, join_with, after_text, strip_text, decimal, leading_number,
}
use pr_review.Core.Records.{
  Claim, Charter, claims_of, DriftSignal, Level, minor, notable, major, Millionths,
}

-- CharterConfig in prflagger/core/config.py, what `compare` reads of it.
pub record Limits : Type 0 where
  pub api_removed_major_fraction : Millionths
  pub api_removed_major_count : ℕ
  pub api_added_notable_fraction : Millionths
  pub purpose_major_similarity : Millionths
  pub purpose_notable_similarity : Millionths

pub record Python : Type 0 where
  pub lower : String → String
  pub ratio : String → String → Millionths
  pub percent_of : Millionths → String
  pub percent : ℕ → ℕ → String
  pub repr : String → String

-- f"{count} {singular if count == 1 else plural}"
unfoldable pub count_text : ℕ → String → String → String
count_text n singular plural = join (decimal n) (join " " (if eqb n 1 then singular else plural))

unfoldable pub sample : List String → ℕ → String
sample items limit = join (join_with ", " (limit_rows limit items)) (
    if ltb limit (length items)
    then concat (" (+" ∷ decimal (length items - limit) ∷ " more)" ∷ [])
    else "")

-- sorted(set(xs) - set(ys))
unfoldable pub missing : List String → List String → List String
missing xs ys = sort_by text_le (distinct (all_where (λ x. not (contains x ys)) xs))

unfoldable pub texts_of : List Claim → List String
texts_of [] = []
texts_of (c ∷ cs) = c.text ∷ texts_of cs

unfoldable pub purpose_text : Python → Charter → String
unfolding texts_of
purpose_text py c = py.lower (
    strip_text (
      join_with " "
        (all_where (λ p. not (p == "")) (c.summary ∷ texts_of (claims_of "purpose" c)))))

-- A signal where a test holds.
abbrev pub when : Bool → DriftSignal → List DriftSignal
when true s = s ∷ []
when false s = []

abbrev arrow : String → String → String
arrow a b = concat (a ∷ " → " ∷ b ∷ [])

-- Both are known, and they differ.
abbrev pub changed : String → String → Bool
changed a b = not (a == "") && (not (b == "") && not (a == b))

unfoldable pub toolchain_signals : Charter → Charter → List DriftSignal
toolchain_signals b a = when (changed b.toolchain a.toolchain) (record {
  kind = "toolchain";
  level = major;
  detail = concat ("the repository moved from " ∷ b.toolchain ∷ " to " ∷ a.toolchain ∷ []);
  evidence = arrow b.toolchain a.toolchain;
})

unfoldable pub license_signals : Charter → Charter → List DriftSignal
license_signals b a = when (changed b.license a.license) (record {
  kind = "license";
  level = major;
  detail = "the license changed";
  evidence = arrow b.license a.license;
})

minor_number : Option String → ℕ
minor_number none = 0
minor_number (some s) = elim (leading_number s) [ none ↦ 0 | some (n, rest) ↦ n ]

number_pair : String → Option (ℕ × ℕ)
unfolding minor_number
number_pair s = elim (leading_number s) [
  | none ↦ none
  | some (n, rest) ↦ some (n, minor_number (after_text "." rest))
]

abbrev without : Option String → String → String
without none s = s
without (some rest) s = rest

-- ^v?(\d+)(?:\.(\d+))? on the stripped text; a digit is an ASCII one.
unfoldable pub version : String → Option (ℕ × ℕ)
unfolding number_pair
version value = let s = strip_text value in number_pair (without (after_text "v" s) s)

unfoldable pub version_grade : ℕ × ℕ → ℕ × ℕ → Level × String
version_grade (old_major, old_minor) (new_major, new_minor) =
    if ltb old_major new_major
    then (major, "new major version — the project is signalling a break")
    else if eqb new_major 0 && ltb old_minor new_minor
    then (notable, "0.x minor bump, which semver allows to break")
    else if ltb new_major old_major || (eqb new_major old_major && ltb new_minor old_minor)
    then (notable, "the version went backwards")
    else (minor, "version bump")

unfoldable pub version_between : Option (ℕ × ℕ) → Option (ℕ × ℕ) → String → List DriftSignal
unfolding version_grade
version_between (some (i, j)) (some (k, l)) evidence = when (not (eqb k i && eqb l j)) (record {
  kind = "version";
  level = (version_grade (i, j) (k, l)).0;
  detail = (version_grade (i, j) (k, l)).1;
  evidence = evidence;
})
version_between _ _ evidence = []

unfoldable pub version_signals : Charter → Charter → List DriftSignal
unfolding version_between
version_signals b a =
    version_between (version b.version) (version a.version) (arrow b.version a.version)
