-- ===== src/Charter/Headline.antt =====
-- prflagger/charter/drift.py: headline and evidence_lines.
pub mod Told
use pr_review.Prelude.{
  ℕ, ◌+◌, String, Bool, true, false, not, Option, none, some, List, [], ◌∷◌, ◌==◌, ◌&&◌, ◌||◌, eqb,
  leb, ltb, if◌then◌else◌, contains, all_where, concat,
}
use pr_review.Core.Records.{
  CharterDrift, DriftSignal, drift_level, Level, level_none, minor, notable, major, level_index,
}

abbrev headline_order : List String
headline_order =
    "purpose" ∷ "toolchain" ∷ "entry_points" ∷ "public_api_removed" ∷ "license" ∷ "modules_removed"
    ∷ "version" ∷ "non_goals" ∷ "constraints" ∷ "dependencies_removed" ∷ "public_api_added"
    ∷ "modules_added" ∷ "dependencies_added" ∷ "standards" ∷ []

place_in : String → List String → ℕ
place_in kind [] = 0
place_in kind (k ∷ ks) = if k == kind then 0 else 1 + place_in kind ks

unfoldable pub headline_place : DriftSignal → ℕ
unfolding place_in
headline_place s = if contains s.kind headline_order then place_in s.kind headline_order else 99

-- min(..., key=...): the first of the least.
unfoldable pub least_from : DriftSignal → List DriftSignal → DriftSignal
least_from best [] = best
least_from best (s ∷ ss) =
    least_from (if ltb (headline_place s) (headline_place best) then s else best) ss

unfoldable pub least_of : List DriftSignal → Option DriftSignal
least_of [] = none
least_of (s ∷ ss) = some (least_from s ss)

abbrev pub same_level : Level → Level → Bool
same_level k l = eqb (level_index k) (level_index l)

-- `none` is the ValueError of min() where there is no signal.
unfoldable pub headline : CharterDrift → Option DriftSignal
headline d =
    least_of (all_where (λ (s : DriftSignal). same_level s.level (drift_level d)) d.signals)

unfoldable pub level_name : Level → String
level_name level_none = "none"
level_name minor = "minor"
level_name notable = "notable"
level_name major = "major"

evidence_line : DriftSignal → String
evidence_line s =
    if s.evidence == ""
    then concat ("[" ∷ level_name s.level ∷ "] " ∷ s.detail ∷ [])
    else concat ("[" ∷ level_name s.level ∷ "] " ∷ s.detail ∷ " — " ∷ s.evidence ∷ [])

unfoldable pub lines_of : List DriftSignal → List String
unfolding evidence_line
lines_of [] = []
lines_of (s ∷ ss) = evidence_line s ∷ lines_of ss

unfoldable pub evidence_lines : CharterDrift → List String
evidence_lines d = lines_of (
    all_where (λ (s : DriftSignal). same_level s.level notable || same_level s.level major)
      d.signals)
