-- ===== src/Core/Records.antt =====
-- The other records of prflagger/core/models.py, and the checks that their constructors make. A number
-- between 0.0 and 1.0 is in millionths; that a negative one is refused is not seen here.
use pr_review.Prelude.{
  ℕ, String, Bool, not, Option, List, [], ◌∷◌, ◌==◌, ◌&&◌, leb, ltb, if◌then◌else◌, contains,
  includes, all_where, is_nil,
}

abbrev pub Millionths : Type 0
Millionths = ℕ

abbrev pub one_whole : Millionths
one_whole = 1000000

abbrev pub in_unit : Millionths → Bool
in_unit x = leb x one_whole

pub record Symbol : Type 0 where
  pub fqn : String
  pub kind : String
  pub file : String
  pub line_start : ℕ
  pub line_end : ℕ
  pub lang : String

pub record Norm : Type 0 where
  pub id : String
  pub statement : String
  pub scope : String
  pub support : ℕ
  pub distinct_reviewers : ℕ
  pub confidence : Millionths
  pub evidence_prs : List ℕ
  pub source : String
  pub quote : String
  pub evidence : List (ℕ × String × String)
  pub clustered_by : String
  pub named_by : String

pub record Repo : Type 0 where
  pub slug : String
  pub default_branch : String
  pub toolchain_id : String
  pub package_roots : List String
  pub added_at : ℕ
  pub atlas_sha : String
  pub charter_sha : String
  pub branch_head : String

pub record Observation : Type 0 where
  pub id : String
  pub run_id : String
  pub kind : String
  pub symbol : String
  pub what_changed : String
  pub how_we_know : String
  pub evidence_ref : String
  pub severity : Millionths
  pub confidence : Millionths
  pub rank_score : Millionths
  pub relevance : String
  pub relevance_note : String
  pub norm_id : String

-- `Observation.__post_init__` does not raise.
unfoldable pub observation_ok : Observation → Bool
observation_ok o =
    not (o.what_changed == "")
    && not (o.how_we_know == "")
    && in_unit o.confidence
    && in_unit o.severity

pub record Citation : Type 0 where
  pub type_ : String
  pub ref : String
  pub quote : String

abbrev citation_types : List String
citation_types = "norm" ∷ "code" ∷ "test" ∷ "diff" ∷ []

unfoldable pub citation_ok : Citation → Bool
unfolding contains
citation_ok c = contains c.type_ citation_types && not (c.ref == "")

pub record Adjudication : Type 0 where
  pub observation_id : String
  pub assessment : String
  pub reasoning : String
  pub citations : List Citation
  pub model : String
  pub usd : Millionths

abbrev assessments : List String
assessments =
    "consistent_with_repo" ∷ "diverges_from_repo" ∷ "insufficient_evidence" ∷ "probe_false_positive"
    ∷ []

unfoldable pub adjudication_ok : Adjudication → Bool
unfolding contains
adjudication_ok a =
    contains a.assessment assessments && not (is_nil a.citations) && not (a.reasoning == "")

pub record Suggestion : Type 0 where
  pub observation_id : String
  pub summary : String
  pub rationale : String
  pub patch_sketch : String
  pub confidence : Millionths
  pub citations : List Citation

unfoldable pub suggestion_ok : Suggestion → Bool
suggestion_ok s = not (s.summary == "") && not (is_nil s.citations) && in_unit s.confidence

pub record Claim : Type 0 where
  pub kind : String
  pub text : String
  pub source : String

abbrev claim_kinds : List String
claim_kinds = "summary" ∷ "purpose" ∷ "target" ∷ "capability" ∷ "constraint" ∷ []

-- The text is given as `strip` leaves it.
unfoldable pub claim_ok : Claim → Bool
unfolding contains includes
claim_ok c =
    contains c.kind claim_kinds
    && not (c.text == "")
    && not (c.source == "")
    && includes ":" c.source

pub record Charter : Type 0 where
  pub repo : String
  pub sha : String
  pub name : String
  pub summary : String
  pub claims : List Claim
  pub version : String
  pub license : String
  pub toolchain : String
  pub entry_points : List String
  pub modules : List (String × String × String)
  pub public_api : List String
  pub dependencies : List String
  pub standards : List String
  pub built_at : ℕ
  pub number : ℕ

unfoldable pub claims_of : String → Charter → List Claim
unfolding all_where
claims_of kind c = all_where (λ claim. claim.kind == kind) c.claims

-- DRIFT_LEVELS, from the quietest.
pub data Level : Type 0 where
  level_none minor notable major : Level

-- DRIFT_LEVELS.index
unfoldable pub level_index : Level → ℕ
level_index level_none = 0
level_index minor = 1
level_index notable = 2
level_index major = 3

pub record DriftSignal : Type 0 where
  pub kind : String
  pub level : Level
  pub detail : String
  pub evidence : String

pub record CharterDrift : Type 0 where
  pub repo : String
  pub from_sha : String
  pub to_sha : String
  pub signals : List DriftSignal

-- max(..., key=DRIFT_LEVELS.index): the first of the greatest.
unfoldable pub highest_level : Level → List DriftSignal → Level
unfolding level_index
highest_level top [] = top
highest_level top (s ∷ ss) =
    highest_level (if ltb (level_index top) (level_index s.level) then s.level else top) ss

unfoldable pub level_of : List DriftSignal → Level
unfolding highest_level
level_of [] = level_none
level_of (s ∷ ss) = highest_level s.level ss

-- `CharterDrift.level`
unfoldable pub drift_level : CharterDrift → Level
unfolding level_of
drift_level d = level_of d.signals

pub record Notification : Type 0 where
  pub id : String
  pub repo : String
  pub kind : String
  pub level : Level
  pub title : String
  pub body : String
  pub sha : String
  pub created_at : ℕ
  pub acknowledged_at : Option ℕ
  pub evidence : List String
