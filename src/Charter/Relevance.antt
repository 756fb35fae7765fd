-- ===== src/Charter/Relevance.antt =====
-- prflagger/charter/relevance.py: how close a finding sits to what its repository is for.
pub mod Labels
use pr_review.Prelude.{
  ℕ, String, Bool, true, false, not, Option, none, some, List, [], ◌∷◌, ◌==◌, ◌&&◌, ◌||◌, ltb,
  if◌then◌else◌, contains, join, concat, begins, before, includes, after_first, ends,
  without_suffix, replace_char, text_length, take_text,
}
use pr_review.Core.Records.{Charter, Observation, Millionths, one_whole}

-- WEIGHT.get(relevance, 1.0)
unfoldable pub weight_of : String → Millionths
weight_of relevance =
    if relevance == "supporting"
    then 750000
    else if relevance == "peripheral"
    then 400000
    else one_whole

abbrev pub peripheral_roots : List String
peripheral_roots =
    "tests/" ∷ "test/" ∷ "testing/" ∷ "docs/" ∷ "doc/" ∷ "examples/" ∷ "example/" ∷ "benchmarks/"
    ∷ "bench/" ∷ ".github/" ∷ "scripts/" ∷ "tools/" ∷ "ci/" ∷ []

abbrev pub behavioural : List String
behavioural = "behavior_change" ∷ "timeout" ∷ "oom" ∷ "collection_error" ∷ []

unfoldable pub begins_any : List String → String → Bool
begins_any [] s = false
begins_any (p ∷ ps) s = begins p s || begins_any ps s

unfoldable pub path_of : Observation → String
path_of o =
    if includes "::" o.evidence_ref
    then before "::" o.evidence_ref
    else if includes ":" o.evidence_ref
    then before ":" o.evidence_ref
    else o.evidence_ref

dot : String → String
dot s = concat ("." ∷ s ∷ "." ∷ [])

unfoldable pub within : String → String → Bool
unfolding dot
within candidate name = not (candidate == "") && includes (dot name) (dot candidate)

-- A documented module: its name, its first line, and where that stands.
abbrev Module : Type 0
Module = String × String × String

abbrev better : Option Module → Module → Option Module
better none m = some m
better (some best) m = if ltb (text_length best.0) (text_length m.0) then some m else some best

module_from : Option Module → List Module → String → String → Option Module
module_from best [] symbol dotted = best
module_from best (m ∷ ms) symbol dotted =
    module_from (if within symbol m.0 || within dotted m.0 then better best m else best) ms symbol
      dotted

unfoldable pub module_for : Charter → String → String → Option Module
unfolding module_from
module_for c symbol path =
    module_from none c.modules symbol (replace_char "/" "." (without_suffix ".py" path))

reached_from : String → String → Bool
reached_from name symbol =
    not (name == "")
    && not (symbol == "")
    && (symbol == name
        || begins (join name ".") symbol
        || begins name (replace_char ":" "." symbol))

entry_from : List String → String → Option String
unfolding reached_from
entry_from [] symbol = none
entry_from (e ∷ es) symbol =
    let rest = entry_from es symbol in
    if reached_from (before ":" (after_first " = " e)) symbol then some (before " = " e) else rest

unfoldable pub entry_point_for : Charter → String → Option String
unfolding entry_from
entry_point_for c symbol = entry_from c.entry_points symbol

-- `if entry:`, an empty name counts as none.
abbrev pub if_named : Option String → Option String
if_named none = none
if_named (some name) = if name == "" then none else some name

abbrev where_text : Option Module → String
where_text none = ""
where_text (some (name, says, source)) =
    concat (" — in " ∷ name ∷ ": “" ∷ says ∷ "” (" ∷ source ∷ ")" ∷ [])

purpose_note : Charter → String
purpose_note c =
    if c.summary == ""
    then ""
    else concat (" — " ∷ c.name ∷ " is for: “" ∷ take_text 90 c.summary ∷ "”" ∷ [])

abbrev first_text : String → String → String
first_text s t = if s == "" then t else s

-- An `api_change`.
unfoldable pub label_api : Observation → Charter → Option String → String → String × String
label_api o c (some entry) where' =
    ("core", concat ("reached from the `" ∷ entry ∷ "` command" ∷ where' ∷ []))
label_api o c none where' =
    if contains o.symbol c.public_api || ends "was added" o.what_changed
    then ("core", concat ("part of the public surface " ∷ c.name ∷ " exposes" ∷ where' ∷ []))
    else ("supporting", join "not in the public surface this charter records" where')

unfoldable pub label_other : Charter → Option String → Option Module → String → String × String
label_other c (some entry) m where' =
    ("core", concat ("reached from the `" ∷ entry ∷ "` command" ∷ where' ∷ []))
label_other c none (some m) where' =
    ("supporting", concat ("inside " ∷ c.name ∷ "'s own code" ∷ where' ∷ []))
label_other c none none where' = ("supporting", "inside the repository's own code")

-- The label and the note, by the repository's own charter.
unfoldable pub label : Observation → Charter → String × String
unfolding path_of purpose_note label_api label_other begins_any
label o c =
    let path = path_of o in
    let m = module_for c o.symbol path in
    let entry = if_named (entry_point_for c o.symbol) in
    let where' = where_text m in
    if contains o.kind behavioural
    then ("core", join "changes what the program does" (first_text where' (purpose_note c)))
    else if o.kind == "api_change"
    then label_api o c entry where'
    else if begins_any peripheral_roots path || begins_any peripheral_roots o.symbol
    then (
      "peripheral",
      concat ("in " ∷ first_text path o.symbol ∷ ", outside the product itself" ∷ []),
    )
    else label_other c entry m where'

-- `none` is the ValueError for the charter of another repository.
unfoldable pub classify : Observation → Charter → String → Option (String × String)
classify o c repo = if c.repo == repo then some (label o c) else none

infixl 5 ◌>>=◌
abbrev pub ◌>>=◌ {ℓ κ} : {A : Type ℓ} {B : Type κ} → Option A → (A → Option B) → Option B
none >>= f = none
some a >>= f = f a

abbrev pub labelled : Observation → String × String → Observation
labelled o (relevance, note) = record o { relevance = relevance; relevance_note = note }

unfoldable pub grounded_by : Charter → String → List Observation → Option (List Observation)
grounded_by c repo [] = some []
grounded_by c repo (o ∷ os) = do
  l ← classify o c repo
  rest ← grounded_by c repo os
  some (labelled o l ∷ rest)

unfoldable pub grounded : List Observation → Option Charter → String → Option (List Observation)
grounded os none repo = some os
grounded os (some c) repo = grounded_by c repo os
