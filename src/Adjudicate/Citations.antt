-- ===== src/Adjudicate/Citations.antt =====
-- prflagger/adjudicate/citations.py: resolve, which checks every reference that a model makes. The lines
-- of a file in one of the two trees are an argument, and so is that there is none: a path that leaves
-- the tree, that is no file or that cannot be read. An identifier that the evidence holds is not empty.
pub mod Held
use Prim.Native.Char.{code}
use pr_review.Prelude.{
  ℕ, suc, zero, ◌+◌, ◌-◌, String, Bool, true, false, not, Option, none, some, List, [], ◌∷◌, ◌==◌,
  ◌&&◌, ◌||◌, eqb, ltb, leb, if◌then◌else◌, contains, length, after_text, before, begins, includes,
  take_text, strip_text, words, occurs, join_with, leading_number, Dict, get, limit_rows, join,
}
use pr_review.Core.Records.{Citation}

-- Whether a file is asked for at the base or at the head.
pub data Side : Type 0 where
  base head : Side

pub record Evidence : Type 0 where
  pub read : Side → String → Option (List String)
  pub norm_ids : List String
  pub test_ids : List String
  pub changed_paths : List String
  pub charter_sources : Dict String

-- Whitespace-insensitive containment.
unfoldable pub contains_text : String → String → Bool
contains_text haystack needle =
    occurs (join_with " " (words needle)) (join_with " " (words haystack))

pub record Place : Type 0 where
  pub side : Side
  pub path : String
  pub first : ℕ
  pub last : ℕ

-- :(\d+)(?:-(\d+))?$ after the colon
unfoldable pub span : String → Option (ℕ × ℕ)
span s = elim (leading_number s) [
  | none ↦ none
  | some (first, rest) ↦ if rest == "" then some (first, first) else elim (after_text "-" rest) [
    | none ↦ none
    | some more ↦ elim (leading_number more) [
      | none ↦ none
      | some (last, end) ↦ if end == "" then some (first, last) else none
    ]
  ]
]

abbrev consed : String → Option (String × ℕ × ℕ) → Option (String × ℕ × ℕ)
consed c none = none
consed c (some (path, first, last)) = some (join c path, first, last)

-- The shortest path after which the lines follow; "." is no line break.
path_from : String → Option (String × ℕ × ℕ)
path_from String.[] = none
path_from (String.◌∷◌ c s) =
    let rest = path_from s in
    let longer = if eqb (code c) 10 then none else consed (String.◌∷◌ c String.[]) rest in
    if eqb (code c) b':'
    then elim (span s) [ none ↦ longer | some (first, last) ↦ some ("", first, last) ]
    else longer

-- The path has a character at least.
unfoldable pub path_and_lines : String → Option (String × ℕ × ℕ)
unfolding path_from
path_and_lines String.[] = none
path_and_lines (String.◌∷◌ c s) =
    if eqb (code c) 10 then none else consed (String.◌∷◌ c String.[]) (path_from s)

abbrev placed : Side → Option (String × ℕ × ℕ) → Option Place
placed side none = none
placed side (some (path, first, last)) =
    some (record { side = side; path = path; first = first; last = last })

on_side : Side → Option String → Option Place
on_side side none = none
on_side side (some rest) = placed side (path_and_lines rest)

abbrev or_else {ℓ} : {A : Type ℓ} → Option A → Option A → Option A
or_else none o = o
or_else (some a) o = some a

-- _CODE.match
unfoldable pub place_of : String → Option Place
unfolding on_side
place_of ref =
    or_else (on_side base (after_text "base:" ref))
      (or_else (on_side head (after_text "head:" ref)) (placed head (path_and_lines ref)))

abbrev max_span : ℕ
max_span = 120

-- ".." is a part of the path
unfoldable pub has_parent : String → Bool
has_parent path = includes "/../" (join "/" (join path "/"))

unfoldable pub in_bounds : Place → Bool
in_bounds p =
    not (ltb p.first 1 || ltb p.last p.first || ltb max_span (p.last - p.first))
    && not (begins "/" p.path || has_parent p.path)

drop_lines : ℕ → List String → List String
drop_lines zero lines = lines
drop_lines (suc n) [] = []
drop_lines (suc n) (l ∷ ls) = drop_lines n ls

-- "\n".join(lines[start - 1:end])
unfoldable pub excerpt : Place → List String → String
unfolding drop_lines
excerpt p lines = join_with "\n" (drop_lines (p.first - 1) (limit_rows p.last lines))

-- The quote is checked, or filled in where there is none.
unfoldable pub quoted : String → String → String → String → String → Option Citation
quoted type_ ref text quote fill =
    if not (quote == "") && not (contains_text text quote)
    then none
    else some (record { type_ = type_; ref = ref; quote = if quote == "" then fill else quote })

unfoldable pub at_lines : String → String → Place → Option (List String) → Option Citation
at_lines ref quote p none = none
at_lines ref quote p (some lines) =
    if ltb (length lines) p.last
    then none
    else quoted "code" ref (excerpt p lines) quote (take_text 200 (strip_text (excerpt p lines)))

unfoldable pub at_place : String → String → Evidence → Option Place → Option Citation
unfolding at_lines
at_place ref quote e none = none
at_place ref quote e (some p) =
    if in_bounds p then at_lines ref quote p (e.read p.side p.path) else none

unfoldable pub from_claim : String → String → Evidence → Option String → Option Citation
unfolding at_place
from_claim ref quote e none = at_place ref quote e (place_of ref)
from_claim ref quote e (some claim) = quoted "code" ref claim quote (take_text 200 claim)

-- `_resolve_code`
unfoldable pub resolve_code : String → String → Evidence → Option Citation
unfolding from_claim
resolve_code ref quote e = from_claim ref quote e (get e.charter_sources ref)

abbrev pub when_held : Bool → String → String → String → Option Citation
when_held held type_ ref quote =
    if held then some (record { type_ = type_; ref = ref; quote = quote }) else none

-- ref.split(":", 1)[0].removeprefix("head:")
unfoldable pub diff_path : String → String
diff_path ref =
    let path = before ":" ref in elim (after_text "head:" path) [ none ↦ path | some rest ↦ rest ]

unfoldable pub resolve : Citation → Evidence → Option Citation
resolve c e =
    let ref = strip_text c.ref in
    if c.type_ == "norm"
    then when_held (contains ref e.norm_ids) "norm" ref c.quote
    else if c.type_ == "test"
    then when_held (contains ref e.test_ids) "test" ref c.quote
    else if c.type_ == "diff"
    then when_held (contains (diff_path ref) e.changed_paths) "diff" ref c.quote
    else if c.type_ == "code"
    then resolve_code ref c.quote e
    else none
