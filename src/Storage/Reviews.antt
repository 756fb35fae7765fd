-- ===== src/Storage/Reviews.antt =====
-- Review comments, the state of the brain and the norms in prflagger/storage/repos.py. A column that
-- holds JSON is the value that it holds.
pub mod Norms
use pr_review.Prelude.{
  ℕ, ◌+◌, ◌-◌, String, Bool, true, false, not, Option, none, some, List, [], ◌∷◌, ◌++◌, ◌==◌, ◌&&◌,
  ◌||◌, eqb, leb, ltb, if◌then◌else◌, first_where, all_where, drop_where, update_where,
  upsert_where, replace_where, insert_new, sort_by, limit_rows, text_le, length, contains, Dict,
  get, put,
}
use pr_review.Core.Records.{Norm}

-- The key is what `_comment_key` gives: GitHub's id, or a digest.
pub record Comment : Type 0 where
  pub repo : String
  pub comment_key : String
  pub pr_number : ℕ
  pub reviewer : String
  pub body : String
  pub path : String
  pub html_url : String
  pub created_at : String
  pub enforced : Bool

abbrev is_comment : String → String → Comment → Bool
is_comment repo comment_key c = c.repo == repo && c.comment_key == comment_key

comment_updated : Comment → Comment → Comment
comment_updated new old = record old { body = new.body; enforced = new.enforced }

put_comments : String → List Comment → List Comment → List Comment
unfolding comment_updated
put_comments repo [] rows = rows
put_comments repo (c ∷ cs) rows =
    let c' = record c { repo = repo } in
    put_comments repo cs (upsert_where (is_comment repo c.comment_key) (comment_updated c') c' rows)

unfoldable pub review_counts : String → List Comment → ℕ × ℕ
review_counts repo rows = (
  length (all_where (λ (c : Comment). c.repo == repo) rows),
  length (all_where (λ (c : Comment). c.repo == repo && c.enforced) rows),
)

-- The change in the number of enforced comments, a number that may be negative: what is gained and
-- what is lost.
unfoldable pub put_review_comments : String → List Comment → List Comment → (ℕ × ℕ) × List Comment
unfolding put_comments
put_review_comments repo judged rows =
    let rows' = put_comments repo judged rows in
    let earlier = (review_counts repo rows).1 in
    let later = (review_counts repo rows').1 in ((later - earlier, earlier - later), rows')

-- ORDER BY created_at DESC
unfoldable pub review_comments : String → Bool → ℕ → List Comment → List Comment
review_comments repo enforced_only limit rows = limit_rows limit (
    sort_by (λ (a b : Comment). text_le b.created_at a.created_at)
      (all_where (λ (c : Comment). c.repo == repo && (if enforced_only then c.enforced else true))
        rows))

-- A row: the columns that are set, each as its text.
pub record BrainRow : Type 0 where
  pub repo : String
  pub fields : Dict String

abbrev brain_fields : List String
brain_fields =
    "harvested_through" ∷ "prs_seen" ∷ "built_at" ∷ "clustered_by" ∷ "named_by" ∷ "note" ∷ []

abbrev is_brain : String → BrainRow → Bool
is_brain repo r = r.repo == repo

unfoldable pub brain_state : String → List BrainRow → Option BrainRow
brain_state repo rows = first_where (is_brain repo) rows

all_known : Dict String → Bool
all_known [] = true
all_known ((name, v) ∷ rest) = contains name brain_fields && all_known rest

assign : Dict String → Dict String → Dict String
assign [] row = row
assign ((name, v) ∷ rest) row = assign rest (put row name v)

-- `none` is the ValueError for a field that the table does not have.
unfoldable pub put_brain_state : String → Dict String → List BrainRow → Option (List BrainRow)
unfolding all_known assign
put_brain_state repo fields rows =
    if all_known fields
    then some (
        update_where (is_brain repo) (λ r. record r { fields = assign fields r.fields })
          (insert_new (is_brain repo) (record { repo = repo; fields = [] }) rows).1)
    else none

pub record NormRow : Type 0 where
  pub repo : String
  pub norm : Norm

abbrev pub is_norm : String → String → NormRow → Bool
is_norm repo id r = r.repo == repo && r.norm.id == id

abbrev pub is_from : String → String → NormRow → Bool
is_from repo source r = r.repo == repo && r.norm.source == source

unfoldable pub all_from : String → List Norm → Bool
all_from source [] = true
all_from source (n ∷ ns) = n.source == source && all_from source ns

unfoldable pub put_norms : String → List Norm → List NormRow → List NormRow
put_norms repo [] rows = rows
put_norms repo (n ∷ ns) rows =
    put_norms repo ns (replace_where (is_norm repo n.id) (record { repo = repo; norm = n }) rows)

-- `none` is the ValueError for a norm from another source.
unfoldable pub replace_norms : String → String → List Norm → List NormRow → Option (List NormRow)
replace_norms repo source norms rows =
    if all_from source norms
    then some (put_norms repo norms (drop_where (is_from repo source) rows))
    else none

-- ORDER BY source = 'mined', confidence DESC, support DESC, id
norm_le : NormRow → NormRow → Bool
norm_le a b =
    let m = a.norm.source == "mined" in
    let n = b.norm.source == "mined" in
    if not m && n
    then true
    else if m && not n
    then false
    else if ltb b.norm.confidence a.norm.confidence
    then true
    else if ltb a.norm.confidence b.norm.confidence
    then false
    else if ltb b.norm.support a.norm.support
    then true
    else if ltb a.norm.support b.norm.support
    then false
    else text_le a.norm.id b.norm.id

norms_in : List NormRow → List Norm
norms_in [] = []
norms_in (r ∷ rs) = r.norm ∷ norms_in rs

unfoldable pub norms : String → List NormRow → List Norm
unfolding norm_le norms_in
norms repo rows = norms_in (sort_by norm_le (all_where (λ (r : NormRow). r.repo == repo) rows))

norm_found : Option NormRow → Option Norm
norm_found none = none
norm_found (some r) = some r.norm

unfoldable pub norm : String → String → List NormRow → Option Norm
unfolding norm_found
norm repo id rows = norm_found (first_where (is_norm repo id) rows)
