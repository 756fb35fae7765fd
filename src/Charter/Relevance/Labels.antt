-- ===== src/Charter/Relevance/Labels.antt =====
-- Findings are labelled by their own repository's charter, and none is lost.
use pr_review.Prelude.{
  String, ◌≡◌, ◌≢◌, refl, ap, ◌∙◌, Bool, true, false, Option, none, some, List, [], ◌∷◌, ◌==◌, ◌||◌,
  if◌then◌else◌, contains, All, map, ends, arith, eq_iff,
}
use pr_review.Core.Records.{Charter, Observation}
use pr_review.Charter.Relevance.{
  label, peripheral_roots, begins_any, path_of, label_api, label_other, labelled, classify,
  grounded_by, grounded, ◌>>=◌, behavioural, module_for, entry_point_for, if_named,
}

-- An observation without its label.
abbrev pub unlabelled : Observation → Observation
unlabelled o = record o { relevance = ""; relevance_note = "" }

abbrev pub relevances : List String
relevances = "core" ∷ "supporting" ∷ "peripheral" ∷ []

-- What is true of the label of an observation.
pub record IsLabelled (o : Observation) : Type 0 where
  pub known : contains o.relevance relevances ≡ true
  pub behaviour : contains o.kind behavioural ≡ true → o.relevance ≡ "core"

is_known : String × String → Bool
is_known l = contains l.0 relevances

known_if :
    (b : Bool) (l m : String × String)
    → is_known l ≡ true
    → is_known m ≡ true
    → is_known (if b then l else m) ≡ true
known_if true l m h k = h
known_if false l m h k = k

known_api :
    (o : Observation) (c : Charter) (entry : Option String) (where' : String)
    → is_known (label_api o c entry where') ≡ true
unfolding label_api contains is_known
known_api o c (some e) where' = refl
known_api o c none where' =
    known_if (contains o.symbol c.public_api || ends "was added" o.what_changed) _ _ refl refl

known_other :
    (c : Charter) (entry : Option String) (m : Option (String × String × String)) (where' : String)
    → is_known (label_other c entry m where') ≡ true
unfolding label_other contains is_known
known_other c (some e) m where' = refl
known_other c none (some m) where' = refl
known_other c none none where' = refl

known_label : (o : Observation) (c : Charter) → is_known (label o c) ≡ true
unfolding label contains is_known
known_label o c = known_if (contains o.kind behavioural) _ _ refl (
    known_if (o.kind == "api_change") _ _ (known_api o c (if_named (entry_point_for c o.symbol)) _)
      (known_if (begins_any peripheral_roots (path_of o) || begins_any peripheral_roots o.symbol) _
        _ refl
        (known_other c (if_named (entry_point_for c o.symbol)) (module_for c o.symbol (path_of o))
          _)))

core_label :
    (o : Observation) (c : Charter) → contains o.kind behavioural ≡ true → (label o c).0 ≡ "core"
unfolding label
core_label o c h = rw h refl

labels_of : (c : Charter) (o : Observation) → IsLabelled (labelled o (label o c))
labels_of c o = record {
  known = unfold is_known in known_label o c;
  behaviour = λ h. core_label o c h;
}

-- What `grounded` gives for a repository's own charter.
pub record IsGrounded (os labelled_os : List Observation) : Type 0 where
  pub kept : map unlabelled labelled_os ≡ map unlabelled os
  pub labels : All IsLabelled labelled_os

own-IsGrounded :
    (c : Charter) (repo : String) (os : List Observation)
    → c.repo ≡ repo
    → (out : List Observation) × (grounded_by c repo os ≡ some out) × IsGrounded os out
unfolding grounded_by classify
own-IsGrounded c repo [] e = ([], refl, record { kept = refl; labels = tt })
own-IsGrounded c repo (o ∷ os) e =
    let rest = own-IsGrounded c repo os e in
    (
      labelled o (label o c) ∷ rest.0,
      ap (λ l. l >>= (λ k. grounded_by c repo os >>= (λ r. some (labelled o k ∷ r)))) (own o)
          ∙ ap (λ r. r >>= (λ r'. some (labelled o (label o c) ∷ r'))) rest.1,
      record {
        kept = ap (λ l. unlabelled o ∷ l) rest.2.kept;
        labels = (labels_of c o, rest.2.labels);
      },
    )
  where
    own : (x : Observation) → classify x c repo ≡ some (label x c)
    own x = ground (arith, eq_iff c.repo repo)

-- By their own repository's charter all observations are judged: they come back in their order, and in
-- each only the label and its note are new; the label is one of the three, and "core" where the kind is a
-- change of behaviour.
pub grounded-IsGrounded :
    (os : List Observation) (c : Charter) (repo : String)
    → c.repo ≡ repo
    → (out : List Observation) × (grounded os (some c) repo ≡ some out) × IsGrounded os out
unfolding grounded
grounded-IsGrounded os c repo e = own-IsGrounded c repo os e

-- By another repository's charter, no list with an observation is judged.
pub grounded_refused :
    (o : Observation) (os : List Observation) (c : Charter) (repo : String)
    → c.repo ≢ repo
    → grounded (o ∷ os) (some c) repo ≡ none
unfolding grounded grounded_by classify
grounded_refused o os c repo ne =
    ap (λ l. l >>= (λ k. grounded_by c repo os >>= (λ r. some (labelled o k ∷ r)))) refused
  where
    refused : classify o c repo ≡ none
    refused = ground (arith, eq_iff c.repo repo)
