-- ===== src/Storage/Findings/Laws.antt =====
-- What a probe found is not written over.
use pr_review.Prelude.{
  String, ◌≡◌, refl, ◌∙◌, subst, some, List, [], ◌∷◌, ◌==◌, arith, eq_iff, first_where, Bool, true,
  false, ◌||◌, if◌then◌else◌, some_where, upsert_child, upsert_where, upsert_where-same,
  upsert_where-other, Bool-cases, inl, inr,
}
use pr_review.Core.Records.{Observation}
use pr_review.Storage.Runs.{Table}
use pr_review.Storage.Findings.{
  is_observation, observation_updated, has_run, put_observation, put_observations,
}

-- The fact itself, without what was judged of it.
abbrev pub fact : Observation → Observation
fact o = record o {
  rank_score = 0;
  confidence = 0;
  relevance = "";
  relevance_note = "";
  norm_id = "";
}

-- The statement, where it is accepted.
abbrev write_observation : Observation → List Observation → List Observation
write_observation o rows = upsert_where (is_observation o.id) (observation_updated o) o rows

write_observation-Keeps :
    (o old : Observation) (rows : List Observation) (id : String)
    → first_where (is_observation id) rows ≡ some old
    → (new : Observation) × (first_where (is_observation id) (write_observation o rows) ≡ some new)
      × (fact new ≡ fact old)
write_observation-Keeps o old rows id found = elim (Bool-cases (o.id == id)) [
  | inl same ↦ (
    observation_updated o old,
    subst
        (λ i.
          first_where (is_observation i) (write_observation o rows)
          ≡ some (observation_updated o old))
        (ground (arith, eq_iff o.id id))
        (upsert_where-same (is_observation o.id) (observation_updated o) o rows (some old)
          (ground (arith, eq_iff o.id o.id)) (λ y h. h)
          (subst (λ i. first_where (is_observation i) rows ≡ some old)
            (ground (arith, eq_iff o.id id)) found)),
    refl,
  )
  | inr other ↦ (
    old,
    upsert_where-other (is_observation o.id) (is_observation id) (observation_updated o) o rows
          (λ y h. ground (arith, eq_iff y.id o.id, eq_iff y.id id, eq_iff o.id id))
          (λ y h. ground (arith, eq_iff y.id o.id, eq_iff y.id id, eq_iff o.id id)) other
        ∙ found,
    refl,
  )
]

-- What stands under an identifier still states the same fact.
abbrev pub Keeps : String → Observation → List Observation → Type 0
Keeps id old rows =
    (new : Observation) × (first_where (is_observation id) rows ≡ some new) × (fact new ≡ fact old)

if-Keeps :
    (b : Bool) (id : String) (old : Observation) (xs ys : Bool × List Observation)
    → Keeps id old xs.1
    → Keeps id old ys.1
    → Keeps id old (if b then xs else ys).1
if-Keeps true id old xs ys k l = k
if-Keeps false id old xs ys k l = l

put_observation-Keeps :
    (runs : Table) (o old : Observation) (rows : List Observation) (id : String)
    → first_where (is_observation id) rows ≡ some old
    → Keeps id old (put_observation runs o rows).1
unfolding put_observation upsert_child
put_observation-Keeps runs o old rows id found =
    if-Keeps (has_run o.run_id runs || some_where (is_observation o.id) rows) id old
      (true, write_observation o rows) (false, rows) (write_observation-Keeps o old rows id found)
      (old, found, refl)

-- Whatever observations are written later, accepted or refused, one that is stored stays stored, and all
-- but its score, its confidence, its relevance and its norm stays as the probe found it.
pub put_observations-fact :
    (runs : Table) (os rows : List Observation) (id : String) (old : Observation)
    → first_where (is_observation id) rows ≡ some old
    → (new : Observation) × (first_where (is_observation id) (put_observations runs os rows).1
        ≡ some new)
      × (fact new ≡ fact old)
unfolding put_observations
put_observations-fact runs [] rows id old found = (old, found, refl)
put_observations-fact runs (o ∷ os) rows id old found =
    let put = put_observation runs o rows in
    let step = put_observation-Keeps runs o old rows id found in
    let rest = put_observations-fact runs os put.1 id step.0 step.1 in
    if-Keeps put.0 id old (put_observations runs os put.1) put (rest.0, rest.1, rest.2 ∙ step.2)
      step
