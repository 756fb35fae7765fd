-- ===== src/Storage/Findings.antt =====
-- The tables of jobs, observations, adjudications and suggestions in prflagger/storage/repos.py. A
-- column that holds JSON is the value that it holds.
pub mod Laws
use pr_review.Prelude.{
  ℕ, String, Bool, true, false, Option, none, some, List, [], ◌∷◌, ◌++◌, ◌==◌, ◌&&◌, ◌||◌, eqb, leb,
  ltb, if◌then◌else◌, first_where, all_where, upsert_child, some_where, sort_by, text_le, Dict, put,
}
use pr_review.Storage.Runs.{Row, Table}
use pr_review.Core.Records.{Observation, Adjudication, Suggestion, Citation}

pub record Job : Type 0 where
  pub id : String
  pub run_id : Option String
  pub idempotency_key : Option String
  pub stage : Option String
  pub image_tag : Option String
  pub argv : Option (List String)
  pub outcome : Option String
  pub exit_code : Option ℕ
  pub duration_s : Option ℕ
  pub peak_rss_mb : Option ℕ
  pub memory_mb : Option ℕ
  pub timeout_s : Option ℕ
  pub log_path : Option String
  pub started_at : Option ℕ
  pub finished_at : Option ℕ

abbrev text_or : String → Option String → Option String
text_or default none = some default
text_or default (some s) = if s == "" then some default else some s

abbrev argv_or : Option (List String) → Option (List String)
argv_or none = some []
argv_or (some argv) = some argv

-- The values that `put_job` binds.
unfoldable pub job_row : Job → Job
job_row j = record j {
  argv = argv_or j.argv;
  idempotency_key = text_or "" j.idempotency_key;
  image_tag = text_or "" j.image_tag;
  log_path = text_or "" j.log_path;
  stage = text_or "unknown" j.stage;
}

abbrev job_updated : Job → Job → Job
job_updated new old = record new { id = old.id; run_id = old.run_id }

-- REFERENCES runs(id)
abbrev pub has_run : String → Table → Bool
has_run id runs = some_where (λ (r : Row). r.run.id == id) runs

-- A job without a run is refused (NOT NULL) before anything else is looked at. Here and below: the
-- table, and whether the statement was accepted or raised.
write_job : Option String → Table → Job → List Job → Bool × List Job
write_job none runs j rows = (false, rows)
write_job (some run_id) runs j rows =
    upsert_child (has_run run_id runs) (λ r. r.id == j.id) (job_updated j) j rows

unfoldable pub put_job : Table → Job → List Job → Bool × List Job
unfolding job_row write_job
put_job runs j rows = write_job j.run_id runs (job_row j) rows

abbrev is_run : String → Option String → Bool
is_run run_id none = false
is_run run_id (some id) = id == run_id

-- ORDER BY started_at, id: a missing time comes first.
abbrev time_lt : Option ℕ → Option ℕ → Bool
time_lt none none = false
time_lt none (some _) = true
time_lt (some _) none = false
time_lt (some s) (some t) = ltb s t

job_le : Job → Job → Bool
job_le a b =
    time_lt a.started_at b.started_at
    || (if time_lt b.started_at a.started_at then false else text_le a.id b.id)

unfoldable pub jobs : String → List Job → List Job
unfolding job_le
jobs run_id rows = sort_by job_le (all_where (λ (j : Job). is_run run_id j.run_id) rows)

-- ON CONFLICT(id): what a probe found stays, what was judged of it is written again.
abbrev pub observation_updated : Observation → Observation → Observation
observation_updated new old = record old {
  rank_score = new.rank_score;
  confidence = new.confidence;
  relevance = new.relevance;
  relevance_note = new.relevance_note;
  norm_id = new.norm_id;
}

abbrev pub is_observation : String → Observation → Bool
is_observation id o = o.id == id

unfoldable pub put_observation : Table → Observation → List Observation → Bool × List Observation
put_observation runs o rows =
    upsert_child (has_run o.run_id runs) (is_observation o.id) (observation_updated o) o rows

-- Each row is committed by itself: those before one that is refused stay.
unfoldable pub put_observations :
    Table → List Observation → List Observation → Bool × List Observation
unfolding put_observation
put_observations runs [] rows = (true, rows)
put_observations runs (o ∷ os) rows =
    let put = put_observation runs o rows in
    let rest = put_observations runs os put.1 in if put.0 then rest else put

-- ORDER BY rank_score DESC, id
unfoldable pub observation_le : Observation → Observation → Bool
observation_le a b =
    ltb b.rank_score a.rank_score || (eqb a.rank_score b.rank_score && text_le a.id b.id)

unfoldable pub observations : String → List Observation → List Observation
unfolding observation_le
observations run_id rows =
    sort_by observation_le (all_where (λ (o : Observation). o.run_id == run_id) rows)

-- REFERENCES observations(id)
abbrev has_observation : String → List Observation → Bool
has_observation id os = some_where (is_observation id) os

unfoldable pub put_adjudication :
    List Observation → Adjudication → List Adjudication → Bool × List Adjudication
put_adjudication os a rows =
    upsert_child (has_observation a.observation_id os) (λ r. r.observation_id == a.observation_id)
      (λ old. record a { observation_id = old.observation_id }) a rows

unfoldable pub put_suggestion :
    List Observation → Suggestion → List Suggestion → Bool × List Suggestion
put_suggestion os s rows =
    upsert_child (has_observation s.observation_id os) (λ r. r.observation_id == s.observation_id)
      (λ old. record s { observation_id = old.observation_id }) s rows

-- JOIN observations o ON o.id = a.observation_id WHERE o.run_id = ?
abbrev of_run : String → List Observation → String → Bool
of_run run_id [] id = false
of_run run_id (o ∷ os) id = (o.id == id && o.run_id == run_id) || of_run run_id os id

abbrev cited : List Citation → Bool
cited [] = false
cited (c ∷ cs) = true

-- A row without citations is not shown.
unfoldable pub adjudications : String → List Observation → List Adjudication → Dict Adjudication
adjudications run_id os [] = []
adjudications run_id os (a ∷ rows) =
    let rest = adjudications run_id os rows in
    if of_run run_id os a.observation_id && cited a.citations
    then (a.observation_id, a) ∷ rest
    else rest

unfoldable pub suggestions : String → List Observation → List Suggestion → Dict Suggestion
suggestions run_id os [] = []
suggestions run_id os (s ∷ rows) =
    let rest = suggestions run_id os rows in
    if of_run run_id os s.observation_id && cited s.citations
    then (s.observation_id, s) ∷ rest
    else rest
