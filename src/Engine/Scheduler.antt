-- ===== src/Engine/Scheduler.antt =====
-- The scheduler of prflagger/engine/scheduler.py around its queue: what is pending for each pull
-- request, the runs in flight, the `runs` table and the event log that it writes. A method is a
-- function of the state; the identifier that `run_id()` draws and the time that the method reads
-- are arguments. Log messages are left out.
pub mod Create
pub mod Outcome
pub mod Submit
pub mod Requeue
pub mod Lost
use Prim.Native.String.{◌++◌ as join}
use pr_review.Prelude.{
  ℕ, zero, suc, ◌/◌, ◌%◌, String, Bool, true, false, not, Option, none, some, List, [], ◌∷◌, ◌++◌,
  ◌==◌, ◌&&◌, ◌||◌, ltb, eqb, if◌then◌else◌, Dict, get, put, contains,
}
use pr_review.Core.Models.{RunState, queued, done, failed, cancelled, PullRequest, Run, state_eq}
use pr_review.Storage.Runs.{Table, put_run, set_run_state, latest_run, retarget, supersede}
use pr_review.Engine.Queue.{Queue, enqueue}

pub record Config : Type 0 where
  pub max_queue_depth : ℕ
  pub debounce_s : ℕ

pub record Pending : Type 0 where
  pub pull : PullRequest
  pub trigger : String
  pub run_id : String
  pub queued_at : ℕ

-- The events of the scheduler, of recovery and of the watcher, with the payload that says what happened to a run.
-- (The titles, authors and commits that `run.queued` also carries are left out.)
pub data Event : Type 0 where
  rejected : (repo run_id : String) (depth cap : ℕ) → Event
  run_queued :
      (run_id repo : String) (pr : ℕ) (trigger : String) (supersedes : Option String) → Event
  run_retargeted : (run_id repo : String) (pr : ℕ) (head_sha : String) → Event
  run_state : (run_id : String) (state : RunState) → Event
  run_recovered : (run_id repo : String) (pr : ℕ) (interrupted_at : RunState) → Event
  service_recovered : (runs containers : ℕ) → Event
  pull_changed : (repo : String) (pr : ℕ) (head_sha reason : String) → Event
  watcher_error : (repo error : String) → Event
  watcher_polled : (queued repos : ℕ) → Event

pub record Scheduler : Type 0 where
  pub queue : Queue
  pub pending : Dict Pending
  pub active : List String
  pub store : Table
  pub events : List Event

-- str(int)
digit : ℕ → String
digit n =
    if eqb n 0
    then "0"
    else if eqb n 1
    then "1"
    else if eqb n 2
    then "2"
    else if eqb n 3
    then "3"
    else if eqb n 4
    then "4"
    else if eqb n 5
    then "5"
    else if eqb n 6
    then "6"
    else if eqb n 7
    then "7"
    else if eqb n 8
    then "8"
    else "9"

decimal_from : ℕ → ℕ → String
unfolding digit
decimal_from zero n = ""
decimal_from (suc fuel) n =
    let front = decimal_from fuel (n / 10) in
    if ltb n 10 then digit n else join front (digit (n % 10))

-- f"{repo}#{number}"; a number has fewer digits than its value plus one.
unfoldable pub key_of : String → ℕ → String
unfolding decimal_from
key_of repo number = join repo (join "#" (decimal_from (suc number) number))

unfoldable pub emit : Event → Scheduler → Scheduler
emit e s = record s { events = s.events ++ e ∷ [] }

pub noted : Config → String → String → Scheduler → Queue × Bool → Scheduler × Bool
unfolding emit
noted cfg repo identifier s (q, true) = (record s { queue = q }, true)
noted cfg repo identifier s (q, false) =
    (emit (rejected repo identifier q.depth cfg.max_queue_depth) (record s { queue = q }), false)

-- `_enqueue`, with the event of a refusal.
unfoldable pub enqueue_run : Config → String → String → Scheduler → Scheduler × Bool
unfolding noted
enqueue_run cfg repo identifier s =
    noted cfg repo identifier s (enqueue cfg.max_queue_depth repo identifier s.queue)

-- The previous run is marked unless it is done.
pub supersede_previous : Option Run → String → Table → Table
supersede_previous none by rows = rows
supersede_previous (some run) by rows =
    if not (state_eq run.state done) then supersede run.id by rows else rows

id_of : Option Run → Option String
id_of none = none
id_of (some run) = some run.id

unfoldable pub new_run : ℕ → String → PullRequest → String → Run
new_run now identifier pull trigger = record {
  id = identifier;
  repo = pull.repo;
  pr_number = pull.number;
  base_sha = pull.base_sha;
  head_sha = pull.head_sha;
  state = queued;
  trigger = trigger;
  created_at = now;
  started_at = none;
  finished_at = none;
  error = "";
  usd_spent = 0;
}

-- `_create`
unfoldable pub create : ℕ → String → PullRequest → String → Scheduler → Scheduler
unfolding supersede_previous id_of new_run emit
create now identifier pull trigger s =
    let previous = latest_run pull.repo pull.number s.store in
    emit (run_queued identifier pull.repo pull.number trigger (id_of previous)) (record s {
      store =
          supersede_previous previous identifier
            (put_run now (new_run now identifier pull trigger) s.store);
    })

pub full_message : Config → String
unfolding decimal_from
full_message cfg = join "queue is full (" (
    join (decimal_from (suc cfg.max_queue_depth) cfg.max_queue_depth)
      " waiting); this run was not admitted. Raise server.max_queue_depth or add sandbox capacity.")

-- The end of `submit`, once `_enqueue` has answered: a pending run, or one that is cancelled.
pub conclude :
    Config → ℕ → String → PullRequest → String → Scheduler × Bool → Option String × Scheduler
conclude cfg now identifier pull trigger (s, true) = (
  some identifier,
  record s {
    pending =
        put s.pending (key_of pull.repo pull.number)
          (record { pull = pull; trigger = trigger; run_id = identifier; queued_at = now });
  },
)
conclude cfg now identifier pull trigger (s, false) =
    (none, record s { store = set_run_state now identifier cancelled (full_message cfg) s.store })

unfoldable pub submit_new :
    Config → ℕ → String → PullRequest → String → Scheduler → Option String × Scheduler
unfolding conclude
submit_new cfg now identifier pull trigger s =
    conclude cfg now identifier pull trigger
      (enqueue_run cfg pull.repo identifier (create now identifier pull trigger s))

-- A run of the same pull request still waits: it is pointed at the newest commits.
pub redirect : PullRequest → String → Pending → Scheduler → Option String × Scheduler
unfolding emit
redirect pull trigger pending s = (
  some pending.run_id,
  emit (run_retargeted pending.run_id pull.repo pull.number pull.head_sha) (record s {
    pending =
        put s.pending (key_of pull.repo pull.number)
          (record pending { pull = pull; trigger = trigger });
    store = retarget pending.run_id pull.base_sha pull.head_sha s.store;
  }),
)

unfoldable pub same_answer : PullRequest → Option Run → Bool
same_answer pull none = false
same_answer pull (some run) =
    run.head_sha == pull.head_sha && not (state_eq run.state failed || state_eq run.state cancelled)

submit_pending :
    Config
    → ℕ
    → String
    → PullRequest
    → String
    → Option Pending
    → Scheduler
    → Option String × Scheduler
submit_pending cfg now identifier pull trigger none s = submit_new cfg now identifier pull trigger s
submit_pending cfg now identifier pull trigger (some pending) s =
    if not (pending.run_id == "")
    then redirect pull trigger pending s
    else submit_new cfg now identifier pull trigger s

unfoldable pub submit :
    Config → ℕ → String → PullRequest → String → Bool → Scheduler → Option String × Scheduler
unfolding submit_pending
submit cfg now identifier pull trigger force s =
    if pull.base_sha == "" || pull.head_sha == ""
    then (none, s)
    else if force
    then submit_new cfg now identifier pull trigger s
    else if same_answer pull (latest_run pull.repo pull.number s.store)
    then (none, s)
    else submit_pending cfg now identifier pull trigger
        (get s.pending (key_of pull.repo pull.number)) s

-- The result of `_enqueue` is not read.
unfoldable pub requeue : Config → ℕ → Run → Scheduler → Scheduler
unfolding emit
requeue cfg now run s =
    let (s', admitted) =
      enqueue_run cfg run.repo run.id
        (record s { store = set_run_state now run.id queued "" s.store }) in
    emit (run_queued run.id run.repo run.pr_number "recovery" none) s'

unfoldable pub cancel : ℕ → String → Scheduler → Bool × Scheduler
unfolding emit
cancel now identifier s = (
  contains identifier s.active,
  emit (run_state identifier cancelled)
      (record s { store = set_run_state now identifier cancelled "cancelled by request" s.store }),
)
