-- ===== src/Lib.antt =====
-- A model of the core of PR Flagger, a service that verifies pull requests of GitHub repositories in
-- sandboxes, with the theorems that make it correct.
--
-- The parts, and how they interact. The watcher, a webhook or a person submits a pull request to the
-- scheduler. The scheduler writes a row to the runs table, emits an event, and puts the run's
-- identifier on a bounded queue with one lane for each repository. Consumers take identifiers in
-- turn, wait for the pull request to settle, and hand the run to a worker. The worker moves the run
-- through its states, starts sandboxed jobs whose output is streamed, asks which lines the pull
-- request changes, and calls a model under the caps of a ledger. Every change is an event in a log,
-- which a client's socket replays from a cursor and then follows. At boot, recovery requeues the runs
-- that a crash left unfinished. A keeper rebuilds what the service remembers of a repository, its
-- charter, when the default branch moves, compares it with what it was, and announces how far it
-- moved; findings are ranked and labelled by the charter.
--
-- Which file models what:
--   Core/Models          prflagger/core/models.py: RunState, PullRequest, Run
--   Core/Ids             prflagger/core/ids.py: run_id, job_id, slug_key
--   Engine/States        prflagger/engine/states.py: ORDER, can_transition
--   Engine/Queue         prflagger/engine/scheduler.py: _enqueue is `enqueue`, a pass of _next is `next`
--   Engine/Scheduler     prflagger/engine/scheduler.py: submit, _create (`create`), requeue, cancel
--   Engine/Consumer      prflagger/engine/scheduler.py: _consume, cut at its awaits into `claim`,
--                        `launch` and `settle`
--   Engine/Recovery      prflagger/engine/recovery.py: recover
--   Engine/Life          the methods of the scheduler in any order
--   Engine/Notify        prflagger/engine/notify.py: raise_ (`raise`), notification_id
--   Engine/Watcher       prflagger/engine/watcher.py: _poll_repo (`poll_repo`), poll_once
--   Engine/Janitor       prflagger/engine/janitor.py: sweep, but for the images and the event log
--   Engine/Ranking       prflagger/engine/worker.py: _rank, _counts, the demotion in _adjudicate
--                        (`rank_adjudicated`), _attach_norms (`attach_norms`)
--   Charter/Signals, Drift, Headline
--                        prflagger/charter/drift.py: compare by its signals, headline, evidence_lines
--   Charter/Relevance    prflagger/charter/relevance.py: classify, grounded
--   Charter/Rebuild, Keeper
--                        prflagger/charter/keeper.py: _rebuild (`rebuild`); check, refresh
--   Storage/Runs         prflagger/storage/repos.py: the methods of Store on the runs table
--   Core/Records         prflagger/core/models.py: the other records, and what __post_init__ checks
--   Storage/Repos, Findings, Graph, Charters, Notices, Reviews
--                        prflagger/storage/repos.py: the methods of Store on the other tables
--   Storage/Events       prflagger/storage/events.py: the rows and subscriptions of EventBus
--   Api/Feed             prflagger/api/ws.py: stream_events, cut at its awaits into `connect`, `replay`,
--                        `go_live`, `serve` and `report`
--   Llm/Ledger           prflagger/llm/ledger.py: cost, worst_case, spent, reserve, release, and
--                        record as `record_call`
--   Llm/Client           prflagger/llm/client.py: ask, _trip
--   Adjudicate/Citations prflagger/adjudicate/citations.py: resolve, _resolve_code, _contains
--   Analysis/Diff        prflagger/analysis/diff.py: changed_ranges, _strip_prefix, _merge
--   Sandbox/Stream       prflagger/sandbox/stream.py: _Budget.allow, _Capture.keep, _drain
--   Sandbox/Pool         prflagger/sandbox/pool.py: docker_argv, and _classify as `classify`
--   Sandbox/Jobs         prflagger/sandbox/pool.py: run, _execute, cancel, and the cache of results
--   Prelude              names of the libraries, Boolean tests, lists of names and dictionaries
--   Scenarios            concrete runs, on which the theorems apply
--
-- How the model stands to the code. A method is a function of the state that it reads and writes; a
-- coroutine is cut where it awaits, so that the steps of several may interleave. What a method reads
-- from elsewhere is an argument: the time, the identifier or the random bytes that it draws, the
-- output of git, the reads from a pipe, the number of containers that Docker killed. Times are
-- numbers of ticks. Money is a number of micro-dollars, to which the program rounds, and the
-- products before rounding are exact where the program's are floats. The runs table is its rows in
-- the order of insertion. A statement that a foreign key is on gives back whether it was accepted, with
-- the table. An event carries what says what happened to a run; log messages are left
-- out. A transcript line goes to a sink: `on_line` is given. The digits of a number are computed
-- with its value plus one as fuel, which is more than it has digits; nothing else needs fuel.
--
-- A charter that is extracted from a checkout, the head that git names, the pull requests that GitHub
-- lists, the lines of a file in a tree, the answers of a model and of a webhook are arguments too. Python's tables of characters, difflib's ratio
-- and the texts of floats are arguments of the comparison of charters; fractions are in millionths.
--
-- Not modelled: start and stop of the scheduler's tasks, the worker's pipeline of stages, how a
-- charter becomes JSON, the replay of a transcript from disk, the prompts of the
-- adjudicator, the extraction of a charter, the tasks of the sandbox pool, the sweep of images, and what
-- only calls git, Docker, GitHub or a model or lays out pages.
pub mod Prelude
pub mod Core
pub mod Engine
pub mod Storage
pub mod Llm
pub mod Analysis
pub mod Sandbox
pub mod Api
pub mod Scenarios
pub mod Charter
pub mod Adjudicate
