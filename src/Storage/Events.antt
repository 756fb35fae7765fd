-- ===== src/Storage/Events.antt =====
-- The event log of prflagger/storage/events.py: a table of rows, and live subscriptions. The table is
-- its rows in the order of `seq`, its primary key; a payload is its JSON text. Events are emitted on
-- the loop that owns the queues: the hop from another thread is left out.
pub mod After
use pr_review.Prelude.{
  ℕ, zero, suc, ◌+◌, ◌-◌, ◌*◌, String, Bool, true, false, not, Option, none, some, List, [], ◌∷◌,
  ◌++◌, ◌==◌, ◌&&◌, ◌||◌, ltb, leb, eqb, if◌then◌else◌, length, max,
}
use pr_review.Core.Models.{is_terminal}
use pr_review.Storage.Runs.{Table, where_state}

pub record Event : Type 0 where
  pub seq : ℕ
  pub ts : ℕ
  pub type_ : String
  pub run_id : Option String
  pub repo : Option String
  pub payload : String

-- A subscription is an object: `handle` is its identity.
pub record Subscription : Type 0 where
  pub handle : ℕ
  pub run_id : Option String
  pub repo : Option String
  pub queue : List Event
  pub dropped : ℕ

-- `last` is what the database remembers of the highest `seq` that it gave out.
pub record EventBus : Type 0 where
  pub rows : List Event
  pub last : ℕ
  pub subscribers : List Subscription
  pub handles : ℕ

unfoldable pub queue_limit : ℕ
queue_limit = 4096

-- No filter, or a field that is set to this.
abbrev pub tagged : Option String → Option String → Bool
tagged none field = true
tagged (some tag) none = false
tagged (some tag) (some x) = x == tag

-- The test of `Subscription.wants`, and of the WHERE clause of `since`.
unfoldable pub wanted : Option String → Option String → Event → Bool
wanted run_id repo e = tagged run_id e.run_id && tagged repo e.repo

unfoldable pub offer : Event → Subscription → Subscription
offer e s =
    if ltb (length s.queue) queue_limit
    then record s { queue = s.queue ++ e ∷ [] }
    else record s { dropped = s.dropped + 1 }

unfoldable pub subscribe : Option String → Option String → EventBus → ℕ × EventBus
subscribe run_id repo b =
    let handle = b.handles + 1 in
    let s : Subscription = record {
      handle = handle;
      run_id = run_id;
      repo = repo;
      queue = [];
      dropped = 0;
    } in
    (handle, record b { subscribers = b.subscribers ++ s ∷ []; handles = handle })

unfoldable pub drop_handle : ℕ → List Subscription → List Subscription
drop_handle handle [] = []
drop_handle handle (s ∷ ss) = if eqb s.handle handle then ss else s ∷ drop_handle handle ss

unfoldable pub unsubscribe : ℕ → EventBus → EventBus
unfolding drop_handle
unsubscribe handle b = record b { subscribers = drop_handle handle b.subscribers }

unfoldable pub offer_all : Event → List Subscription → List Subscription
offer_all e [] = []
offer_all e (s ∷ ss) = (if wanted s.run_id s.repo e then offer e s else s) ∷ offer_all e ss

unfoldable pub fan_out : Event → EventBus → EventBus
fan_out e b = record b { subscribers = offer_all e b.subscribers }

-- The row, and the event that subscribers are offered.
unfoldable pub emit : ℕ → String → Option String → Option String → String → EventBus → ℕ × EventBus
unfolding fan_out
emit now type_ run_id repo payload b =
    let seq = b.last + 1 in
    let e : Event = record {
      seq = seq;
      ts = now;
      type_ = type_;
      run_id = run_id;
      repo = repo;
      payload = payload;
    } in
    (seq, fan_out e (record b { rows = b.rows ++ e ∷ []; last = seq }))

-- No row, and no sequence number.
unfoldable pub publish : ℕ → String → Option String → Option String → String → EventBus → EventBus
unfolding fan_out
publish now type_ run_id repo payload b =
    fan_out
      (record { seq = 0; ts = now; type_ = type_; run_id = run_id; repo = repo; payload = payload })
      b

-- LIMIT ?
unfoldable pub first : ℕ → List Event → List Event
first zero es = []
first (suc n) [] = []
first (suc n) (e ∷ es) = e ∷ first n es

-- seq > ?
unfoldable pub after : ℕ → List Event → List Event
after cursor [] = []
after cursor (e ∷ es) = if ltb cursor e.seq then e ∷ after cursor es else after cursor es

-- AND run_id = ? AND repo = ?
unfoldable pub only : Option String → Option String → List Event → List Event
unfolding wanted
only run_id repo [] = []
only run_id repo (e ∷ es) =
    if wanted run_id repo e then e ∷ only run_id repo es else only run_id repo es

unfoldable pub since : ℕ → Option String → Option String → ℕ → EventBus → List Event
since cursor run_id repo limit b = first limit (after cursor (only run_id repo b.rows))

highest : List Event → ℕ
highest [] = 0
highest (e ∷ es) = max e.seq (highest es)

unfoldable pub head : EventBus → ℕ
unfolding highest
head b = highest b.rows

-- run_id IS NULL OR run_id IN (SELECT id FROM runs WHERE state IN (...))
is_over : Table → Option String → Bool
is_over runs none = true
is_over runs (some id) = where_state is_terminal runs id

keep_recent : ℕ → Table → List Event → List Event
unfolding is_over
keep_recent cutoff runs [] = []
keep_recent cutoff runs (e ∷ es) =
    if ltb e.ts cutoff && is_over runs e.run_id
    then keep_recent cutoff runs es
    else e ∷ keep_recent cutoff runs es

unfoldable pub prune : ℕ → ℕ → Table → EventBus → ℕ × EventBus
unfolding keep_recent
prune now older_than_days runs b =
    let kept = keep_recent (now - older_than_days * 86400) runs b.rows in
    (length b.rows - length kept, record b { rows = kept })
