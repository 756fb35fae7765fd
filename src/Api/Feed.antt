-- ===== src/Api/Feed.antt =====
-- `stream_events` of prflagger/api/ws.py: one client's socket, which replays the event log from a
-- cursor and then goes live. It is cut where it awaits: a send ends in the step that makes it. The
-- lines of the transcript on disk, the pings and the parting of the client are left out.
pub mod Steps
pub mod Exact
pub mod Offers
pub mod Replay
pub mod Once
use pr_review.Prelude.{
  ℕ, ◌+◌, String, Bool, true, false, not, Option, none, some, List, [], ◌∷◌, ◌++◌, ◌&&◌, ltb, leb,
  eqb, if◌then◌else◌, length,
}
use pr_review.Storage.Events.{Event, Subscription, EventBus, subscribe, since}
use pr_review.Storage.Events.After.{last_seq}

pub data Message : Type 0 where
  batch : List Event → Message
  live_from : (cursor : ℕ) → Message
  event : Event → Message
  dropped : (count cursor : ℕ) → Message

pub data Phase : Type 0 where
  replaying replayed live : Phase

pub record Socket : Type 0 where
  pub run_id : Option String
  pub repo : Option String
  pub handle : ℕ
  pub delivered : ℕ
  pub phase : Phase
  pub sent : List Message

unfoldable pub chunk : ℕ
chunk = 500

unfoldable pub lookup_sub : ℕ → List Subscription → Option Subscription
lookup_sub handle [] = none
lookup_sub handle (s ∷ ss) = if eqb s.handle handle then some s else lookup_sub handle ss

unfoldable pub update_sub :
    ℕ → (Subscription → Subscription) → List Subscription → List Subscription
update_sub handle f [] = []
update_sub handle f (s ∷ ss) = if eqb s.handle handle then f s ∷ ss else s ∷ update_sub handle f ss

unfoldable pub connect : Option String → Option String → ℕ → EventBus → Socket × EventBus
connect run_id repo cursor b =
    let (handle, b') = subscribe run_id repo b in
    (
      record {
        run_id = run_id;
        repo = repo;
        handle = handle;
        delivered = cursor;
        phase = replaying;
        sent = [];
      },
      b',
    )

abbrev pub phase_after : List Event → Phase
phase_after es = if ltb (length es) chunk then replayed else replaying

unfoldable pub send_batch : List Event → Socket → Socket
send_batch [] k = record k { phase = replayed }
send_batch (e ∷ es) k = record k {
  sent = k.sent ++ batch (e ∷ es) ∷ [];
  delivered = last_seq k.delivered (e ∷ es);
  phase = phase_after (e ∷ es);
}

-- One turn of the loop that replays rows.
unfoldable pub replay : EventBus → Socket → Socket
unfolding send_batch
replay b k = send_batch (since k.delivered k.run_id k.repo chunk b) k

unfoldable pub go_live : Socket → Socket
go_live k = record k { sent = k.sent ++ live_from k.delivered ∷ []; phase = live }

-- What the loop does with an event from the queue, up to the event's send.
unfoldable pub send_event : Event → Socket → Socket
send_event e k = if not (eqb e.seq 0) && leb e.seq k.delivered then k else record k {
  delivered = if eqb e.seq 0 then k.delivered else e.seq;
  sent = k.sent ++ event e ∷ [];
}

pop_queue : List Event → List Event
pop_queue [] = []
pop_queue (e ∷ es) = es

serve_from : List Event → EventBus → Socket → Socket × EventBus
unfolding send_event pop_queue
serve_from [] b k = (k, b)
serve_from (e ∷ es) b k = (
  send_event e k,
  record b {
    subscribers = update_sub k.handle (λ s. record s { queue = pop_queue s.queue }) b.subscribers;
  },
)

serve_sub : Option Subscription → EventBus → Socket → Socket × EventBus
unfolding serve_from
serve_sub none b k = (k, b)
serve_sub (some s) b k = serve_from s.queue b k

-- One turn of the live loop, up to the event's send; an empty queue waits.
unfoldable pub serve : EventBus → Socket → Socket × EventBus
unfolding serve_sub
serve b k = serve_sub (lookup_sub k.handle b.subscribers) b k

report_sub : Option Subscription → EventBus → Socket → Socket × EventBus
report_sub none b k = (k, b)
report_sub (some s) b k = if eqb s.dropped 0 then (k, b) else (
  record k { sent = k.sent ++ dropped s.dropped k.delivered ∷ [] },
  record b { subscribers = update_sub k.handle (λ t. record t { dropped = 0 }) b.subscribers },
)

-- The end of the turn, which tells the client of events that were dropped.
unfoldable pub report : EventBus → Socket → Socket × EventBus
unfolding report_sub
report b k = report_sub (lookup_sub k.handle b.subscribers) b k
