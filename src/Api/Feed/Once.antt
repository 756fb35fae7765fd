-- ===== src/Api/Feed/Once.antt =====
-- Every row of the event log reaches the client once, in order.
use pr_review.Prelude.{ℕ, ◌≡◌, List, ◌∷◌}
use pr_review.Storage.Events.{Event, Subscription, after}
use pr_review.Api.Feed.{live, Socket, update_sub, pop_queue}
use pr_review.Api.Feed.Steps.{State}
use pr_review.Api.Feed.Exact.{matched, IsExact}

module _ (cursor : ℕ) (s : State) (h : IsExact cursor s) where
  abbrev rows : List Event
  rows = matched s

  abbrev k : Socket
  k = s.sock

  abbrev left : List Event
  left = after k.delivered rows

  module _ (phase : k.phase ≡ live) where
    popped : Subscription → Subscription
    popped t = record t { queue = pop_queue t.queue }

    module _ (e : Event) (es : List Event) (queue : h.sub.queue ≡ e ∷ es) where
      served : Socket → State
      served k' = record {
        bus = record (s.bus) { subscribers = update_sub k.handle popped s.bus.subscribers };
        sock = k';
      }
