-- ===== src/Scenarios/Feeds.antt =====
-- A client that connects in the middle of a run.
use pr_review.Prelude.{ℕ, String, ◌≡◌, refl, none, some, [], ◌∷◌}
use pr_review.Storage.Events.{
  Event, Subscription, EventBus, subscribe, offer, emit, fan_out, offer_all, since, first, after,
  only, wanted, queue_limit,
}
use pr_review.Storage.Events.After.{last_seq}
use pr_review.Api.Feed.{
  batch, connect, replay, send_batch, chunk, lookup_sub, live_from, event, go_live, serve,
}
use pr_review.Api.Feed.Steps.{State, joined}

abbrev row : ℕ → String → Event
row n run = record {
  seq = n;
  ts = n;
  type_ = "run.state";
  run_id = some run;
  repo = none;
  payload = "{}";
}

abbrev log : EventBus
log = record {
  rows = row 1 "r1" ∷ row 2 "r2" ∷ row 4 "r1" ∷ [];
  last = 4;
  subscribers = [];
  handles = 0;
}

abbrev connected : State
connected = joined (connect (some "r1") none 1 log)

abbrev caught_up : State
caught_up = record (connected) { sock = replay connected.bus connected.sock }

abbrev listening : State
listening = record (caught_up) { sock = go_live caught_up.sock }

abbrev written : State
written = record (listening) { bus = (emit 9 "run.state" (some "r1") none "{}" listening.bus).1 }

abbrev own_sub : Subscription
own_sub = record { handle = 1; run_id = some "r1"; repo = none; queue = []; dropped = 0 }

-- The row of the other run is not sent, and the row written meanwhile is.
client_got :
    (joined (serve written.bus written.sock)).sock.sent
    ≡ batch (row 4 "r1" ∷ []) ∷ live_from 4 ∷ event (record (row 5 "r1") { ts = 9 }) ∷ []
unfolding connect replay send_batch since first after only wanted chunk go_live lookup_sub emit
    fan_out offer_all serve subscribe offer queue_limit last_seq
client_got = refl
