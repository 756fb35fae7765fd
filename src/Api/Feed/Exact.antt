-- ===== src/Api/Feed/Exact.antt =====
-- What a socket has sent against the rows of the event log, whatever is written meanwhile.
use mathlib.Core.List.{append_assoc}
use pr_review.Prelude.{
  ℕ, ◌+◌, ◌≤◌, max, ◌≡◌, refl, sym, ap, ap₂, ◌∙◌, none, some, List, [], ◌∷◌, ◌++◌, arith, eqb,
  if◌then◌else◌,
}
use pr_review.Storage.Events.{Event, Subscription, EventBus, after, only}
use pr_review.Storage.Events.After.{IsAscending, IsUpTo, after-append}
use pr_review.Api.Feed.{
  Message, batch, live_from, event, dropped, Phase, replaying, replayed, live, lookup_sub,
}
use pr_review.Api.Feed.Steps.{State}

-- The rows that were sent, in the order of sending. What was only published has no sequence number.
abbrev pub rows_of : List Message → List Event
rows_of [] = []
rows_of (batch es ∷ ms) = es ++ rows_of ms
rows_of (event e ∷ ms) = if eqb e.seq 0 then rows_of ms else e ∷ rows_of ms
rows_of (live_from _ ∷ ms) = rows_of ms
rows_of (dropped _ _ ∷ ms) = rows_of ms

pub rows_of-append : (xs ys : List Message) → rows_of (xs ++ ys) ≡ rows_of xs ++ rows_of ys
rows_of-append [] ys = refl
rows_of-append (batch es ∷ ms) ys =
    ap (λ l. es ++ l) (rows_of-append ms ys) ∙ sym (append_assoc es (rows_of ms) (rows_of ys))
rows_of-append (event e ∷ ms) ys = ground (arith, rows_of-append ms ys)
rows_of-append (live_from _ ∷ ms) ys = rows_of-append ms ys
rows_of-append (dropped _ _ ∷ ms) ys = rows_of-append ms ys

-- The rows that the client asked for.
abbrev pub matched : State → List Event
matched s = only s.sock.run_id s.sock.repo s.bus.rows

-- While rows are replayed, the queue holds what was written since the subscription.
abbrev pub Buffered : ℕ → List Event → List Event → ℕ → Type 0
Buffered last queue rows base = (base ≤ last) × ((d : ℕ) → after d queue ≡ after (max base d) rows)

abbrev pub Waits : Phase → ℕ → ℕ → List Event → List Event → Type 0
Waits replaying last delivered queue rows = (base : ℕ) × Buffered last queue rows base
Waits _ last delivered queue rows = (d : ℕ) → delivered ≤ d → after d queue ≡ after d rows

pub record IsExact (cursor : ℕ) (s : State) : Type 0 where
  pub ascending : IsAscending 0 s.bus.rows
  pub upto : IsUpTo s.bus.last s.bus.rows
  pub from : cursor ≤ s.sock.delivered
  pub reached : s.sock.delivered ≤ s.bus.last
  -- what was sent, and the rows after the last one of it, are the rows after the cursor
  pub exact : rows_of s.sock.sent ++ after s.sock.delivered (matched s) ≡ after cursor (matched s)
  pub sub : Subscription
  pub found : lookup_sub s.sock.handle s.bus.subscribers ≡ some sub
  pub same_run : sub.run_id ≡ s.sock.run_id
  pub same_repo : sub.repo ≡ s.sock.repo
  pub same_handle : sub.handle ≡ s.sock.handle
  -- once the replay is over, the rows after the last one sent are those that wait in the queue
  pub waits : Waits s.sock.phase s.bus.last s.sock.delivered sub.queue (matched s)

-- A bus between two calls.
pub record IsLog (b : EventBus) : Type 0 where
  pub ascending : IsAscending 0 b.rows
  pub upto : IsUpTo b.last b.rows
  pub fresh : lookup_sub (b.handles + 1) b.subscribers ≡ none

-- More of the rows, with the same in the queue.
module _ (last delivered : ℕ) (queue rows x y : List Event)
    (late : (d k : ℕ) → k ≤ last → after d x ≡ after (max k d) y) where
  late_same : (d : ℕ) → after d x ≡ after d y
  late_same d = late d 0 (omega arith) ∙ ap (λ k. after k y) (omega arith)

  pub Waits-append :
      (p : Phase) (last' : ℕ)
      → last ≤ last'
      → Waits p last delivered queue rows
      → Waits p last' delivered (queue ++ x) (rows ++ y)
  Waits-append replaying last' le (base, (b, w)) = (
    base,
    (
      omega (arith, b),
      λ d.
          after-append d queue x
          ∙ ap₂ (λ s t. s ++ t) (w d) (late d base b)
          ∙ sym (after-append (max base d) rows y),
    ),
  )
  Waits-append replayed last' le w = λ d p.
      after-append d queue x
      ∙ ap₂ (λ s t. s ++ t) (w d p) (late_same d)
      ∙ sym (after-append d rows y)
  Waits-append live last' le w = λ d p.
      after-append d queue x
      ∙ ap₂ (λ s t. s ++ t) (w d p) (late_same d)
      ∙ sym (after-append d rows y)
