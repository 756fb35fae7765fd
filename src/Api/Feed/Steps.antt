-- ===== src/Api/Feed/Steps.antt =====
-- One client's socket beside everything else that uses the bus.
use pr_review.Prelude.{
  ℕ, ◌<◌, ◌≡◌, ◌≢◌, String, Option, none, some, List, [], ◌∷◌, ◌++◌, arith, if◌then◌else◌, length,
}
use pr_review.Storage.Events.{
  Event, Subscription, EventBus, queue_limit, wanted, offer, offer_all, drop_handle, emit, publish,
  subscribe, unsubscribe,
}
use pr_review.Api.Feed.{
  Socket, replaying, replayed, live, lookup_sub, update_sub, replay, go_live, serve, report,
}

pub record State : Type 0 where
  pub bus : EventBus
  pub sock : Socket

abbrev pub joined : Socket × EventBus → State
joined (k, b) = record { bus = b; sock = k }

-- The client's queue has room.
abbrev pub HasRoom : State → Type 0
HasRoom s =
    (sub : Subscription)
    → lookup_sub s.sock.handle s.bus.subscribers ≡ some sub
    → length sub.queue < queue_limit

-- One step of the socket, or of anything else that uses the bus.
pub data Step (s : State) : State → Type 0 where
  emits :
      (now : ℕ) (type_ : String) (run_id repo : Option String) (payload : String)
      → HasRoom s
      → Step s (record s { bus = (emit now type_ run_id repo payload s.bus).1 })
  publishes :
      (now : ℕ) (type_ : String) (run_id repo : Option String) (payload : String)
      → HasRoom s
      → Step s (record s { bus = publish now type_ run_id repo payload s.bus })
  subscribes :
      (run_id repo : Option String) → Step s (record s { bus = (subscribe run_id repo s.bus).1 })
  unsubscribes :
      (handle : ℕ) → handle ≢ s.sock.handle → Step s (record s { bus = unsubscribe handle s.bus })
  replays : s.sock.phase ≡ replaying → Step s (record s { sock = replay s.bus s.sock })
  goes_live : s.sock.phase ≡ replayed → Step s (record s { sock = go_live s.sock })
  serves : s.sock.phase ≡ live → Step s (joined (serve s.bus s.sock))
  reports : s.sock.phase ≡ live → Step s (joined (report s.bus s.sock))

pub data Reach (s : State) : State → Type 0 where
  start : Reach s s
  more : {t u : State} → Reach s t → Step t u → Reach s u

handle-offer : (e : Event) (s : Subscription) → (offer e s).handle ≡ s.handle
unfolding offer
handle-offer e s = ground arith

module _ (handle : ℕ) where
  pub lookup_sub-update_sub :
      (f : Subscription → Subscription) (ss : List Subscription) (s : Subscription)
      → lookup_sub handle ss ≡ some s
      → (f s).handle ≡ handle
      → lookup_sub handle (update_sub handle f ss) ≡ some (f s)
  unfolding lookup_sub update_sub
  lookup_sub-update_sub f [] s e same = ground arith
  lookup_sub-update_sub f (x ∷ xs) s e same = ground (arith, lookup_sub-update_sub f xs s)

  pub lookup_sub-append :
      (xs ys : List Subscription) (s : Subscription)
      → lookup_sub handle xs ≡ some s
      → lookup_sub handle (xs ++ ys) ≡ some s
  unfolding lookup_sub
  lookup_sub-append [] ys s e = ground arith
  lookup_sub-append (x ∷ xs) ys s e = ground (arith, lookup_sub-append xs ys s)

  pub lookup_sub-snoc :
      (xs : List Subscription) (s : Subscription)
      → lookup_sub handle xs ≡ none
      → s.handle ≡ handle
      → lookup_sub handle (xs ++ s ∷ []) ≡ some s
  unfolding lookup_sub
  lookup_sub-snoc [] s e same = ground arith
  lookup_sub-snoc (x ∷ xs) s e same = ground (arith, lookup_sub-snoc xs s)

  pub lookup_sub-drop_handle :
      (other : ℕ) (xs : List Subscription) (s : Subscription)
      → other ≢ handle
      → lookup_sub handle xs ≡ some s
      → lookup_sub handle (drop_handle other xs) ≡ some s
  unfolding lookup_sub drop_handle
  lookup_sub-drop_handle other [] s ne e = ground arith
  lookup_sub-drop_handle other (x ∷ xs) s ne e = ground (arith, lookup_sub-drop_handle other xs s)

  pub lookup_sub-offer_all :
      (e : Event) (xs : List Subscription) (s : Subscription)
      → lookup_sub handle xs ≡ some s
      → lookup_sub handle (offer_all e xs)
        ≡ some (if wanted s.run_id s.repo e then offer e s else s)
  unfolding lookup_sub offer_all
  lookup_sub-offer_all e [] s h = ground arith
  lookup_sub-offer_all e (x ∷ xs) s h =
      ground (arith, lookup_sub-offer_all e xs s, handle-offer e x)
