-- ===== src/Api/Feed/Offers.antt =====
-- Events that are written or published while a client listens.
use mathlib.Core.List.{append-nil, append_assoc}
use pr_review.Prelude.{
  ℕ, ◌+◌, ◌≤◌, ◌<◌, max, ◌≡◌, refl, sym, ap, ap₂, ◌∙◌, subst, Bool, String, Option, List, [], ◌∷◌,
  ◌++◌, arith, if◌then◌else◌, length, Bool-cases, inl, inr,
}
use pr_review.Storage.Events.{
  Event, Subscription, queue_limit, wanted, offer, emit, publish, fan_out, after, only,
}
use pr_review.Storage.Events.After.{
  snoc-IsAscending, snoc-IsUpTo, after-append, only-append, after-none,
}
use pr_review.Api.Feed.Steps.{State, HasRoom, lookup_sub-offer_all}
use pr_review.Api.Feed.Exact.{rows_of, matched, Waits, Waits-append, IsExact}

abbrev when_wanted : Bool → Event → List Event
when_wanted b e = if b then e ∷ [] else []

abbrev offered : Event → Subscription → Subscription
offered e sub = if wanted sub.run_id sub.repo e then offer e sub else sub

queue-offer :
    (e : Event) (sub : Subscription)
    → length sub.queue < queue_limit
    → (offer e sub).queue ≡ sub.queue ++ e ∷ []
unfolding offer
queue-offer e sub room = ground arith

same_sub :
    (e : Event) (sub : Subscription)
    → ((offer e sub).run_id ≡ sub.run_id)
      × ((offer e sub).repo ≡ sub.repo)
      × ((offer e sub).handle ≡ sub.handle)
unfolding offer
same_sub e sub = (ground arith, ground arith, ground arith)

queue-offered :
    (e : Event) (sub : Subscription)
    → length sub.queue < queue_limit
    → (offered e sub).queue ≡ sub.queue ++ when_wanted (wanted sub.run_id sub.repo e) e
queue-offered e sub room = elim (Bool-cases (wanted sub.run_id sub.repo e)) [
  | inl fits ↦ rw fits (queue-offer e sub room)
  | inr other ↦ rw other (sym (append-nil sub.queue))
]

only-one :
    (run_id repo : Option String) (e : Event)
    → only run_id repo (e ∷ []) ≡ when_wanted (wanted run_id repo e) e
unfolding only
only-one run_id repo e = refl

-- A new sequence number is after every cursor in use; none is after no cursor.
late_new :
    (last : ℕ) (b : Bool) (e : Event)
    → e.seq ≡ last + 1
    → (d k : ℕ) → k ≤ last
    → after d (when_wanted b e) ≡ after (max k d) (when_wanted b e)
unfolding after
late_new last b e new d k p = ground arith

late_all :
    (last d : ℕ) (b : Bool) (e : Event)
    → e.seq ≡ last + 1
    → d ≤ last
    → after d (when_wanted b e) ≡ when_wanted b e
unfolding after
late_all last d b e new p = ground arith

late_none : (b : Bool) (e : Event) → e.seq ≡ 0 → (d : ℕ) → after d (when_wanted b e) ≡ []
unfolding after
late_none b e none_given d = ground arith

module _ (cursor : ℕ) (s : State) (h : IsExact cursor s) (room : HasRoom s) where
  abbrev held : Subscription
  held = h.sub

  room_held : length held.queue < queue_limit
  room_held = room held h.found

  offered_fields :
      (e : Event)
      → ((offered e held).run_id ≡ s.sock.run_id)
        × ((offered e held).repo ≡ s.sock.repo)
        × ((offered e held).handle ≡ s.sock.handle)
  offered_fields e = (
    ground (arith, (same_sub e held).0, h.same_run),
    ground (arith, (same_sub e held).1, h.same_repo),
    ground (arith, (same_sub e held).2, h.same_handle),
  )

  queue_now :
      (e : Event)
      → (offered e held).queue ≡ held.queue ++ when_wanted (wanted s.sock.run_id s.sock.repo e) e
  queue_now e =
      queue-offered e held room_held
      ∙ ap₂ (λ r p. held.queue ++ when_wanted (wanted r p e) e) h.same_run h.same_repo

  pub emit-IsExact :
      (now : ℕ) (type_ : String) (run_id repo : Option String) (payload : String)
      → IsExact cursor (record s { bus = (emit now type_ run_id repo payload s.bus).1 })
  unfolding emit fan_out
  emit-IsExact now type_ run_id repo payload = record {
    ascending =
        snoc-IsAscending 0 s.bus.last s.bus.rows e (omega arith) (omega arith) h.upto h.ascending;
    upto = snoc-IsUpTo s.bus.last s.bus.rows e h.upto (omega arith);
    from = h.from;
    reached = omega (arith, h.reached);
    exact =
        ap (λ l. rows_of s.sock.sent ++ after s.sock.delivered l) grown
        ∙ ap (λ l. rows_of s.sock.sent ++ l) (after-append s.sock.delivered (matched s) x)
        ∙ sym (
            append_assoc (rows_of s.sock.sent) (after s.sock.delivered (matched s))
              (after s.sock.delivered x))
        ∙ ap₂ (λ l m. l ++ m) h.exact
            (late_all s.bus.last s.sock.delivered _ e refl h.reached
              ∙ sym (late_all s.bus.last cursor _ e refl (omega (arith, h.from, h.reached))))
        ∙ sym (after-append cursor (matched s) x)
        ∙ sym (ap (after cursor) grown);
    sub = offered e held;
    found = lookup_sub-offer_all s.sock.handle e s.bus.subscribers held h.found;
    same_run = (offered_fields e).0;
    same_repo = (offered_fields e).1;
    same_handle = (offered_fields e).2;
    waits =
        subst
          (λ q.
            Waits s.sock.phase (s.bus.last + 1) s.sock.delivered q
              (only s.sock.run_id s.sock.repo (s.bus.rows ++ e ∷ [])))
          (sym (queue_now e))
          (subst (Waits s.sock.phase (s.bus.last + 1) s.sock.delivered (held.queue ++ x))
            (sym grown)
            (Waits-append s.bus.last s.sock.delivered held.queue (matched s) x x
              (late_new s.bus.last _ e refl) s.sock.phase (s.bus.last + 1) (omega arith) h.waits));
  }
    where
      e : Event
      e = record {
        seq = s.bus.last + 1;
        ts = now;
        type_ = type_;
        run_id = run_id;
        repo = repo;
        payload = payload;
      }

      x : List Event
      x = when_wanted (wanted s.sock.run_id s.sock.repo e) e

      grown : only s.sock.run_id s.sock.repo (s.bus.rows ++ e ∷ []) ≡ matched s ++ x
      grown =
          only-append s.sock.run_id s.sock.repo s.bus.rows (e ∷ [])
          ∙ ap (λ l. matched s ++ l) (only-one s.sock.run_id s.sock.repo e)

  pub publish-IsExact :
      (now : ℕ) (type_ : String) (run_id repo : Option String) (payload : String)
      → IsExact cursor (record s { bus = publish now type_ run_id repo payload s.bus })
  unfolding publish fan_out
  publish-IsExact now type_ run_id repo payload = record {
    ascending = h.ascending;
    upto = h.upto;
    from = h.from;
    reached = h.reached;
    exact = h.exact;
    sub = offered e held;
    found = lookup_sub-offer_all s.sock.handle e s.bus.subscribers held h.found;
    same_run = (offered_fields e).0;
    same_repo = (offered_fields e).1;
    same_handle = (offered_fields e).2;
    waits =
        subst (λ q. Waits s.sock.phase s.bus.last s.sock.delivered q (matched s))
          (sym (queue_now e))
          (subst (Waits s.sock.phase s.bus.last s.sock.delivered (held.queue ++ x))
            (append-nil (matched s))
            (Waits-append s.bus.last s.sock.delivered held.queue (matched s) x []
              (λ d k p. late_none _ e refl d ∙ sym (after-none (max k d) [] tt)) s.sock.phase
              s.bus.last (omega arith) h.waits));
  }
    where
      e : Event
      e = record {
        seq = 0;
        ts = now;
        type_ = type_;
        run_id = run_id;
        repo = repo;
        payload = payload;
      }

      x : List Event
      x = when_wanted (wanted s.sock.run_id s.sock.repo e) e
