-- ===== src/Api/Feed/Replay.antt =====
-- The replay: chunks of rows, up to the end of the log.
use mathlib.Core.List.{append-nil, append_assoc}
use pr_review.Prelude.{
  ℕ, ◌≤◌, ◌<◌, max, ◌≡◌, refl, sym, ap, ap₂, ◌∙◌, subst, some, List, [], ◌∷◌, ◌++◌, arith, ltb,
  length, length-append, Bool-cases, inl, inr,
}
use pr_review.Storage.Events.{Event, Subscription, after, only, first, since}
use pr_review.Storage.Events.After.{
  IsAscending, IsUpTo, only-IsAscending, only-IsUpTo, after-none, after-after, after-IsAscending,
  after-IsUpTo, first-after, first-short, last_seq, last_seq-first-le, le-last_seq-first,
}
use pr_review.Api.Feed.{
  Message, batch, live_from, replaying, replayed, Socket, chunk, lookup_sub, replay, send_batch,
  phase_after, go_live,
}
use pr_review.Api.Feed.Steps.{State}
use pr_review.Api.Feed.Exact.{rows_of, rows_of-append, matched, Waits, Buffered, IsExact}

nothing_more : (xs ys : List Event) → xs ++ ys ≡ xs → ys ≡ []
nothing_more xs [] h = refl
nothing_more xs (y ∷ ys) h = absurd (omega (arith, ap length h, length-append xs (y ∷ ys)))

-- After the last row, nothing is after any later cursor.
pub drained : (k d : ℕ) (es : List Event) → after k es ≡ [] → k ≤ d → after d es ≡ []
drained k d es h p = sym (after-after k d es p) ∙ ap (after d) h ∙ after-none d [] tt

-- The replay is over.
drained-Waits :
    (last k : ℕ) (queue rows : List Event) (base : ℕ)
    → Buffered last queue rows base
    → after k rows ≡ []
    → Waits replayed last k queue rows
drained-Waits last k queue rows base b none_left d p =
    b.1 d ∙ drained k (max base d) rows none_left (omega arith) ∙ sym (drained k d rows none_left p)

module _ (cursor : ℕ) (s : State) (h : IsExact cursor s) where
  abbrev pub rows : List Event
  rows = matched s

  abbrev pub k : Socket
  k = s.sock

  abbrev pub left : List Event
  left = after k.delivered rows

  left-IsAscending : IsAscending k.delivered left
  left-IsAscending =
      after-IsAscending k.delivered 0 rows
        (only-IsAscending k.run_id k.repo 0 s.bus.rows h.ascending)

  pub left-IsUpTo : IsUpTo s.bus.last left
  left-IsUpTo =
      after-IsUpTo k.delivered s.bus.last rows
        (only-IsUpTo k.run_id k.repo s.bus.last s.bus.rows h.upto)

  abbrev reached_seq : ℕ
  reached_seq = last_seq k.delivered (first chunk left)

  le-reached : k.delivered ≤ reached_seq
  le-reached = le-last_seq-first chunk k.delivered left left-IsAscending

  -- A chunk and what is after it are what was left.
  chunk-left : first chunk left ++ after reached_seq rows ≡ left
  chunk-left =
      ap (λ l. first chunk left ++ l) (sym (after-after k.delivered reached_seq rows le-reached))
      ∙ first-after chunk k.delivered left left-IsAscending

  -- Another socket and its subscription, over the same rows.
  pub with_parts :
      (k' : Socket) (handles : ℕ) (subs : List Subscription) (sub : Subscription)
      → lookup_sub k.handle subs ≡ some sub
      → sub.run_id ≡ k.run_id
      → sub.repo ≡ k.repo
      → sub.handle ≡ k.handle
      → k'.run_id ≡ k.run_id
      → k'.repo ≡ k.repo
      → k'.handle ≡ k.handle
      → cursor ≤ k'.delivered
      → k'.delivered ≤ s.bus.last
      → rows_of k'.sent ++ after k'.delivered rows ≡ after cursor rows
      → Waits k'.phase s.bus.last k'.delivered sub.queue rows
      → IsExact cursor
          (record { bus = record (s.bus) { subscribers = subs; handles = handles }; sock = k' })
  with_parts k' handles subs sub found sub_run sub_repo sub_handle run repo handle from reached
        exact waits =
      record {
        ascending = h.ascending;
        upto = h.upto;
        from = from;
        reached = reached;
        exact =
            ap (λ l. rows_of k'.sent ++ after k'.delivered l) same
            ∙ exact
            ∙ ap (after cursor) (sym same);
        sub = sub;
        found = ap (λ i. lookup_sub i subs) handle ∙ found;
        same_run = sub_run ∙ sym run;
        same_repo = sub_repo ∙ sym repo;
        same_handle = sub_handle ∙ sym handle;
        waits = subst (Waits k'.phase s.bus.last k'.delivered sub.queue) (sym same) waits;
      }
    where
      same : only k'.run_id k'.repo s.bus.rows ≡ rows
      same = ap₂ (λ r p. only r p s.bus.rows) run repo

  with_sock :
      (k' : Socket)
      → k'.run_id ≡ k.run_id
      → k'.repo ≡ k.repo
      → k'.handle ≡ k.handle
      → cursor ≤ k'.delivered
      → k'.delivered ≤ s.bus.last
      → rows_of k'.sent ++ after k'.delivered rows ≡ after cursor rows
      → Waits k'.phase s.bus.last k'.delivered h.sub.queue rows
      → IsExact cursor (record s { sock = k' })
  with_sock k' =
      with_parts k' s.bus.handles s.bus.subscribers h.sub h.found h.same_run h.same_repo
        h.same_handle

  -- Another subscription comes or goes.
  pub others-IsExact :
      (handles : ℕ) (subs : List Subscription)
      → lookup_sub k.handle subs ≡ some h.sub
      → IsExact cursor (record s { bus = record (s.bus) { subscribers = subs; handles = handles } })
  others-IsExact handles subs found =
      with_parts k handles subs h.sub found h.same_run h.same_repo h.same_handle refl refl refl
        h.from h.reached h.exact h.waits

  sent_chunk :
      (e : Event) (es : List Event)
      → first chunk left ≡ e ∷ es
      → rows_of (k.sent ++ batch (e ∷ es) ∷ []) ++ after (last_seq k.delivered (e ∷ es)) rows
        ≡ after cursor rows
  sent_chunk e es same =
      ap (λ l. l ++ after (last_seq k.delivered (e ∷ es)) rows)
        (rows_of-append k.sent (batch (e ∷ es) ∷ [])
          ∙ ap (λ l. rows_of k.sent ++ l) (append-nil (e ∷ es)))
      ∙ append_assoc (rows_of k.sent) (e ∷ es) (after (last_seq k.delivered (e ∷ es)) rows)
      ∙ ap (λ l. rows_of k.sent ++ l)
          (ap (λ l. l ++ after (last_seq k.delivered l) rows) (sym same) ∙ chunk-left)
      ∙ h.exact

  chunk-Waits :
      (es : List Event) (base : ℕ)
      → first chunk left ≡ es
      → Buffered s.bus.last h.sub.queue rows base
      → Waits (phase_after es) s.bus.last (last_seq k.delivered es) h.sub.queue rows
  chunk-Waits es base same b = elim (Bool-cases (ltb (length es) chunk)) [
    | inl short ↦ rw short (
        drained-Waits s.bus.last (last_seq k.delivered es) h.sub.queue rows base b (
          ap (λ l. after (last_seq k.delivered l) rows) (sym same)
          ∙ nothing_more (first chunk left) (after reached_seq rows) (
              chunk-left
              ∙ sym (
                  first-short chunk left
                    (subst (λ l. length l < chunk) (sym same) (ground arith))))))
    | inr full ↦ rw full (base, b)
  ]

  send_batch-IsExact :
      (es : List Event)
      → first chunk left ≡ es
      → k.phase ≡ replaying
      → IsExact cursor (record s { sock = send_batch es k })
  unfolding send_batch last_seq first chunk
  send_batch-IsExact [] same phase =
      let (base, b) = subst (λ p. Waits p s.bus.last k.delivered h.sub.queue rows) phase h.waits in
      with_sock (record k { phase = replayed }) refl refl refl h.from h.reached h.exact
        (drained-Waits s.bus.last k.delivered h.sub.queue rows base b (
          sym (first-short chunk left (subst (λ l. length l < chunk) (sym same) (omega arith)))
          ∙ same))
  send_batch-IsExact (e ∷ es) same phase =
      let (base, b) = subst (λ p. Waits p s.bus.last k.delivered h.sub.queue rows) phase h.waits in
      with_sock (send_batch (e ∷ es) k) refl refl refl
        (omega (arith, h.from, le-reached, ap (last_seq k.delivered) same))
        (omega (
          arith,
          ap (last_seq k.delivered) same,
          last_seq-first-le chunk k.delivered s.bus.last left left-IsUpTo h.reached,
        ))
        (sent_chunk e es same) (chunk-Waits (e ∷ es) base same b)

  pub replay-IsExact : k.phase ≡ replaying → IsExact cursor (record s { sock = replay s.bus k })
  unfolding replay since
  replay-IsExact phase = send_batch-IsExact (first chunk left) refl phase

  pub quiet :
      (m : Message) → rows_of (m ∷ []) ≡ [] → rows_of (k.sent ++ m ∷ []) ++ left ≡ after cursor rows
  quiet m none_sent =
      ap (λ l. l ++ left)
        (rows_of-append k.sent (m ∷ [])
          ∙ ap (λ l. rows_of k.sent ++ l) none_sent
          ∙ append-nil (rows_of k.sent))
      ∙ h.exact

  pub go_live-IsExact : k.phase ≡ replayed → IsExact cursor (record s { sock = go_live k })
  unfolding go_live
  go_live-IsExact phase =
      with_sock (go_live k) refl refl refl h.from h.reached (quiet (live_from k.delivered) refl)
        (subst (λ p. Waits p s.bus.last k.delivered h.sub.queue rows) phase h.waits)
