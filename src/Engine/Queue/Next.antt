-- ===== src/Engine/Queue/Next.antt =====
-- `_next` against the lanes: the oldest identifier of the repository at the front, or sleep.
use pr_review.Prelude.{
  ◌+◌, ◌<◌, String, ◌≡◌, ◌≢◌, refl, sym, ap, ◌∙◌, subst, false, not, Option, none, some, List, [],
  ◌∷◌, ◌++◌, eq_iff, arith, if◌then◌else◌, length, sum_by, contains, List-cases, inl, inr,
}
use pr_review.Engine.Queue.{Queue, lane, is_empty, next, next_from, dispatch}
use pr_review.Engine.Queue.Invariant.{IsSound}
use pr_review.Engine.Queue.Turns.{
  next-eq, dispatch-IsSound, lane-dispatch, depth-dispatch, order_now,
}

-- The state in which `_next` waits for the event.
abbrev pub asleep : Queue → Queue
asleep q = record q { order = []; waiting = false }

pub data Turn (q : Queue) (r : Option String × Queue) : Type 0 where
  sleeps : q.order ≡ [] → q.depth ≡ 0 → r ≡ (none, asleep q) → Turn q r
  serves :
      (repo identifier : String) (rest : List String)
      → q.order ≡ repo ∷ rest
      → r.0 ≡ some identifier
      → lane q repo ≡ identifier ∷ lane r.1 repo
      → ((other : String) → other ≢ repo → lane r.1 other ≡ lane q other)
      → r.1.order ≡ (if is_empty (lane r.1 repo) then rest else rest ++ repo ∷ [])
      → q.depth ≡ r.1.depth + 1
      → IsSound r.1
      → Turn q r

module _ (q : Queue) (h : IsSound q) where
  counted_none : q.order ≡ [] → q.depth ≡ 0
  counted_none e = subst (λ l. q.depth ≡ sum_by (λ r. length (lane q r)) l) e h.counted

  pub asleep-IsSound : q.order ≡ [] → IsSound (asleep q)
  unfolding lane
  asleep-IsSound e = record {
    order_unique = tt;
    served = λ r. subst (λ l. contains r l ≡ not (is_empty (lane q r))) e (h.served r);
    kept = h.kept;
    counted = counted_none e;
    awake = λ p. absurd (omega (arith, counted_none e));
  }

  head-ne-nil : (repo : String) (rest : List String) → q.order ≡ repo ∷ rest → lane q repo ≢ []
  unfolding contains
  head-ne-nil repo rest e empty = ground (
    arith,
    subst (λ l. contains repo l ≡ not (is_empty (lane q repo))) e (h.served repo),
    eq_iff repo repo,
  )

  module _ (repo : String) (rest : List String) (e : q.order ≡ repo ∷ rest) where
    counted_some :
        (identifier : String) (left : List String) → lane q repo ≡ identifier ∷ left → 0 < q.depth
    counted_some identifier left held = omega (
      arith,
      ap length held,
      subst (λ l. q.depth ≡ sum_by (λ r. length (lane q r)) l) e h.counted,
    )

    serve-Turn :
        (identifier : String) (left : List String)
        → lane q repo ≡ identifier ∷ left
        → Turn q (next q)
    serve-Turn identifier left held =
        subst (Turn q) (sym (next-eq q repo rest left h identifier e held)) (
          serves repo identifier rest e refl (held ∙ ap (λ l. identifier ∷ l) (sym left_now))
            (λ other ne. lane-dispatch q repo rest left other ∙ ground (arith, eq_iff repo other))
            (order_now q repo rest left h identifier e held
              ∙ ap (λ l. if is_empty l then rest else rest ++ repo ∷ []) (sym left_now))
            (depth_now (counted_some identifier left held))
            (dispatch-IsSound q repo rest left h identifier e held))
      where
        left_now : lane (dispatch q repo rest left) repo ≡ left
        left_now = lane-dispatch q repo rest left repo ∙ ground (arith, eq_iff repo repo)

        depth_now : 0 < q.depth → q.depth ≡ (dispatch q repo rest left).depth + 1
        depth_now p = omega (arith, depth-dispatch q repo rest left)

  -- A pass of `_next` over a sound queue sleeps only if nothing is queued; otherwise it hands out
  -- the oldest identifier of the repository at the front, sends that repository to the back, or
  -- drops it if its lane is drained, leaves the other lanes as they were, counts the depth down by
  -- one and keeps the queue sound.
  pub next-Turn : Turn q (next q)
  unfolding next next_from
  next-Turn = elim (List-cases q.order) [
    | inl e ↦ sleeps e (counted_none e) (ap (next_from q) e)
    | inr (repo, rest, e) ↦ elim (List-cases (lane q repo)) [
      | inl empty ↦ absurd (head-ne-nil repo rest e empty)
      | inr (identifier, left, held) ↦ serve-Turn repo rest e identifier left held
    ]
  ]

-- Both outcomes leave a sound queue.
pub next-IsSound : (q : Queue) → IsSound q → IsSound (next q).1
next-IsSound q h = after (next-Turn q h)
  where
    after : {r : Option String × Queue} → Turn q r → IsSound r.1
    after (sleeps e _ same) = subst (λ r. IsSound r.1) (sym same) (asleep-IsSound q h e)
    after (serves repo identifier rest e _ _ _ _ _ sound) = sound
