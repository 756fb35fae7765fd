-- ===== src/Engine/Queue/Turns.antt =====
-- One turn of `_next`: what it hands out, and that it keeps the queue's invariant.
use pr_review.Prelude.{
  ℕ, ◌+◌, ◌-◌, String, ◌≡◌, ◌≢◌, sym, ap, ◌∙◌, subst, true, false, not, some, List, [], ◌∷◌, ◌++◌,
  ◌==◌, eq_iff, arith, if◌then◌else◌, length, sum_by, sum_by-append, get, get-put, get-pop,
  contains, IsUnique, contains-snoc, snoc-IsUnique, remove-snoc, sum_by-absent, Bool-cases, inl,
  inr,
}
use pr_review.Engine.Queue.{Queue, lane, is_empty, next, next_from, take_turn, dispatch}
use pr_review.Engine.Queue.Invariant.{IsSound}

module _ (q : Queue) (repo : String) (rest left : List String) where
  pub lane-dispatch :
      (other : String)
      → lane (dispatch q repo rest left) other ≡ (if repo == other then left else lane q other)
  unfolding dispatch lane
  lane-dispatch other = ground (arith, get-put q.lanes repo left other, get-pop q.lanes repo other)

  pub depth-dispatch : (dispatch q repo rest left).depth ≡ q.depth - 1
  unfolding dispatch
  depth-dispatch = ground arith

  waiting-dispatch : (dispatch q repo rest left).waiting ≡ q.waiting
  unfolding dispatch
  waiting-dispatch = ground arith

  order-dispatch :
      contains repo rest ≡ false
      → (dispatch q repo rest left).order ≡ (if is_empty left then rest else rest ++ repo ∷ [])
  unfolding dispatch
  order-dispatch new = ground (arith, remove-snoc repo rest)

  module _ (h : IsSound q) (identifier : String) (first : q.order ≡ repo ∷ rest)
      (held : lane q repo ≡ identifier ∷ left) where
    -- The oldest identifier of the repository whose turn it is.
    pub next-eq : next q ≡ (some identifier, dispatch q repo rest left)
    unfolding next
    next-eq = ap (next_from q) first ∙ ap (λ l. take_turn q repo rest l (next_from q rest)) held

    unique : IsUnique (repo ∷ rest)
    unique = subst IsUnique first h.order_unique

    served_now : (other : String) → contains other (repo ∷ rest) ≡ not (is_empty (lane q other))
    served_now other =
        subst (λ l. contains other l ≡ not (is_empty (lane q other))) first (h.served other)

    counted_now : q.depth ≡ sum_by (λ r. length (lane q r)) (repo ∷ rest)
    counted_now = subst (λ l. q.depth ≡ sum_by (λ r. length (lane q r)) l) first h.counted

    abbrev before : String → ℕ
    before r = length (lane q r)

    abbrev after : String → ℕ
    after r = length (lane (dispatch q repo rest left) r)

    after-same : (r : String) → r ≢ repo → after r ≡ before r
    after-same r ne = rw (lane-dispatch r) (ground (arith, eq_iff repo r))

    after_here : after repo ≡ length left
    after_here = rw (lane-dispatch repo) (ground (arith, eq_iff repo repo))

    before_here : before repo ≡ length left + 1
    before_here = rw held (omega arith)

    pub order_now :
        (dispatch q repo rest left).order ≡ (if is_empty left then rest else rest ++ repo ∷ [])
    order_now = order-dispatch unique.0

    sum_after : sum_by after (if is_empty left then rest else rest ++ repo ∷ []) ≡ q.depth - 1
    sum_after = elim (Bool-cases (is_empty left)) [
      | inl e ↦ rw e (
          omega (
            arith,
            counted_now,
            before_here,
            ap length (nil_of left e),
            sum_by-absent before after repo after-same rest unique.0,
          ))
      | inr e ↦ rw e (
          omega (
            arith,
            counted_now,
            before_here,
            after_here,
            sum_by-append after rest (repo ∷ []),
            sum_by-absent before after repo after-same rest unique.0,
          ))
    ]
      where
        nil_of : (l : List String) → is_empty l ≡ true → l ≡ []
        nil_of l e = ground arith

    dispatch-order-IsUnique : IsUnique (dispatch q repo rest left).order
    dispatch-order-IsUnique = elim (Bool-cases (is_empty left)) [
      | inl e ↦ rw (order_now, e) unique.1
      | inr e ↦ rw (order_now, e) (snoc-IsUnique repo rest unique.0 unique.1)
    ]

    dispatch-served :
        (other : String)
        → contains other (dispatch q repo rest left).order
          ≡ not (is_empty (lane (dispatch q repo rest left) other))
    dispatch-served other =
        ap (contains other) order_now
        ∙ (unfold contains in
            ground (
              arith,
              lane-dispatch other,
              served_now other,
              unique.0,
              eq_iff repo other,
              contains-snoc other repo rest,
            ))

    dispatch-kept : (other : String) → get (dispatch q repo rest left).lanes other ≢ some []
    unfolding dispatch
    dispatch-kept other =
        ground (arith, get-put q.lanes repo left other, get-pop q.lanes repo other, h.kept other)

    pub dispatch-IsSound : IsSound (dispatch q repo rest left)
    dispatch-IsSound = record {
      order_unique = dispatch-order-IsUnique;
      served = dispatch-served;
      kept = dispatch-kept;
      counted = depth-dispatch ∙ sym (ap (sum_by after) order_now ∙ sum_after);
      awake = λ p. waiting-dispatch ∙ h.awake (omega (arith, depth-dispatch));
    }
