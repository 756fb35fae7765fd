-- ===== src/Engine/Queue/Steps.antt =====
-- The queue's operations keep its invariant.
use pr_review.Prelude.{
  ℕ, ◌+◌, String, ◌≡◌, ◌≢◌, refl, sym, ap, ◌∙◌, true, false, not, some, List, [], ◌∷◌, ◌++◌, ◌==◌,
  eq_iff, arith, leb, if◌then◌else◌, length, length-append, sum_by, sum_by-append, get, get-put,
  contains, IsUnique, contains-snoc, snoc-IsUnique, sum_by-absent, sum_by-present, Bool-cases, inl,
  inr,
}
use pr_review.Engine.Queue.{Queue, lane, is_empty, admit, enqueue}
use pr_review.Engine.Queue.Invariant.{IsSound}

-- An admitted identifier goes to the back of its repository's lane; a refused one changes none.
pub lane-enqueue :
    (max_depth : ℕ) (repo identifier : String) (q : Queue) (other : String)
    → lane (enqueue max_depth repo identifier q).0 other ≡ (
        if leb max_depth q.depth
        then lane q other
        else if repo == other
        then lane q repo ++ identifier ∷ []
        else lane q other)
unfolding enqueue lane
lane-enqueue max_depth repo identifier q other =
    ground (arith, get-put q.lanes repo (lane q repo ++ identifier ∷ []) other)

snoc-ne-nil {ℓ} : {A : Type ℓ} (xs : List A) (x : A) → xs ++ x ∷ [] ≢ []
snoc-ne-nil [] x = λ e. cc
snoc-ne-nil (y ∷ xs) x = λ e. cc

is_empty-snoc : (xs : List String) (x : String) → is_empty (xs ++ x ∷ []) ≡ false
is_empty-snoc [] x = refl
is_empty-snoc (y ∷ xs) x = refl

length_zero : (xs : List String) → is_empty xs ≡ true → length xs ≡ 0
length_zero xs h = ground arith

module _ (repo identifier : String) (q : Queue) where
  pub lane-admit :
      (other : String)
      → lane (admit repo identifier q) other
        ≡ (if repo == other then lane q repo ++ identifier ∷ [] else lane q other)
  unfolding admit lane
  lane-admit other = ground (arith, get-put q.lanes repo (lane q repo ++ identifier ∷ []) other)

  order-admit :
      (admit repo identifier q).order
      ≡ (if is_empty (lane q repo) then q.order ++ repo ∷ [] else q.order)
  unfolding admit
  order-admit = refl

  pub depth-admit : (admit repo identifier q).depth ≡ q.depth + 1
  unfolding admit
  depth-admit = refl

  module _ (h : IsSound q) where
    abbrev new_lane : List String
    new_lane = lane q repo ++ identifier ∷ []

    admit-order-IsUnique : IsUnique (admit repo identifier q).order
    unfolding admit
    admit-order-IsUnique = elim (Bool-cases (is_empty (lane q repo))) [
      | inl e ↦ rw e (snoc-IsUnique repo q.order (ground (arith, h.served repo)) h.order_unique)
      | inr e ↦ rw e h.order_unique
    ]

    admit-served :
        (other : String)
        → contains other (admit repo identifier q).order
          ≡ not (is_empty (lane (admit repo identifier q) other))
    admit-served other = rw (lane-admit other) (
        unfold admit in
        ground (
          arith,
          h.served repo,
          h.served other,
          eq_iff repo other,
          contains-snoc other repo q.order,
          is_empty-snoc (lane q repo) identifier,
        ))

    admit-kept : (other : String) → get (admit repo identifier q).lanes other ≢ some []
    unfolding admit
    admit-kept other = ground (
      arith,
      get-put q.lanes repo new_lane other,
      h.kept other,
      snoc-ne-nil (lane q repo) identifier,
    )

    abbrev before : String → ℕ
    before r = length (lane q r)

    abbrev after : String → ℕ
    after r = length (lane (admit repo identifier q) r)

    after-same : (r : String) → r ≢ repo → after r ≡ before r
    after-same r ne = rw (lane-admit r) (ground (arith, eq_iff repo r))

    after-grown : after repo ≡ before repo + 1
    after-grown =
        rw (lane-admit repo)
          (ground (arith, eq_iff repo repo, length-append (lane q repo) (identifier ∷ [])))

    sum_after :
        sum_by after (if is_empty (lane q repo) then q.order ++ repo ∷ [] else q.order)
        ≡ q.depth + 1
    sum_after = elim (Bool-cases (is_empty (lane q repo))) [
      | inl e ↦ rw e (
          omega (
            arith,
            h.counted,
            after-grown,
            length_zero (lane q repo) e,
            sum_by-append after q.order (repo ∷ []),
            sum_by-absent before after repo after-same q.order (ground (arith, h.served repo)),
          ))
      | inr e ↦ rw e (
          omega (
            arith,
            h.counted,
            after-grown,
            sum_by-present before after repo after-same q.order h.order_unique
                (ground (arith, h.served repo)),
          ))
    ]

    admit-counted :
        (admit repo identifier q).depth
        ≡ sum_by (λ r. length (lane (admit repo identifier q) r)) (admit repo identifier q).order
    admit-counted = depth-admit ∙ sym (ap (sum_by after) order-admit ∙ sum_after)

    pub admit-IsSound : IsSound (admit repo identifier q)
    admit-IsSound = record {
      order_unique = admit-order-IsUnique;
      served = admit-served;
      kept = admit-kept;
      counted = admit-counted;
      awake = λ _. unfold admit in refl;
    }

pub rejected-IsSound : (q : Queue) → IsSound q → IsSound (record q { rejected = q.rejected + 1 })
unfolding lane
rejected-IsSound q h = record {
  order_unique = h.order_unique;
  served = h.served;
  kept = h.kept;
  counted = h.counted;
  awake = h.awake;
}

pub enqueue-IsSound :
    (max_depth : ℕ) (repo identifier : String) (q : Queue)
    → IsSound q
    → IsSound (enqueue max_depth repo identifier q).0
unfolding enqueue
enqueue-IsSound max_depth repo identifier q h = elim (Bool-cases (leb max_depth q.depth)) [
  | inl full ↦ rw full (rejected-IsSound q h)
  | inr room ↦ rw room (admit-IsSound repo identifier q h)
]

module _ (max_depth : ℕ) (repo identifier : String) (q : Queue) where
  pub enqueue-room :
      leb max_depth q.depth ≡ false
      → enqueue max_depth repo identifier q ≡ (admit repo identifier q, true)
  unfolding enqueue
  enqueue-room room = rw room

  pub enqueue-full :
      leb max_depth q.depth ≡ true
      → enqueue max_depth repo identifier q ≡ (record q { rejected = q.rejected + 1 }, false)
  unfolding enqueue
  enqueue-full full = rw full
