-- ===== src/Engine/Queue/Fair.antt =====
-- The queue under any interleaving of submissions and dispatches.
use pr_review.Prelude.{
  ℕ, ◌+◌, ◌≤◌, ◌<◌, String, ◌≡◌, Bool, true, false, Option, none, some, List, [], ◌∷◌, ◌++◌, ◌==◌,
  ◌∙◌, ◌⊎◌, inl, inr, ap, sym, Bool-cases, eq_iff, arith, leb, if◌then◌else◌, contains,
}
use pr_review.Engine.Queue.{Queue, lane, is_empty, enqueue, next}
use pr_review.Engine.Queue.Invariant.{IsSound}
use pr_review.Engine.Queue.Steps.{enqueue-IsSound, lane-enqueue}
use pr_review.Engine.Queue.Next.{Turn, sleeps, serves, next-Turn, next-IsSound}

pub data Op : Type 0 where
  submit : (repo identifier : String) → Op
  take : Op

abbrev pub took : Option String → List String → List String
took none out = out
took (some identifier) out = identifier ∷ out

-- The queue after the operations, and the identifiers handed out on the way, oldest first.
unfoldable pub run_ops : ℕ → List Op → Queue → List String × Queue
run_ops max_depth [] q = ([], q)
run_ops max_depth (submit repo identifier ∷ ops) q =
    run_ops max_depth ops (enqueue max_depth repo identifier q).0
run_ops max_depth (take ∷ ops) q =
    let (out, after) = run_ops max_depth ops (next q).1 in (took (next q).0 out, after)

abbrev pub takes : List Op → ℕ
takes [] = 0
takes (submit _ _ ∷ ops) = takes ops
takes (take ∷ ops) = takes ops + 1

-- How many repositories have their turn before this one.
abbrev pub ahead : String → List String → ℕ
ahead repo [] = 0
ahead repo (x ∷ xs) = if x == repo then 0 else ahead repo xs + 1

ahead-append :
    (repo : String) (xs ys : List String)
    → contains repo xs ≡ true
    → ahead repo (xs ++ ys) ≡ ahead repo xs
unfolding contains
ahead-append repo [] ys h = ground arith
ahead-append repo (x ∷ xs) ys h = ground (arith, ahead-append repo xs ys)

ahead-rotate :
    (repo here : String) (rest : List String) (b : Bool)
    → here == repo ≡ false
    → contains repo (here ∷ rest) ≡ true
    → ahead repo (if b then rest else rest ++ here ∷ []) + 1 ≡ ahead repo (here ∷ rest)
unfolding contains
ahead-rotate repo here rest b other h = ground (arith, ahead-append repo rest (here ∷ []))

-- From a queue that keeps its invariant, whatever is submitted and dispatched, in whatever order,
-- the queue that is left keeps it.
pub run_ops-IsSound :
    (max_depth : ℕ) (ops : List Op) (q : Queue) → IsSound q → IsSound (run_ops max_depth ops q).1
unfolding run_ops
run_ops-IsSound max_depth [] q h = h
run_ops-IsSound max_depth (submit repo identifier ∷ ops) q h =
    run_ops-IsSound max_depth ops _ (enqueue-IsSound max_depth repo identifier q h)
run_ops-IsSound max_depth (take ∷ ops) q h =
    run_ops-IsSound max_depth ops (next q).1 (next-IsSound q h)

-- From a queue that keeps its invariant and whose depth is within the limit, whatever is submitted
-- and dispatched, the depth stays within it.
pub depth_bounded :
    (max_depth : ℕ) (ops : List Op) (q : Queue)
    → IsSound q
    → q.depth ≤ max_depth
    → (run_ops max_depth ops q).1.depth ≤ max_depth
unfolding run_ops enqueue
depth_bounded max_depth [] q h b = b
depth_bounded max_depth (submit repo identifier ∷ ops) q h b =
    depth_bounded max_depth ops _ (enqueue-IsSound max_depth repo identifier q h) (ground arith)
depth_bounded max_depth (take ∷ ops) q h b =
    depth_bounded max_depth ops (next q).1 (next-IsSound q h) (depth-next (next-Turn q h))
  where
    depth-next : {r : Option String × Queue} → Turn q r → r.1.depth ≤ max_depth
    depth-next (sleeps e zero_depth same) = ground arith
    depth-next (serves _ _ _ _ _ _ _ _ less _) = omega arith

module _ (max_depth : ℕ) (repo x : String) where
  -- `x` is the oldest identifier that waits for `repo`.
  abbrev pub IsNext : Queue → Type 0
  IsNext q = (left : List String) × (lane q repo ≡ x ∷ left)

  IsNext-contains : (q : Queue) → IsSound q → IsNext q → contains repo q.order ≡ true
  IsNext-contains q h (left, e) = ground (arith, h.served repo)

  enqueue-IsNext :
      (other identifier : String) (q : Queue)
      → IsNext q
      → IsNext (enqueue max_depth other identifier q).0
  enqueue-IsNext other identifier q (left, e) = (
    if leb max_depth q.depth then left else if other == repo then left ++ identifier ∷ [] else left,
    lane-enqueue max_depth other identifier q repo ∙ ground (arith, eq_iff other repo),
  )

  ahead-enqueue :
      (other identifier : String) (q : Queue)
      → contains repo q.order ≡ true
      → ahead repo (enqueue max_depth other identifier q).0.order ≡ ahead repo q.order
  unfolding enqueue
  ahead-enqueue other identifier q h = ground (arith, ahead-append repo q.order (other ∷ []))

  -- What a turn does to the repository that waits: it is served, or it moves one place up.
  Turn-progress :
      (q : Queue) (r : Option String × Queue)
      → IsSound q
      → IsNext q
      → Turn q r
      → (r.0 ≡ some x) ⊎ (IsNext r.1 × (ahead repo r.1.order + 1 ≡ ahead repo q.order))
  Turn-progress q r h n (sleeps none_left _ _) = absurd (lost (IsNext-contains q h n) none_left)
    where
      lost : {l : List String} → contains repo l ≡ true → l ≡ [] → ⊥
      lost c e = unfold contains in ground arith
  Turn-progress q r h (left, e) (serves here y rest first out gone kept order' _ _) =
      elim (Bool-cases (here == repo)) [
        | inl same ↦ inl (ground (arith, eq_iff here repo))
        | inr other ↦ inr ((left, kept repo (ground (arith, eq_iff here repo)) ∙ e), moved_up other)
      ]
    where
      moved_up : here == repo ≡ false → ahead repo r.1.order + 1 ≡ ahead repo q.order
      moved_up other =
          ap (λ l. ahead repo l + 1) order'
          ∙ ahead-rotate repo here rest (is_empty (lane r.1 here)) other
              (ap (contains repo) (sym first) ∙ IsNext-contains q h (left, e))
          ∙ ap (ahead repo) (sym first)

  later :
      (o : Option String) (out : List String)
      → contains x out ≡ true
      → contains x (took o out) ≡ true
  unfolding contains
  later none out c = c
  later (some y) out c = ground arith

  -- No repository starves: in a queue that keeps its invariant, its oldest identifier is among those
  -- handed out by any operations that dispatch more often than repositories stand before it,
  -- whatever is submitted in between.
  pub served_in_turn :
      (ops : List Op) (q : Queue)
      → IsSound q
      → IsNext q
      → ahead repo q.order < takes ops
      → contains x (run_ops max_depth ops q).0 ≡ true
  unfolding run_ops
  served_in_turn [] q h n p = absurd (omega arith)
  served_in_turn (submit other identifier ∷ ops) q h n p =
      served_in_turn ops _ (enqueue-IsSound max_depth other identifier q h)
        (enqueue-IsNext other identifier q n)
        (rw (ahead-enqueue other identifier q (IsNext-contains q h n)) p)
  served_in_turn (take ∷ ops) q h n p = elim (Turn-progress q (next q) h n (next-Turn q h)) [
    | inl out ↦ rw out (unfold contains in ground (arith, eq_iff x x))
    | inr (n', less) ↦
        later (next q).0 _ (served_in_turn ops (next q).1 (next-IsSound q h) n' (omega arith))
  ]
