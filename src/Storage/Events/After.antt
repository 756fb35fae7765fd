-- ===== src/Storage/Events/After.antt =====
-- The rows after a cursor, in a table whose sequence numbers ascend.
use pr_review.Prelude.{
  ℕ, zero, suc, ◌≤◌, ◌<◌, ◌≡◌, refl, sym, ap, ◌∙◌, subst, Option, String, List, [], ◌∷◌, ◌++◌,
  arith, ltb, length, Bool-cases, inl, inr,
}
use pr_review.Storage.Events.{Event, wanted, first, after, only}

-- Each sequence number is greater than the one before, and than the bound.
abbrev pub IsAscending : ℕ → List Event → Type 0
IsAscending low [] = Unit
IsAscending low (e ∷ es) = (low < e.seq) × IsAscending e.seq es

abbrev pub IsUpTo : ℕ → List Event → Type 0
IsUpTo high [] = Unit
IsUpTo high (e ∷ es) = (e.seq ≤ high) × IsUpTo high es

pub lower-IsAscending :
    (low low' : ℕ) (es : List Event) → low' ≤ low → IsAscending low es → IsAscending low' es
lower-IsAscending low low' [] p h = tt
lower-IsAscending low low' (e ∷ es) p h = (omega arith, h.1)

pub only-IsAscending :
    (run_id repo : Option String) (low : ℕ) (es : List Event)
    → IsAscending low es
    → IsAscending low (only run_id repo es)
unfolding only
only-IsAscending run_id repo low [] h = tt
only-IsAscending run_id repo low (e ∷ es) h = elim (Bool-cases (wanted run_id repo e)) [
  | inl fits ↦ rw fits (h.0, only-IsAscending run_id repo e.seq es h.1)
  | inr other ↦ rw other (
      only-IsAscending run_id repo low es (lower-IsAscending e.seq low es (omega (arith, h.0)) h.1))
]

pub snoc-IsAscending :
    (low high : ℕ) (es : List Event) (e : Event)
    → low ≤ high
    → high < e.seq
    → IsUpTo high es
    → IsAscending low es
    → IsAscending low (es ++ e ∷ [])
snoc-IsAscending low high [] e p q u h = (omega arith, tt)
snoc-IsAscending low high (x ∷ es) e p q u h = (h.0, snoc-IsAscending x.seq high es e u.0 q u.1 h.1)

pub snoc-IsUpTo :
    (high : ℕ) (es : List Event) (e : Event)
    → IsUpTo high es
    → high ≤ e.seq
    → IsUpTo e.seq (es ++ e ∷ [])
snoc-IsUpTo high [] e u p = (omega arith, tt)
snoc-IsUpTo high (x ∷ es) e u p = (omega (arith, u.0), snoc-IsUpTo high es e u.1 p)

pub after-append : (d : ℕ) (xs ys : List Event) → after d (xs ++ ys) ≡ after d xs ++ after d ys
unfolding after
after-append d [] ys = refl
after-append d (x ∷ xs) ys = ground (arith, after-append d xs ys)

pub only-append :
    (run_id repo : Option String) (xs ys : List Event)
    → only run_id repo (xs ++ ys) ≡ only run_id repo xs ++ only run_id repo ys
unfolding only
only-append run_id repo [] ys = refl
only-append run_id repo (x ∷ xs) ys = ground (arith, only-append run_id repo xs ys)

-- All of an ascending list is after its bound.
pub after-all : (d low : ℕ) (es : List Event) → d ≤ low → IsAscending low es → after d es ≡ es
unfolding after
after-all d low [] p h = refl
after-all d low (e ∷ es) p h = ground (arith, h.0, after-all d e.seq es (omega (arith, h.0)) h.1)

pub after-none : (d : ℕ) (es : List Event) → IsUpTo d es → after d es ≡ []
unfolding after
after-none d [] u = refl
after-none d (e ∷ es) u = ground (arith, u.0, after-none d es u.1)

pub after-after : (c d : ℕ) (es : List Event) → c ≤ d → after d (after c es) ≡ after d es
unfolding after
after-after c d [] p = refl
after-after c d (e ∷ es) p = ground (arith, after-after c d es p)

pub after-IsAscending :
    (d low : ℕ) (es : List Event) → IsAscending low es → IsAscending d (after d es)
unfolding after
after-IsAscending d low [] h = tt
after-IsAscending d low (e ∷ es) h = elim (Bool-cases (ltb d e.seq)) [
  | inl later ↦
      rw later (
        ground arith,
        subst (IsAscending e.seq) (sym (after-all d e.seq es (ground arith) h.1)) h.1,
      )
  | inr early ↦ rw early (after-IsAscending d e.seq es h.1)
]

-- Once its head has been taken, what is left is after the head.
pub after-head :
    (d low : ℕ) (es : List Event) (e : Event) (rest : List Event)
    → IsAscending low es
    → after d es ≡ e ∷ rest
    → d ≤ e.seq
    → after e.seq es ≡ rest
unfolding after
after-head d low es e rest h same p =
    sym (after-after d e.seq es p)
    ∙ ap (after e.seq) same
    ∙ taken (subst (IsAscending d) same (after-IsAscending d low es h))
  where
    taken : IsAscending d (e ∷ rest) → after e.seq (e ∷ rest) ≡ rest
    taken a = ground (arith, after-all e.seq e.seq rest (omega arith) a.1)

-- The last sequence number of a list, or the one given.
unfoldable pub last_seq : ℕ → List Event → ℕ
last_seq d [] = d
last_seq d (e ∷ es) = last_seq e.seq es

-- A chunk of an ascending list, and what is after the chunk, are the list.
pub first-after :
    (n d : ℕ) (es : List Event)
    → IsAscending d es
    → first n es ++ after (last_seq d (first n es)) es ≡ es
unfolding first last_seq after
first-after zero d es h = after-all d d es (omega arith) h
first-after (suc n) d [] h = refl
first-after (suc n) d (e ∷ es) h =
    ap (λ l. e ∷ l)
      (ap (λ l. first n es ++ l)
          (skip_head (last_seq-le e.seq (first n es) (first-IsAscending n e.seq es h.1)))
        ∙ first-after n e.seq es h.1)
  where
    last_seq-le : (low : ℕ) (xs : List Event) → IsAscending low xs → low ≤ last_seq low xs
    last_seq-le low [] a = omega arith
    last_seq-le low (x ∷ xs) a = omega (arith, a.0, last_seq-le x.seq xs a.1)

    first-IsAscending :
        (m low : ℕ) (xs : List Event) → IsAscending low xs → IsAscending low (first m xs)
    first-IsAscending zero low xs a = tt
    first-IsAscending (suc m) low [] a = tt
    first-IsAscending (suc m) low (x ∷ xs) a = (a.0, first-IsAscending m x.seq xs a.1)

    skip_head : {k : ℕ} → e.seq ≤ k → after k (e ∷ es) ≡ after k es
    skip_head p = ground arith

-- A chunk that is not full is all there was.
pub first-short : (n : ℕ) (es : List Event) → length (first n es) < n → first n es ≡ es
unfolding first
first-short zero es p = absurd (omega arith)
first-short (suc n) [] p = refl
first-short (suc n) (e ∷ es) p = ap (λ l. e ∷ l) (first-short n es (omega arith))

pub only-IsUpTo :
    (run_id repo : Option String) (high : ℕ) (es : List Event)
    → IsUpTo high es
    → IsUpTo high (only run_id repo es)
unfolding only
only-IsUpTo run_id repo high [] u = tt
only-IsUpTo run_id repo high (e ∷ es) u = elim (Bool-cases (wanted run_id repo e)) [
  | inl fits ↦ rw fits (u.0, only-IsUpTo run_id repo high es u.1)
  | inr other ↦ rw other (only-IsUpTo run_id repo high es u.1)
]

pub after-IsUpTo : (d high : ℕ) (es : List Event) → IsUpTo high es → IsUpTo high (after d es)
unfolding after
after-IsUpTo d high [] u = tt
after-IsUpTo d high (e ∷ es) u = elim (Bool-cases (ltb d e.seq)) [
  | inl later ↦ rw later (u.0, after-IsUpTo d high es u.1)
  | inr early ↦ rw early (after-IsUpTo d high es u.1)
]

pub last_seq-first-le :
    (n d high : ℕ) (es : List Event) → IsUpTo high es → d ≤ high → last_seq d (first n es) ≤ high
unfolding last_seq first
last_seq-first-le zero d high es u p = p
last_seq-first-le (suc n) d high [] u p = p
last_seq-first-le (suc n) d high (e ∷ es) u p = last_seq-first-le n e.seq high es u.1 u.0

pub le-last_seq-first : (n d : ℕ) (es : List Event) → IsAscending d es → d ≤ last_seq d (first n es)
unfolding last_seq first
le-last_seq-first zero d es a = omega arith
le-last_seq-first (suc n) d [] a = omega arith
le-last_seq-first (suc n) d (e ∷ es) a = omega (arith, a.0, le-last_seq-first n e.seq es a.1)
