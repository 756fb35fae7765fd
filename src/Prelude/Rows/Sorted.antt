-- ===== src/Prelude/Rows/Sorted.antt =====
-- Sorted rows, and how many of them a test holds of.
use Prim.Native.Nat.{ℕ, ◌+◌}
use mathlib.Core.Path.{◌≡◌, refl, ap, ◌∙◌}
use mathlib.Core.Bool.{Bool, true, false}
use mathlib.Core.List.{List, [], ◌∷◌}
use native.Mathlib.Omega.{arith}
use pr_review.Prelude.Lists.{All}
use pr_review.Prelude.Tests.{if◌then◌else◌}
use pr_review.Prelude.Rows.{sort_by, insert_by}

module _ {ℓ} {A : Type ℓ} where
  abbrev pub IsSorted : (A → A → Bool) → List A → Type 0
  IsSorted le [] = Unit
  IsSorted le (x ∷ []) = Unit
  IsSorted le (x ∷ y ∷ zs) = (le x y ≡ true) × IsSorted le (y ∷ zs)

  -- COUNT(*) ... WHERE
  abbrev pub count_where : (A → Bool) → List A → ℕ
  count_where p [] = 0
  count_where p (x ∷ xs) = (if p x then 1 else 0) + count_where p xs

  module _ (le : A → A → Bool) (total : (x y : A) → le x y ≡ false → le y x ≡ true) where
    if-IsSorted :
        (b : Bool) (xs zs : List A)
        → (b ≡ true → IsSorted le xs)
        → (b ≡ false → IsSorted le zs)
        → IsSorted le (if b then xs else zs)
    if-IsSorted true xs zs f g = f refl
    if-IsSorted false xs zs f g = g refl

    cons_if :
        (b : Bool) (y x z : A) (xs zs : List A)
        → le y x ≡ true
        → le y z ≡ true
        → IsSorted le (if b then x ∷ xs else z ∷ zs)
        → IsSorted le (y ∷ (if b then x ∷ xs else z ∷ zs))
    cons_if true y x z xs zs h k s = (h, s)
    cons_if false y x z xs zs h k s = (k, s)

    insert_by-IsSorted : (x : A) (xs : List A) → IsSorted le xs → IsSorted le (insert_by le x xs)
    unfolding insert_by
    insert_by-IsSorted x [] s = tt
    insert_by-IsSorted x (y ∷ []) s =
        if-IsSorted (le x y) (x ∷ y ∷ []) (y ∷ x ∷ []) (λ h. (h, tt)) (λ h. (total x y h, tt))
    insert_by-IsSorted x (y ∷ z ∷ zs) s =
        let rest = insert_by-IsSorted x (z ∷ zs) s.1 in
        if-IsSorted (le x y) (x ∷ y ∷ z ∷ zs) (y ∷ insert_by le x (z ∷ zs)) (λ h. (h, s))
          (λ h. cons_if (le x z) y x z (z ∷ zs) (insert_by le x zs) (total x y h) s.0 rest)

    pub sort_by-IsSorted : (xs : List A) → IsSorted le (sort_by le xs)
    unfolding sort_by
    sort_by-IsSorted [] = tt
    sort_by-IsSorted (x ∷ xs) = insert_by-IsSorted x (sort_by le xs) (sort_by-IsSorted xs)

  count_where-insert_by :
      (p : A → Bool) (le : A → A → Bool) (x : A) (xs : List A)
      → count_where p (insert_by le x xs) ≡ (if p x then 1 else 0) + count_where p xs
  unfolding insert_by
  count_where-insert_by p le x [] = refl
  count_where-insert_by p le x (y ∷ ys) = ground (arith, count_where-insert_by p le x ys)

  pub count_where-sort_by :
      (p : A → Bool) (le : A → A → Bool) (xs : List A)
      → count_where p (sort_by le xs) ≡ count_where p xs
  unfolding sort_by
  count_where-sort_by p le [] = refl
  count_where-sort_by p le (x ∷ xs) =
      count_where-insert_by p le x (sort_by le xs)
      ∙ ap (λ n. (if p x then 1 else 0) + n) (count_where-sort_by p le xs)

  module _ {κ} (P : A → Type κ) where
    All-either : (b : Bool) (xs ys : List A) → All P xs → All P ys → All P (if b then xs else ys)
    All-either true xs ys ps qs = ps
    All-either false xs ys ps qs = qs

    All-insert_by :
        (le : A → A → Bool) (x : A) (xs : List A) → P x → All P xs → All P (insert_by le x xs)
    unfolding insert_by
    All-insert_by le x [] p ps = (p, tt)
    All-insert_by le x (y ∷ ys) p ps =
        All-either (le x y) (x ∷ y ∷ ys) (y ∷ insert_by le x ys) (p, ps)
          (ps.0, All-insert_by le x ys p ps.1)

    pub All-sort_by : (le : A → A → Bool) (xs : List A) → All P xs → All P (sort_by le xs)
    unfolding sort_by
    All-sort_by le [] ps = tt
    All-sort_by le (x ∷ xs) ps = All-insert_by le x (sort_by le xs) ps.0 (All-sort_by le xs ps.1)
