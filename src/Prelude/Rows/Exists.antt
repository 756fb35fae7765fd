-- ===== src/Prelude/Rows/Exists.antt =====
-- Whether a row that a test holds of stands in a table, after the statements.
use mathlib.Core.Path.{◌≡◌, refl, ap, ◌∙◌}
use mathlib.Core.Bool.{Bool, true, false, ◌||◌}
use mathlib.Core.Option.{Option, none, some}
use mathlib.Core.List.{List, [], ◌∷◌, ◌++◌}
use native.Mathlib.Omega.{arith}
use pr_review.Prelude.Rows.{
  some_where, first_where, all_where, update_where, upsert_where, upsert_found, sort_by, insert_by,
}

module _ {ℓ} {A : Type ℓ} where
  some_where-insert_by :
      (p : A → Bool) (le : A → A → Bool) (x : A) (xs : List A)
      → some_where p (insert_by le x xs) ≡ (p x || some_where p xs)
  unfolding some_where insert_by
  some_where-insert_by p le x [] = refl
  some_where-insert_by p le x (y ∷ ys) = ground (arith, some_where-insert_by p le x ys)

  pub some_where-sort_by :
      (p : A → Bool) (le : A → A → Bool) (xs : List A)
      → some_where p (sort_by le xs) ≡ some_where p xs
  unfolding some_where sort_by
  some_where-sort_by p le [] = refl
  some_where-sort_by p le (x ∷ xs) =
      some_where-insert_by p le x (sort_by le xs) ∙ ap (λ b. p x || b) (some_where-sort_by p le xs)

  pub some_where-update_where :
      (p q : A → Bool) (f : A → A) (xs : List A)
      → ((x : A) → q x ≡ true → p (f x) ≡ false)
      → some_where p (update_where q f xs) ≡ true
      → some_where p xs ≡ true
  unfolding some_where update_where
  some_where-update_where p q f [] moved h = h
  some_where-update_where p q f (x ∷ xs) moved h =
      ground (arith, moved x, some_where-update_where p q f xs)

  pub some_where-append :
      (p : A → Bool) (xs ys : List A)
      → some_where p (xs ++ ys) ≡ (some_where p xs || some_where p ys)
  unfolding some_where
  some_where-append p [] ys = refl
  some_where-append p (x ∷ xs) ys = ground (arith, some_where-append p xs ys)

  -- A row is open no more where an upsert writes only rows that are not, over all that have its key.
  pub some_where-upsert_where :
      (p q : A → Bool) (f : A → A) (x : A) (xs : List A)
      → ((y : A) → q y ≡ true → p (f y) ≡ false)
      → p x ≡ false
      → some_where p (upsert_where q f x xs) ≡ true
      → some_where p xs ≡ true
  unfolding upsert_where
  some_where-upsert_where p q f x xs moved new h = by_case (first_where q xs) h
    where
      by_case :
          (o : Option A) → some_where p (upsert_found o q f x xs) ≡ true → some_where p xs ≡ true
      by_case none e = unfold some_where in ground (arith, some_where-append p xs (x ∷ []))
      by_case (some y) e = some_where-update_where p q f xs moved e

  gone-update_where :
      (p q : A → Bool) (f : A → A) (xs : List A)
      → ((x : A) → q x ≡ true → p (f x) ≡ false)
      → ((x : A) → q x ≡ false → p x ≡ false)
      → some_where p (update_where q f xs) ≡ false
  unfolding some_where update_where
  gone-update_where p q f [] moved apart = refl
  gone-update_where p q f (x ∷ xs) moved apart =
      ground (arith, moved x, apart x, gone-update_where p q f xs moved apart)

  gone-first_where :
      (p q : A → Bool) (xs : List A)
      → ((x : A) → q x ≡ false → p x ≡ false)
      → first_where q xs ≡ none
      → some_where p xs ≡ false
  unfolding some_where first_where
  gone-first_where p q [] apart h = refl
  gone-first_where p q (x ∷ xs) apart h = ground (arith, apart x, gone-first_where p q xs apart)

  -- An upsert writes over every row that a test can hold of.
  pub gone-upsert_where :
      (p q : A → Bool) (f : A → A) (x : A) (xs : List A)
      → ((y : A) → q y ≡ true → p (f y) ≡ false)
      → ((y : A) → q y ≡ false → p y ≡ false)
      → p x ≡ false
      → some_where p (upsert_where q f x xs) ≡ false
  unfolding upsert_where
  gone-upsert_where p q f x xs moved apart new = by_case (first_where q xs) refl
    where
      by_case :
          (o : Option A) → first_where q xs ≡ o → some_where p (upsert_found o q f x xs) ≡ false
      by_case none e =
          unfold some_where in
          ground (arith, some_where-append p xs (x ∷ []), gone-first_where p q xs apart e)
      by_case (some y) e = gone-update_where p q f xs moved apart

  pub some_where-all_where :
      (p q : A → Bool) (xs : List A)
      → ((x : A) → p x ≡ true → q x ≡ true)
      → some_where p (all_where q xs) ≡ some_where p xs
  unfolding some_where all_where
  some_where-all_where p q [] within = refl
  some_where-all_where p q (x ∷ xs) within =
      ground (arith, within x, some_where-all_where p q xs within)
