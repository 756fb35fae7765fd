-- ===== src/Prelude/Rows.antt =====
-- Tables as lists of rows, and the SQL statements that the program makes of them. A row is chosen by a
-- test on its key columns.
pub mod Exists
pub mod Sorted
use Prim.Native.Nat.{ℕ, zero, suc}
use mathlib.Core.Path.{◌≡◌, refl, ap, ◌∙◌}
use mathlib.Core.Bool.{Bool, true, false, ◌||◌}
use mathlib.Core.Option.{Option, none, some}
use mathlib.Core.List.{List, [], ◌∷◌, ◌++◌}
use native.Mathlib.Omega.{arith}
use pr_review.Prelude.Lists.{is_nil}
use pr_review.Prelude.Tests.{if◌then◌else◌}

module _ {ℓ} {A : Type ℓ} where
  -- The first row of SELECT ... WHERE.
  unfoldable pub first_where : (A → Bool) → List A → Option A
  first_where p [] = none
  first_where p (x ∷ xs) = if p x then some x else first_where p xs

  -- EXISTS (SELECT ... WHERE)
  unfoldable pub some_where : (A → Bool) → List A → Bool
  some_where p [] = false
  some_where p (x ∷ xs) = p x || some_where p xs

  -- SELECT ... WHERE
  unfoldable pub all_where : (A → Bool) → List A → List A
  all_where p [] = []
  all_where p (x ∷ xs) = let rest = all_where p xs in if p x then x ∷ rest else rest

  -- DELETE ... WHERE
  unfoldable pub drop_where : (A → Bool) → List A → List A
  drop_where p [] = []
  drop_where p (x ∷ xs) = let rest = drop_where p xs in if p x then rest else x ∷ rest

  -- UPDATE ... WHERE
  unfoldable pub update_where : (A → Bool) → (A → A) → List A → List A
  update_where p f [] = []
  update_where p f (x ∷ xs) = (if p x then f x else x) ∷ update_where p f xs

  upsert_found : Option A → (A → Bool) → (A → A) → A → List A → List A
  upsert_found none p f x xs = xs ++ x ∷ []
  upsert_found (some _) p f x xs = update_where p f xs

  -- INSERT ... ON CONFLICT DO UPDATE: the test finds the rows in conflict.
  unfoldable pub upsert_where : (A → Bool) → (A → A) → A → List A → List A
  unfolding upsert_found
  upsert_where p f x xs = upsert_found (first_where p xs) p f x xs

  -- INSERT ... ON CONFLICT DO UPDATE under a foreign key, given whether the row has its parent; and
  -- whether it was accepted. A row in conflict is updated, and had its parent when it was inserted.
  unfoldable pub upsert_child : Bool → (A → Bool) → (A → A) → A → List A → Bool × List A
  upsert_child has_parent p f x xs =
      if has_parent || some_where p xs then (true, upsert_where p f x xs) else (false, xs)

  -- INSERT OR REPLACE
  unfoldable pub replace_where : (A → Bool) → A → List A → List A
  replace_where p x xs = drop_where p xs ++ x ∷ []

  ignore_found : Option A → A → List A → Bool × List A
  ignore_found none x xs = (true, xs ++ x ∷ [])
  ignore_found (some _) x xs = (false, xs)

  -- INSERT OR IGNORE, and whether a row was written.
  unfoldable pub insert_new : (A → Bool) → A → List A → Bool × List A
  unfolding ignore_found
  insert_new p x xs = ignore_found (first_where p xs) x xs

  insert_by : (A → A → Bool) → A → List A → List A
  insert_by le x [] = x ∷ []
  insert_by le x (y ∷ ys) = if le x y then x ∷ y ∷ ys else y ∷ insert_by le x ys

  -- ORDER BY and sorted(): rows that neither precede the other stay as they come.
  unfoldable pub sort_by : (A → A → Bool) → List A → List A
  unfolding insert_by
  sort_by le [] = []
  sort_by le (x ∷ xs) = insert_by le x (sort_by le xs)

  -- LIMIT
  unfoldable pub limit_rows : ℕ → List A → List A
  limit_rows zero xs = []
  limit_rows (suc n) [] = []
  limit_rows (suc n) (x ∷ xs) = x ∷ limit_rows n xs

  pub first_where-append :
      (p : A → Bool) (xs ys : List A)
      → first_where p xs ≡ none
      → first_where p (xs ++ ys) ≡ first_where p ys
  unfolding first_where
  first_where-append p [] ys h = refl
  first_where-append p (x ∷ xs) ys h = ground (arith, first_where-append p xs ys)

  first_where-update_where :
      (p q : A → Bool) (f : A → A) (xs : List A)
      → ((x : A) → p x ≡ true → q x ≡ false)
      → ((x : A) → p x ≡ true → q (f x) ≡ false)
      → first_where q (update_where p f xs) ≡ first_where q xs
  unfolding first_where update_where
  first_where-update_where p q f [] apart moved = refl
  first_where-update_where p q f (x ∷ xs) apart moved =
      ground (arith, apart x, moved x, first_where-update_where p q f xs apart moved)

  pub found-update_where :
      (p : A → Bool) (f : A → A) (xs : List A) (y : A)
      → ((x : A) → p x ≡ true → p (f x) ≡ true)
      → first_where p xs ≡ some y
      → first_where p (update_where p f xs) ≡ some (f y)
  unfolding first_where update_where
  found-update_where p f [] y keeps h = ground arith
  found-update_where p f (x ∷ xs) y keeps h =
      ground (arith, keeps x, found-update_where p f xs y keeps)

  -- The row that is found after an update of rows by another test, which the first does not see.
  pub found-update_other :
      (p q : A → Bool) (f : A → A) (xs : List A) (y : A)
      → ((x : A) → p (f x) ≡ p x)
      → first_where p xs ≡ some y
      → first_where p (update_where q f xs) ≡ some (if q y then f y else y)
  unfolding first_where update_where
  found-update_other p q f [] y unseen h = ground arith
  found-update_other p q f (x ∷ xs) y unseen h =
      ground (arith, unseen x, found-update_other p q f xs y unseen)

  pub first_where-snoc :
      (q : A → Bool) (xs : List A) (x : A)
      → q x ≡ false
      → first_where q (xs ++ x ∷ []) ≡ first_where q xs
  unfolding first_where
  first_where-snoc q [] x h = ground arith
  first_where-snoc q (y ∷ ys) x h = ground (arith, first_where-snoc q ys x)

  -- What an upsert of one key leaves to another.
  pub upsert_where-other :
      (p q : A → Bool) (f : A → A) (x : A) (xs : List A)
      → ((y : A) → p y ≡ true → q y ≡ false)
      → ((y : A) → p y ≡ true → q (f y) ≡ false)
      → q x ≡ false
      → first_where q (upsert_where p f x xs) ≡ first_where q xs
  unfolding upsert_where
  upsert_where-other p q f x xs apart moved new = by_case (first_where p xs)
    where
      by_case : (o : Option A) → first_where q (upsert_found o p f x xs) ≡ first_where q xs
      by_case none = first_where-snoc q xs x new
      by_case (some _) = first_where-update_where p q f xs apart moved

  -- The row after an upsert: the new one, or the old one updated.
  pub upsert_where-same :
      (p : A → Bool) (f : A → A) (x : A) (xs : List A) (o : Option A)
      → p x ≡ true
      → ((y : A) → p y ≡ true → p (f y) ≡ true)
      → first_where p xs ≡ o
      → first_where p (upsert_where p f x xs) ≡ some (elim o [ none ↦ x | some y ↦ f y ])
  unfolding upsert_where
  upsert_where-same p f x xs none new keeps e =
      ap (λ o. first_where p (upsert_found o p f x xs)) e
      ∙ first_where-append p xs (x ∷ []) e
      ∙ (unfold first_where in ground arith)
  upsert_where-same p f x xs (some y) new keeps e =
      ap (λ o. first_where p (upsert_found o p f x xs)) e ∙ found-update_where p f xs y keeps e

  pub first_where-drop_where :
      (p q : A → Bool) (xs : List A)
      → ((x : A) → p x ≡ true → q x ≡ false)
      → first_where q (drop_where p xs) ≡ first_where q xs
  unfolding first_where drop_where
  first_where-drop_where p q [] apart = refl
  first_where-drop_where p q (x ∷ xs) apart =
      ground (arith, apart x, first_where-drop_where p q xs apart)

  pub dropped-first_where : (p : A → Bool) (xs : List A) → first_where p (drop_where p xs) ≡ none
  unfolding first_where drop_where
  dropped-first_where p [] = refl
  dropped-first_where p (x ∷ xs) = ground (arith, dropped-first_where p xs)

  pub all_where-append :
      (p : A → Bool) (xs ys : List A) → all_where p (xs ++ ys) ≡ all_where p xs ++ all_where p ys
  unfolding all_where
  all_where-append p [] ys = refl
  all_where-append p (x ∷ xs) ys = ground (arith, all_where-append p xs ys)

  pub all_where-drop_where :
      (p q : A → Bool) (xs : List A)
      → ((x : A) → p x ≡ true → q x ≡ false)
      → all_where q (drop_where p xs) ≡ all_where q xs
  unfolding all_where drop_where
  all_where-drop_where p q [] apart = refl
  all_where-drop_where p q (x ∷ xs) apart =
      ground (arith, apart x, all_where-drop_where p q xs apart)

  pub dropped-all_where : (p : A → Bool) (xs : List A) → all_where p (drop_where p xs) ≡ []
  unfolding all_where drop_where
  dropped-all_where p [] = refl
  dropped-all_where p (x ∷ xs) = ground (arith, dropped-all_where p xs)

  pub first_where-holds :
      (p : A → Bool) (xs : List A) (x : A) → first_where p xs ≡ some x → p x ≡ true
  unfolding first_where
  first_where-holds p [] x e = ground arith
  first_where-holds p (y ∷ ys) x e = ground (arith, first_where-holds p ys x)

  insert_by-first :
      (le : A → A → Bool) (y x : A) (xs : List A)
      → le y x ≡ false
      → insert_by le y (x ∷ xs) ≡ x ∷ insert_by le y xs
  unfolding insert_by
  insert_by-first le y x xs h = ground arith

  -- What precedes all the others, and none of them it, comes first.
  pub sort_by-first :
      (le : A → A → Bool) (x : A) (xs : List A)
      → first_where (λ z. le z x) xs ≡ none
      → sort_by le (xs ++ x ∷ []) ≡ x ∷ sort_by le xs
  unfolding sort_by insert_by first_where
  sort_by-first le x [] h = refl
  sort_by-first le x (y ∷ ys) h =
      ap (insert_by le y) (sort_by-first le x ys (ground arith))
      ∙ insert_by-first le y x (sort_by le ys) (ground arith)

  pub first_where-kept :
      (p : A → Bool) (xs ys : List A) (x : A)
      → first_where p xs ≡ some x
      → first_where p (xs ++ ys) ≡ some x
  unfolding first_where
  first_where-kept p [] ys x e = ground arith
  first_where-kept p (z ∷ zs) ys x e = ground (arith, first_where-kept p zs ys x)

  pub insert_new-absent :
      (p : A → Bool) (x : A) (xs : List A)
      → first_where p xs ≡ none
      → insert_new p x xs ≡ (true, xs ++ x ∷ [])
  unfolding insert_new
  insert_new-absent p x xs e = ap (λ o. ignore_found o x xs) e

  pub insert_new-found :
      (p : A → Bool) (x y : A) (xs : List A)
      → first_where p xs ≡ some y
      → insert_new p x xs ≡ (false, xs)
  unfolding insert_new
  insert_new-found p x y xs e = ap (λ o. ignore_found o x xs) e

  filled-insert_by : (le : A → A → Bool) (x : A) (xs : List A) → is_nil (insert_by le x xs) ≡ false
  unfolding insert_by
  filled-insert_by le x [] = refl
  filled-insert_by le x (y ∷ ys) = ground arith

  pub is_nil-sort_by : (le : A → A → Bool) (xs : List A) → is_nil (sort_by le xs) ≡ is_nil xs
  unfolding sort_by
  is_nil-sort_by le [] = refl
  is_nil-sort_by le (x ∷ xs) = filled-insert_by le x (sort_by le xs)
