-- ===== src/Prelude/Names.antt =====
-- Lists of texts as the program uses them for sets: membership, removal, no repetition.
use Prim.Native.Nat.{ℕ, ◌+◌}
use Prim.Native.String.{String}
use mathlib.Core.Path.{◌≡◌, refl}
use mathlib.Core.Logic.{◌≢◌}
use mathlib.Core.Bool.{Bool, true, false, ◌||◌}
use mathlib.Core.List.{List, [], ◌∷◌, ◌++◌}
use native.Mathlib.Omega.{arith}
use text.Mathlib.Text.{◌==◌}
use text.Mathlib.TextEquality.{eq_iff}
use pr_review.Prelude.Tests.{if◌then◌else◌}
use pr_review.Prelude.Lists.{sum_by}

-- `key in names`.
unfoldable pub contains : String → List String → Bool
contains k [] = false
contains k (x ∷ xs) = x == k || contains k xs

-- `names.remove(key)`: the first occurrence, and no change where there is none.
unfoldable pub remove : String → List String → List String
remove k [] = []
remove k (x ∷ xs) = if x == k then xs else x ∷ remove k xs

-- set(names), in some order
unfoldable pub distinct : List String → List String
unfolding contains
distinct [] = []
distinct (x ∷ xs) = let rest = distinct xs in if contains x xs then rest else x ∷ rest

abbrev pub IsUnique : List String → Type 0
IsUnique [] = Unit
IsUnique (x ∷ xs) = (contains x xs ≡ false) × IsUnique xs

pub contains-append :
    (k : String) (xs ys : List String) → contains k (xs ++ ys) ≡ (contains k xs || contains k ys)
unfolding contains
contains-append k [] ys = refl
contains-append k (x ∷ xs) ys = ground (arith, contains-append k xs ys)

pub contains-snoc :
    (k j : String) (xs : List String) → contains k (xs ++ j ∷ []) ≡ (contains k xs || j == k)
unfolding contains
contains-snoc k j xs = ground (arith, contains-append k xs (j ∷ []))

pub snoc-IsUnique :
    (k : String) (xs : List String) → contains k xs ≡ false → IsUnique xs → IsUnique (xs ++ k ∷ [])
unfolding contains
snoc-IsUnique k [] h u = (refl, tt)
snoc-IsUnique k (x ∷ xs) h u = (
  ground (arith, contains-snoc x k xs, eq_iff x k, eq_iff k x),
  snoc-IsUnique k xs (ground arith) u.1,
)

pub remove-snoc :
    (k : String) (xs : List String) → contains k xs ≡ false → remove k (xs ++ k ∷ []) ≡ xs
unfolding contains remove
remove-snoc k [] h = ground (arith, eq_iff k k)
remove-snoc k (x ∷ xs) h = ground (arith, remove-snoc k xs)

module _ (f g : String → ℕ) (k : String) (same : (x : String) → x ≢ k → g x ≡ f x) where
  -- Two measures that differ at one name give the same sum over a list without it.
  pub sum_by-absent : (xs : List String) → contains k xs ≡ false → sum_by g xs ≡ sum_by f xs
  unfolding contains
  sum_by-absent [] h = refl
  sum_by-absent (x ∷ xs) h = ground (arith, same x, eq_iff x k, sum_by-absent xs (ground arith))

  -- Over a list with it, the sums differ as the measures do there.
  pub sum_by-present :
      (xs : List String)
      → IsUnique xs
      → contains k xs ≡ true
      → sum_by g xs + f k ≡ sum_by f xs + g k
  unfolding contains
  sum_by-present [] u h = ground arith
  sum_by-present (x ∷ xs) u h =
      ground (arith, same x, eq_iff x k, sum_by-absent xs, sum_by-present xs u.1)
