-- ===== src/Prelude/Texts/Order.antt =====
-- Any two texts are in order, one way or the other.
use Prim.Native.Nat.{Ordering, compare as compare_ℕ}
use Prim.Native.Char.{code}
use Prim.Native.String.{String, compare, then}
use Prim.Native.String.compare
use mathlib.Core.Path.{◌≡◌, refl, sym, ap, subst, ◌∙◌}
use mathlib.Core.Bool.{true, false}
use native.Mathlib.Omega.{arith}
use text.Mathlib.Text.{is_le}
use pr_review.Prelude.Texts.{text_le}

then_total :
    (o o' p p' : Ordering)
    → (o ≡ Ordering.gt → o' ≡ Ordering.lt)
    → (o ≡ Ordering.eq → o' ≡ Ordering.eq)
    → (is_le p ≡ false → is_le p' ≡ true)
    → is_le (then o p) ≡ false
    → is_le (then o' p') ≡ true
then_total Ordering.lt o' p p' f g h e = ground arith
then_total Ordering.eq o' p p' f g h e = subst (λ o. is_le (then o p') ≡ true) (sym (g refl)) (h e)
then_total Ordering.gt o' p p' f g h e = subst (λ o. is_le (then o p') ≡ true) (sym (f refl)) refl

pub text_le_total : (s t : String) → text_le s t ≡ false → text_le t s ≡ true
text_le_total String.[] String.[] h = refl
text_le_total String.[] (String.◌∷◌ d t) h = ground (arith, ap is_le (compare.nil-cons d t))
text_le_total (String.◌∷◌ c s) String.[] h = ap is_le (compare.nil-cons c s)
text_le_total (String.◌∷◌ c s) (String.◌∷◌ d t) h =
    ap is_le (compare.cons-cons d c t s)
    ∙ then_total (compare_ℕ (code c) (code d)) (compare_ℕ (code d) (code c)) (compare s t)
        (compare t s) (λ e. ground arith) (λ e. ground arith) (text_le_total s t)
        (ap is_le (sym (compare.cons-cons c d s t)) ∙ h)
