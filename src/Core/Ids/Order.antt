-- ===== src/Core/Ids/Order.antt =====
-- Identifiers of runs are in the order of their times.
use mathlib.Core.List.{reverse-cons}
use native.Mathlib.Nat.{pow-suc}
use pr_review.Prelude.{
  ℕ, zero, suc, ◌/◌, ◌%◌, ◌^◌, ◌<◌, ◌≡◌, refl, sym, ap, ap₂, ◌∙◌, subst, Bool, true, false, [], ◌∷◌,
  ◌++◌, ◌&&◌, ◌||◌, arith, ltb→lt, ◌⊎◌, ltb, eqb, length, length-append, Bool-cases, inl, inr,
}
use pr_review.Core.Ids.{Text, codes, alphabet, char_of, b32_loop, b32, run_id}

-- The order of texts.
unfoldable pub text_lt : Text → Text → Bool
text_lt [] [] = false
text_lt [] (d ∷ ds) = true
text_lt (c ∷ cs) [] = false
text_lt (c ∷ cs) (d ∷ ds) = ltb c d || (eqb c d && text_lt cs ds)

text_lt-append :
    (xs ys p q : Text)
    → length xs ≡ length ys
    → text_lt xs ys ≡ true
    → text_lt (xs ++ p) (ys ++ q) ≡ true
unfolding text_lt
text_lt-append [] [] p q e h = ground arith
text_lt-append [] (y ∷ ys) p q e h = absurd (omega arith)
text_lt-append (x ∷ xs) [] p q e h = absurd (omega arith)
text_lt-append (x ∷ xs) (y ∷ ys) p q e h = ground (arith, text_lt-append xs ys p q (omega arith))

text_lt-prefix : (xs p q : Text) → text_lt p q ≡ true → text_lt (xs ++ p) (xs ++ q) ≡ true
unfolding text_lt
text_lt-prefix [] p q h = h
text_lt-prefix (x ∷ xs) p q h = ground (arith, text_lt-prefix xs p q h)

b32-suc :
    (value width : ℕ)
    → b32 value (suc width) ≡ b32 (value / 32) width ++ char_of alphabet (value % 32) ∷ []
unfolding b32
b32-suc value width = reverse-cons (char_of alphabet (value % 32)) (b32_loop width (value / 32))

length-b32 : (width value : ℕ) → length (b32 value width) ≡ width
unfolding b32
length-b32 zero value = refl
length-b32 (suc width) value =
    ap length (b32-suc value width)
    ∙ omega (
      arith,
      length-append (b32 (value / 32) width) (char_of alphabet (value % 32) ∷ []),
      length-b32 width (value / 32),
    )

-- Each character stands above the one before it.
is_rising : ℕ → Text → Bool
is_rising low [] = true
is_rising low (c ∷ cs) = ltb low c && is_rising c cs

char_of_above :
    (low : ℕ) (cs : Text) (i : ℕ) → is_rising low cs ≡ true → i < length cs → low < char_of cs i
unfolding is_rising char_of
char_of_above low [] i h p = absurd (omega arith)
char_of_above low (c ∷ cs) zero h p = ground arith
char_of_above low (c ∷ cs) (suc i) h p = ground (arith, char_of_above c cs i)

char_of_rising :
    (low : ℕ) (cs : Text) (a b : ℕ)
    → is_rising low cs ≡ true
    → a < b
    → b < length cs
    → char_of cs a < char_of cs b
unfolding is_rising char_of
char_of_rising low [] a b h lt p = absurd (omega arith)
char_of_rising low (c ∷ cs) a zero h lt p = absurd (omega arith)
char_of_rising low (c ∷ cs) zero (suc b) h lt p = ground (arith, char_of_above c cs b)
char_of_rising low (c ∷ cs) (suc a) (suc b) h lt p = ground (arith, char_of_rising c cs a b)

alphabet_rises : is_rising 0 alphabet ≡ true
unfolding is_rising
alphabet_rises = refl

length-alphabet : length alphabet ≡ 32
length-alphabet = refl

char_of_mono : (a b : ℕ) → a < b → b < 32 → char_of alphabet a < char_of alphabet b
char_of_mono a b lt within =
    char_of_rising 0 alphabet a b alphabet_rises lt (omega (arith, length-alphabet))

abbrev last : ℕ → Text
last n = char_of alphabet (n % 32) ∷ []

last_mono : (a b : ℕ) → a % 32 < b % 32 → text_lt (last a) (last b) ≡ true
unfolding text_lt
last_mono a b lt = ground (arith, char_of_mono (a % 32) (b % 32) lt (omega arith))

b32-step :
    (width a b : ℕ)
    → a < b
    → (a / 32 < b / 32 → text_lt (b32 (a / 32) width) (b32 (b / 32) width) ≡ true)
    → (ltb (a / 32) (b / 32) ≡ true) ⊎ (ltb (a / 32) (b / 32) ≡ false)
    → text_lt (b32 (a / 32) width ++ last a) (b32 (b / 32) width ++ last b) ≡ true
b32-step width a b lt front (inl less) =
    text_lt-append (b32 (a / 32) width) (b32 (b / 32) width) (last a) (last b)
      (length-b32 width (a / 32) ∙ sym (length-b32 width (b / 32))) (front (ltb→lt _ _ less))
b32-step width a b lt front (inr more) =
    subst (λ n. text_lt (b32 (a / 32) width ++ last a) (b32 n width ++ last b) ≡ true) same
      (text_lt-prefix (b32 (a / 32) width) (last a) (last b) (last_mono a b (omega (arith, same))))
  where
    same : a / 32 ≡ b / 32
    same = ground arith

-- Two numbers that fit the width are written in their order.
pub b32_mono : (width a b : ℕ) → a < b → b < 32 ^ width → text_lt (b32 a width) (b32 b width) ≡ true
b32_mono zero a b lt within = absurd (omega arith)
b32_mono (suc width) a b lt within =
    ap₂ text_lt (b32-suc a width) (b32-suc b width)
    ∙ b32-step width a b lt (λ less. b32_mono width (a / 32) (b / 32) less high)
        (Bool-cases (ltb (a / 32) (b / 32)))
  where
    high : b / 32 < 32 ^ width
    high = omega (arith, pow-suc 32 width)

-- Of two runs whose times fit fifty bits, the one with the earlier time has the smaller identifier,
-- whatever the random parts are.
pub run_id_mono : (a b r s : ℕ) → a < b → b < 32 ^ 10 → text_lt (run_id a r) (run_id b s) ≡ true
unfolding run_id
run_id_mono a b r s lt within =
    text_lt-prefix (codes "r") (b32 a 10 ++ b32 r 8) (b32 b 10 ++ b32 s 8) (
      text_lt-append (b32 a 10) (b32 b 10) (b32 r 8) (b32 s 8)
        (length-b32 10 a ∙ sym (length-b32 10 b)) (b32_mono 10 a b lt within))
