-- ===== src/Core/Ids.antt =====
-- The identifiers of prflagger/core/ids.py that are made from numbers and names, as code points. The
-- time in milliseconds and the five random bytes are arguments.
pub mod Order
use mathlib.Core.List.{reverse}
use Prim.Native.Char.{code}
use Prim.Native.String.{String}
use pr_review.Prelude.{ℕ, zero, suc, ◌+◌, ◌/◌, ◌%◌, List, [], ◌∷◌, ◌++◌, ltb, eqb, if◌then◌else◌}

abbrev pub Text : Type 0
Text = List ℕ

abbrev pub codes : String → Text
codes String.[] = []
codes (String.◌∷◌ c s) = code c ∷ codes s

abbrev pub alphabet : Text
alphabet = codes "0123456789abcdefghjkmnpqrstvwxyz"

char_of : Text → ℕ → ℕ
char_of [] i = 0
char_of (c ∷ cs) zero = c
char_of (c ∷ cs) (suc i) = char_of cs i

-- The loop of `_b32`: `value & 0x1F` and `value >>= 5`.
b32_loop : ℕ → ℕ → Text
unfolding char_of
b32_loop zero value = []
b32_loop (suc width) value = char_of alphabet (value % 32) ∷ b32_loop width (value / 32)

unfoldable pub b32 : ℕ → ℕ → Text
unfolding b32_loop
b32 value width = reverse (b32_loop width value)

unfoldable pub run_id : ℕ → ℕ → Text
unfolding b32
run_id stamp random = codes "r" ++ (b32 stamp 10 ++ b32 random 8)

decimal_from : ℕ → ℕ → Text
decimal_from zero n = []
decimal_from (suc fuel) n =
    let front = decimal_from fuel (n / 10) in
    if ltb n 10 then (b'0' + n) ∷ [] else front ++ (b'0' + n % 10) ∷ []

unfoldable pub job_id : Text → Text → ℕ → Text
unfolding decimal_from
job_id run stage ordinal =
    run ++ (codes "-" ++ (stage ++ (codes "-" ++ decimal_from (suc ordinal) ordinal)))

-- slug.replace("/", "__")
unfoldable pub slug_key : Text → Text
slug_key [] = []
slug_key (c ∷ cs) = let rest = slug_key cs in if eqb c b'/' then b'_' ∷ b'_' ∷ rest else c ∷ rest
