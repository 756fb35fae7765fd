-- ===== src/Prelude/Texts.antt =====
-- Texts as the program builds and cuts them.
pub mod Order
use Prim.Native.Nat.{ℕ, zero, suc, ◌+◌, ◌-◌, ◌*◌, ◌/◌, ◌%◌}
use Prim.Native.Char.{Char, code}
use Prim.Native.String.{String, compare}
use Prim.Native.String.{◌++◌ as join}
use mathlib.Core.Bool.{Bool, true, false, ◌&&◌, ◌||◌}
use mathlib.Core.Option.{Option, none, some}
use mathlib.Core.List.{List, [], ◌∷◌}
use text.Mathlib.Text.{is_le, ◌==◌}
use pr_review.Prelude.Tests.{eqb, leb, ltb, if◌then◌else◌}

abbrev pub text_le : String → String → Bool
text_le s t = is_le (compare s t)

-- "".join
unfoldable pub concat : List String → String
concat [] = ""
concat (s ∷ ss) = join s (concat ss)

-- sep.join
unfoldable pub join_with : String → List String → String
join_with sep [] = ""
join_with sep (s ∷ []) = s
join_with sep (s ∷ t ∷ ss) = join s (join sep (join_with sep (t ∷ ss)))

-- The rest of a text that begins with a prefix.
unfoldable pub after_text : String → String → Option String
after_text String.[] s = some s
after_text (String.◌∷◌ c p) String.[] = none
after_text (String.◌∷◌ c p) (String.◌∷◌ d s) =
    let rest = after_text p s in if eqb (code c) (code d) then rest else none

abbrev pub is_some {ℓ} : {A : Type ℓ} → Option A → Bool
is_some none = false
is_some (some _) = true

-- s.startswith(prefix)
unfoldable pub begins : String → String → Bool
unfolding after_text
begins prefix s = is_some (after_text prefix s)

-- s.split(sep, 1)[0]
unfoldable pub before : String → String → String
unfolding begins
before sep String.[] = String.[]
before sep (String.◌∷◌ c s) =
    let rest = before sep s in if begins sep (String.◌∷◌ c s) then String.[] else String.◌∷◌ c rest

-- sep in s, for a separator that is not empty
unfoldable pub includes : String → String → Bool
unfolding begins
includes sep String.[] = false
includes sep (String.◌∷◌ c s) =
    let rest = includes sep s in if begins sep (String.◌∷◌ c s) then true else rest

-- s.partition(sep)[2]
unfoldable pub after_first : String → String → String
unfolding after_text
after_first sep String.[] = String.[]
after_first sep (String.◌∷◌ c s) =
    let rest = after_first sep s in
    elim (after_text sep (String.◌∷◌ c s)) [ none ↦ rest | some found ↦ found ]

-- s.endswith(suffix), for a suffix that is not empty
unfoldable pub ends : String → String → Bool
ends suffix String.[] = false
ends suffix (String.◌∷◌ c s) = let rest = ends suffix s in String.◌∷◌ c s == suffix || rest

-- s.removesuffix(suffix), for a suffix that is not empty
unfoldable pub without_suffix : String → String → String
without_suffix suffix String.[] = String.[]
without_suffix suffix (String.◌∷◌ c s) =
    let rest = without_suffix suffix s in
    if String.◌∷◌ c s == suffix then String.[] else String.◌∷◌ c rest

-- s.replace(a, b), for single characters
unfoldable pub replace_char : Char → Char → String → String
replace_char a b String.[] = String.[]
replace_char a b (String.◌∷◌ c s) =
    String.◌∷◌ (if eqb (code c) (code a) then b else c) (replace_char a b s)

-- len(s)
unfoldable pub text_length : String → ℕ
text_length String.[] = 0
text_length (String.◌∷◌ c s) = suc (text_length s)

-- s[:n]
unfoldable pub take_text : ℕ → String → String
take_text zero s = String.[]
take_text (suc n) String.[] = String.[]
take_text (suc n) (String.◌∷◌ c s) = String.◌∷◌ c (take_text n s)

-- str.isspace, for one character
is_space : ℕ → Bool
is_space c =
    (leb 9 c && leb c 13)
    || (leb 28 c && leb c 32)
    || eqb c 133
    || eqb c 160
    || eqb c 5760
    || (leb 8192 c && leb c 8202)
    || eqb c 8232
    || eqb c 8233
    || eqb c 8239
    || eqb c 8287
    || eqb c 12288

strip_start : String → String
unfolding is_space
strip_start String.[] = String.[]
strip_start (String.◌∷◌ c s) =
    let rest = strip_start s in if is_space (code c) then rest else String.◌∷◌ c s

strip_end : String → String
unfolding is_space
strip_end String.[] = String.[]
strip_end (String.◌∷◌ c s) =
    let rest = strip_end s in
    if is_space (code c) && rest == "" then String.[] else String.◌∷◌ c rest

-- s.strip()
unfoldable pub strip_text : String → String
unfolding strip_start strip_end
strip_text s = strip_end (strip_start s)

-- The words of a text, the first of which it may begin with.
words_from : String → String × List String
unfolding is_space
words_from String.[] = (String.[], [])
words_from (String.◌∷◌ c s) =
    let (w, ws) = words_from s in
    if is_space (code c) then (String.[], if w == "" then ws else w ∷ ws) else (String.◌∷◌ c w, ws)

-- s.split()
unfoldable pub words : String → List String
unfolding words_from
words s = let (w, ws) = words_from s in if w == "" then ws else w ∷ ws

-- part in s
unfoldable pub occurs : String → String → Bool
unfolding includes
occurs part s = part == "" || includes part s

abbrev is_digit : ℕ → Bool
is_digit c = leb b'0' c && leb c b'9'

digits_of : ℕ → String → ℕ × String
digits_of n String.[] = (n, String.[])
digits_of n (String.◌∷◌ c s) =
    let rest = digits_of (n * 10 + (code c - b'0')) s in
    if is_digit (code c) then rest else (n, String.◌∷◌ c s)

-- (\\d+) at the start of a text, read by int(), and the rest; a digit is an ASCII one.
unfoldable pub leading_number : String → Option (ℕ × String)
unfolding digits_of
leading_number String.[] = none
leading_number (String.◌∷◌ c s) =
    if is_digit (code c) then some (digits_of 0 (String.◌∷◌ c s)) else none

digit_text : ℕ → String
digit_text n =
    if eqb n 0
    then "0"
    else if eqb n 1
    then "1"
    else if eqb n 2
    then "2"
    else if eqb n 3
    then "3"
    else if eqb n 4
    then "4"
    else if eqb n 5
    then "5"
    else if eqb n 6
    then "6"
    else if eqb n 7
    then "7"
    else if eqb n 8
    then "8"
    else "9"

digits_from : ℕ → ℕ → String
unfolding digit_text
digits_from zero n = ""
digits_from (suc fuel) n =
    let front = digits_from fuel (n / 10) in
    if ltb n 10 then digit_text n else join front (digit_text (n % 10))

-- str(n); a number has fewer digits than its value plus one.
unfoldable pub decimal : ℕ → String
unfolding digits_from
decimal n = digits_from (suc n) n
