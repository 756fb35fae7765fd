-- ===== src/Sandbox/Stream.antt =====
-- The two bounds on a job's output in prflagger/sandbox/stream.py, and the loop that reads it. What
-- `readline` gives is an argument: a decoded line, or a line beyond the reader's limit. Both
-- streams of a job share one transcript budget, and each has its capture; a text is its code points.
pub mod Bounds
pub mod Notices
pub mod Captured
use Prim.Native.Char.{code}
use pr_review.Prelude.{
  ℕ, zero, suc, ◌+◌, ◌-◌, ◌/◌, ◌%◌, String, Bool, true, false, List, [], ◌∷◌, ◌++◌, ◌&&◌, ◌||◌, ltb,
  eqb, if◌then◌else◌, length,
}

abbrev pub Text : Type 0
Text = List ℕ

abbrev codes : String → Text
codes String.[] = []
codes (String.◌∷◌ c s) = code c ∷ codes s

pub record Budget : Type 0 where
  pub max_lines : ℕ
  pub max_bytes : ℕ
  pub lines : ℕ
  pub bytes : ℕ
  pub tripped : Bool

-- `_Budget.allow`
unfoldable pub allow : Text → Budget → Bool × Budget
allow text b =
    let next = record b { lines = b.lines + 1; bytes = b.bytes + length text } in
    if b.tripped
    then (false, b)
    else if ltb b.max_lines next.lines || ltb b.max_bytes next.bytes
    then (false, record next { tripped = true })
    else (true, next)

pub record Capture : Type 0 where
  pub max_bytes : ℕ
  pub lines : List Text
  pub bytes : ℕ
  pub full : Bool

-- `_Capture.keep`
unfoldable pub keep : Text → Capture → Capture
keep text c =
    let size = c.bytes + length text + 1 in
    if c.full
    then c
    else if ltb c.max_bytes size
    then record c { bytes = size; full = true }
    else record c { bytes = size; lines = c.lines ++ text ∷ [] }

pub data Stream : Type 0 where
  stdout stderr : Stream

pub data Read : Type 0 where
  line : Stream → Text → Read
  too_long : Stream → Read

-- What `on_line` is given.
pub data Shown : Type 0 where
  output : Stream → Text → Shown
  dropped_notice : Shown
  limit_notice : Shown

abbrev pub max_line_chars : ℕ
max_line_chars = 20000

take_chars : ℕ → Text → Text
take_chars zero t = []
take_chars (suc n) [] = []
take_chars (suc n) (c ∷ cs) = c ∷ take_chars n cs

decimal_from : ℕ → ℕ → Text
decimal_from zero n = []
decimal_from (suc fuel) n =
    let front = decimal_from fuel (n / 10) in
    if ltb n 10 then (b'0' + n) ∷ [] else front ++ (b'0' + n % 10) ∷ []

-- A long line is cut for display.
unfoldable pub display : Text → Text
unfolding take_chars decimal_from
display text =
    let hidden = length text - max_line_chars in
    if ltb max_line_chars (length text)
    then take_chars max_line_chars text
      ++ (codes "… [" ++ (decimal_from (suc hidden) hidden ++ codes " more characters]"))
    else text

pub record State : Type 0 where
  pub budget : Budget
  pub out : Capture
  pub err : Capture
  pub shown : List Shown

-- After `allow` has answered.
pub answer : Stream → Text → Bool × Budget → List Shown → List Shown × Budget
answer stream text (true, b) seen = (seen ++ output stream text ∷ [], b)
answer stream text (false, b) seen =
    (if b.tripped && eqb b.lines (b.max_lines + 1) then seen ++ limit_notice ∷ [] else seen, b)

unfoldable pub on_capture : Stream → (Capture → Capture) → State → State
on_capture stdout f s = record s { out = f s.out }
on_capture stderr f s = record s { err = f s.err }

-- One turn of `_drain`, for either stream.
unfoldable pub read_one : Read → State → State
unfolding answer on_capture
read_one (too_long stream) s =
    on_capture stream (λ c. record c { full = true })
      (record s { shown = s.shown ++ dropped_notice ∷ [] })
read_one (line stream text) s =
    let (seen, b) = answer stream (display text) (allow (display text) s.budget) s.shown in
    on_capture stream (keep text) (record s { budget = b; shown = seen })

-- The turns of both streams' loops, in the order in which they happen.
unfoldable pub drain : List Read → State → State
unfolding read_one
drain [] s = s
drain (r ∷ rs) s = drain rs (read_one r s)

-- What `run_streaming` starts with.
unfoldable pub fresh : ℕ → ℕ → ℕ → State
fresh max_lines max_bytes max_capture_bytes = record {
  budget = record {
    max_lines = max_lines;
    max_bytes = max_bytes;
    lines = 0;
    bytes = 0;
    tripped = false;
  };
  out = record { max_bytes = max_capture_bytes; lines = []; bytes = 0; full = false };
  err = record { max_bytes = max_capture_bytes; lines = []; bytes = 0; full = false };
  shown = [];
}
