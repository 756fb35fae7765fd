-- ===== src/Adjudicate/Citations/Held.antt =====
-- A reference that resolves points at something that is there.
use pr_review.Prelude.{
  ◌≤◌, String, ◌≡◌, refl, subst, Bool, true, false, not, Option, none, some, List, ◌==◌, ◌&&◌, ltb,
  if◌then◌else◌, contains, length, take_text, strip_text, get, arith, eq_iff, Bool-cases, inl, inr,
  ◌⊎◌,
}
use pr_review.Core.Records.{Citation}
use pr_review.Adjudicate.Citations.{
  Evidence, Place, contains_text, excerpt, in_bounds, place_of, quoted, at_lines, at_place,
  from_claim, resolve_code, when_held, diff_path, resolve,
}

-- A quote of a text: the given one, which the text contains, or the fill where none is given.
pub data IsQuote (text given fill quote : String) : Type 0 where
  found : quote ≡ given → contains_text text given ≡ true → IsQuote text given fill quote
  filled : given ≡ "" → quote ≡ fill → IsQuote text given fill quote

-- What a citation of the evidence points at.
pub data IsHeld (e : Evidence) (type_ ref given quote : String) : Type 0 where
  norm :
      type_ ≡ "norm"
      → contains ref e.norm_ids ≡ true
      → quote ≡ given
      → IsHeld e type_ ref given quote
  test :
      type_ ≡ "test"
      → contains ref e.test_ids ≡ true
      → quote ≡ given
      → IsHeld e type_ ref given quote
  diff :
      type_ ≡ "diff"
      → contains (diff_path ref) e.changed_paths ≡ true
      → quote ≡ given
      → IsHeld e type_ ref given quote
  claim :
      (text : String)
      → type_ ≡ "code"
      → get e.charter_sources ref ≡ some text
      → IsQuote text given (take_text 200 text) quote
      → IsHeld e type_ ref given quote
  lines :
      (p : Place) (ls : List String)
      → type_ ≡ "code"
      → place_of ref ≡ some p
      → in_bounds p ≡ true
      → e.read p.side p.path ≡ some ls
      → p.last ≤ length ls
      → IsQuote (excerpt p ls) given (take_text 200 (strip_text (excerpt p ls))) quote
      → IsHeld e type_ ref given quote

-- What a branch that gave a citation tested.
some_not :
    (b : Bool) (o : Option Citation) (c : Citation)
    → (if b then none else o) ≡ some c
    → (b ≡ false) × (o ≡ some c)
some_not true o c h = ground arith
some_not false o c h = (refl, h)

some-if :
    (b : Bool) (o : Option Citation) (c : Citation)
    → (if b then o else none) ≡ some c
    → (b ≡ true) × (o ≡ some c)
some-if true o c h = (refl, h)
some-if false o c h = ground arith

some_inj : (x c : Citation) → some x ≡ some c → x ≡ c
some_inj x c h = ground arith

-- The citation has the type, and its quote is of the text.
abbrev Quotes : String → String → String → String → Citation → Type 0
Quotes ref text given fill c = (c.type_ ≡ "code") × (c.ref ≡ ref) × IsQuote text given fill c.quote

quote_of :
    (ref text given fill : String) (c : Citation)
    → quoted "code" ref text given fill ≡ some c
    → Quotes ref text given fill c
unfolding quoted
quote_of ref text given fill c h =
    let held = some_not (not (given == "") && not (contains_text text given)) _ c h in
    subst (Quotes ref text given fill) (some_inj _ c held.1)
      (refl, refl, kind (Bool-cases (given == "")) held.0)
  where
    kind :
        ((given == "") ≡ true) ⊎ ((given == "") ≡ false)
        → (not (given == "") && not (contains_text text given)) ≡ false
        → IsQuote text given fill (if given == "" then fill else given)
    kind (inl e) k = filled (ground (arith, eq_iff given "")) (ground arith)
    kind (inr e) k = found (ground arith) (ground arith)

-- A citation for a reference.
abbrev Holds : Evidence → String → String → String → Citation → Type 0
Holds e type_ ref given c = (c.type_ ≡ type_) × (c.ref ≡ ref) × IsHeld e type_ ref given c.quote

lines_held :
    (ref given : String) (e : Evidence) (p : Place) (o : Option (List String)) (c : Citation)
    → place_of ref ≡ some p
    → in_bounds p ≡ true
    → e.read p.side p.path ≡ o
    → at_lines ref given p o ≡ some c
    → Holds e "code" ref given c
unfolding at_lines
lines_held ref given e p none c here within read h = ground arith
lines_held ref given e p (some ls) c here within read h =
    let fits = some_not (ltb (length ls) p.last) _ c h in
    let q = quote_of ref (excerpt p ls) given _ c fits.1 in
    (q.0, q.1, lines p ls refl here within read (ground (arith, fits.0)) q.2)

place_held :
    (ref given : String) (e : Evidence) (o : Option Place) (c : Citation)
    → place_of ref ≡ o
    → at_place ref given e o ≡ some c
    → Holds e "code" ref given c
unfolding at_place
place_held ref given e none c here h = ground arith
place_held ref given e (some p) c here h =
    let within = some-if (in_bounds p) _ c h in
    lines_held ref given e p (e.read p.side p.path) c here within.0 refl within.1

code_held :
    (ref given : String) (e : Evidence) (o : Option String) (c : Citation)
    → get e.charter_sources ref ≡ o
    → from_claim ref given e o ≡ some c
    → Holds e "code" ref given c
unfolding from_claim
code_held ref given e none c source h = place_held ref given e (place_of ref) c refl h
code_held ref given e (some text) c source h =
    let q = quote_of ref text given _ c h in (q.0, q.1, claim text refl source q.2)

when_held_lem :
    (e : Evidence) (held : Bool) (type_ ref given : String) (c : Citation)
    → (held ≡ true → IsHeld e type_ ref given given)
    → when_held held type_ ref given ≡ some c
    → Holds e type_ ref given c
when_held_lem e held type_ ref given c f h =
    let t = some-if held _ c h in
    subst (Holds e type_ ref given) (some_inj _ c t.1) (refl, refl, f t.0)

by_type :
    (type_ name : String) (e : Evidence) (ref given : String) (x y : Option Citation) (c : Citation)
    → (x ≡ some c → Holds e name ref given c)
    → (y ≡ some c → Holds e type_ ref given c)
    → (if type_ == name then x else y) ≡ some c
    → Holds e type_ ref given c
by_type type_ name e ref given x y c f g h = elim (Bool-cases (type_ == name)) [
  | inl b ↦
      subst (λ t. Holds e t ref given c) (ground (arith, eq_iff type_ name))
        (f (subst (λ (b : Bool). (if b then x else y) ≡ some c) b h))
  | inr b ↦ g (subst (λ (b : Bool). (if b then x else y) ≡ some c) b h)
]

-- A citation that resolves has the type and the reference that were given, without the space around it, and points
-- at what is there: a norm of the repository, a test of the run, a file that the pull request changes, a
-- claim of the charter, or lines that the file has at the commit, within the tree and no more than
-- 121 of them. Its quote is the one given, which the claim or the lines contain, or is taken from them.
pub resolve-IsHeld :
    (given c : Citation) (e : Evidence)
    → resolve given e ≡ some c
    → Holds e given.type_ (strip_text given.ref) given.quote c
unfolding resolve resolve_code
resolve-IsHeld given c e h =
    let ref = strip_text given.ref in
    let quote = given.quote in
    let type_ = given.type_ in
    by_type type_ "norm" e ref quote _ _ c
      (when_held_lem e (contains ref e.norm_ids) "norm" ref quote c (λ i. norm refl i refl))
      (by_type type_ "test" e ref quote _ _ c
        (when_held_lem e (contains ref e.test_ids) "test" ref quote c (λ i. test refl i refl))
        (by_type type_ "diff" e ref quote _ _ c
          (when_held_lem e (contains (diff_path ref) e.changed_paths) "diff" ref quote c
            (λ i. diff refl i refl))
          (by_type type_ "code" e ref quote _ _ c
            (code_held ref quote e (get e.charter_sources ref) c refl) (λ x. ground arith))))
      h
