-- ===== src/Charter/Headline/Told.antt =====
-- The headline of an update is one of its loudest signals.
use pr_review.Prelude.{
  ◌≤◌, ◌≡◌, refl, ap, sym, subst, ◌∙◌, Bool, true, false, some, List, [], ◌∷◌, ltb, if◌then◌else◌,
  all_where, arith, Bool-cases, inl, inr, ◌⊎◌, All,
}
use pr_review.Core.Records.{
  CharterDrift, DriftSignal, drift_level, highest_level, level_of, Level, level_index,
}
use pr_review.Charter.Headline.{headline, headline_place, least_from, least_of, same_level}

abbrev pub IsAmong : DriftSignal → List DriftSignal → Type 0
IsAmong s [] = ⊥
IsAmong s (t ∷ ts) = (s ≡ t) ⊎ IsAmong s ts

abbrev IsQuieter : Level → DriftSignal → Type 0
IsQuieter top s = level_index s.level ≤ level_index top

all_weaken :
    (P Q : DriftSignal → Type 0) (ss : List DriftSignal)
    → ((s : DriftSignal) → P s → Q s)
    → All P ss
    → All Q ss
all_weaken P Q [] f h = tt
all_weaken P Q (s ∷ ss) f h = (f s h.0, all_weaken P Q ss f h.1)

highest_above :
    (top : Level) (ss : List DriftSignal)
    → (level_index top ≤ level_index (highest_level top ss))
      × All (IsQuieter (highest_level top ss)) ss
unfolding highest_level
highest_above top [] = (omega arith, tt)
highest_above top (s ∷ ss) =
    let rest =
      highest_above (if ltb (level_index top) (level_index s.level) then s.level else top) ss in
    (ground (arith, rest.0), (ground (arith, rest.0), rest.1))

highest_reached :
    (top : Level) (ss : List DriftSignal)
    → (highest_level top ss ≡ top)
      ⊎ ((s : DriftSignal) × IsAmong s ss × (s.level ≡ highest_level top ss))
unfolding highest_level
highest_reached top [] = inl refl
highest_reached top (s ∷ ss) =
    elim (highest_reached (if ltb (level_index top) (level_index s.level) then s.level else top)
      ss) [
        | inr (t, here, e) ↦ inr (t, inr here, e)
        | inl e ↦ elim (Bool-cases (ltb (level_index top) (level_index s.level))) [
          | inl louder ↦ inr (s, inl refl, ground arith)
          | inr quieter ↦ inl (ground arith)
        ]
      ]

module _ (p : DriftSignal → Bool) where
  kept :
      (t : DriftSignal) (ts : List DriftSignal)
      → p t ≡ true
      → all_where p (t ∷ ts) ≡ t ∷ all_where p ts
  unfolding all_where
  kept t ts h = ground arith

  passed :
      (t : DriftSignal) (ts : List DriftSignal)
      → p t ≡ false
      → all_where p (t ∷ ts) ≡ all_where p ts
  unfolding all_where
  passed t ts h = ground arith

  IsAmong-all_where :
      (s : DriftSignal) (ss : List DriftSignal)
      → IsAmong s (all_where p ss)
      → IsAmong s ss × (p s ≡ true)
  unfolding all_where
  IsAmong-all_where s [] h = absurd h
  IsAmong-all_where s (t ∷ ts) h = elim (Bool-cases (p t)) [
    | inl holds ↦ elim (subst (IsAmong s) (kept t ts holds) h) [
      | inl e ↦ (inl e, ap p e ∙ holds)
      | inr later ↦ let found = IsAmong-all_where s ts later in (inr found.0, found.1)
    ]
    | inr fails ↦
        let found = IsAmong-all_where s ts (subst (IsAmong s) (passed t ts fails) h) in
        (inr found.0, found.1)
  ]

  chosen-all_where :
      (s : DriftSignal) (ss : List DriftSignal)
      → IsAmong s ss
      → p s ≡ true
      → (t : DriftSignal) × (ts : List DriftSignal) × (all_where p ss ≡ t ∷ ts)
  unfolding all_where
  chosen-all_where s [] h e = absurd h
  chosen-all_where s (t ∷ ts) h e = elim (Bool-cases (p t)) [
    | inl holds ↦ (t, all_where p ts, kept t ts holds)
    | inr fails ↦ elim h [
      | inl same ↦ (s, ts, ground (arith, ap p same))
      | inr later ↦
          let found = chosen-all_where s ts later e in
          (found.0, found.1, passed t ts fails ∙ found.2)
    ]
  ]

  all-all_where :
      (P : DriftSignal → Type 0) (ss : List DriftSignal)
      → All P (all_where p ss)
      → All (λ s. p s ≡ true → P s) ss
  unfolding all_where
  all-all_where P [] h = tt
  all-all_where P (t ∷ ts) h = elim (Bool-cases (p t)) [
    | inl holds ↦
        let both = subst (All P) (kept t ts holds) h in (λ e. both.0, all-all_where P ts both.1)
    | inr fails ↦ (λ e. ground arith, all-all_where P ts (subst (All P) (passed t ts fails) h))
  ]

least-IsAmong :
    (best : DriftSignal) (ss : List DriftSignal) → IsAmong (least_from best ss) (best ∷ ss)
unfolding least_from
least-IsAmong best [] = inl refl
least-IsAmong best (s ∷ ss) =
    elim (least-IsAmong (if ltb (headline_place s) (headline_place best) then s else best) ss) [
      | inr later ↦ inr (inr later)
      | inl e ↦ elim (Bool-cases (ltb (headline_place s) (headline_place best))) [
        | inl nearer ↦ inr (inl (ground arith))
        | inr farther ↦ inl (ground arith)
      ]
    ]

least_below :
    (best : DriftSignal) (ss : List DriftSignal)
    → All (λ (t : DriftSignal). headline_place (least_from best ss) ≤ headline_place t) (best ∷ ss)
unfolding least_from
least_below best [] = (omega arith, tt)
least_below best (s ∷ ss) =
    let rest = least_below (if ltb (headline_place s) (headline_place best) then s else best) ss in
    (ground (arith, rest.0), (ground (arith, rest.0), rest.1))

-- A signal that stands for all the signals of an update.
pub record IsTold (top : Level) (ss : List DriftSignal) (s : DriftSignal) : Type 0 where
  -- it is one of them, and as loud as the update
  pub among : IsAmong s ss
  pub loudest : same_level s.level top ≡ true
  -- none is louder, and none of the loudest is more telling
  pub quieter : All (IsQuieter top) ss
  pub first : All (λ t. same_level t.level top ≡ true → headline_place s ≤ headline_place t) ss

abbrev top_of : DriftSignal → List DriftSignal → Level
top_of s ss = highest_level s.level ss

loudest_one :
    (s : DriftSignal) (ss : List DriftSignal)
    → (t : DriftSignal) × IsAmong t (s ∷ ss) × (same_level t.level (top_of s ss) ≡ true)
loudest_one s ss = elim (highest_reached s.level ss) [
  | inl e ↦ (s, inl refl, ground arith)
  | inr (t, here, e) ↦ (t, inr here, ground arith)
]

loudest-IsTold :
    (s : DriftSignal) (ss : List DriftSignal)
    → (t : DriftSignal) × (least_of
          (all_where (λ (x : DriftSignal). same_level x.level (top_of s ss)) (s ∷ ss))
        ≡ some t)
      × IsTold (top_of s ss) (s ∷ ss) t
unfolding least_of
loudest-IsTold s ss =
    let p : DriftSignal → Bool = λ x. same_level x.level (top_of s ss) in
    let loud = loudest_one s ss in
    let chosen = chosen-all_where p loud.0 (s ∷ ss) loud.1 loud.2 in
    let best = least_from chosen.0 chosen.1 in
    let found =
      IsAmong-all_where p best (s ∷ ss)
        (subst (IsAmong best) (sym chosen.2) (least-IsAmong chosen.0 chosen.1)) in
    let above = highest_above s.level ss in
    (
      best,
      ap least_of chosen.2,
      record {
        among = found.0;
        loudest = found.1;
        quieter = (above.0, above.1);
        first =
            all-all_where p (λ t. headline_place best ≤ headline_place t) (s ∷ ss)
              (subst (All (λ (t : DriftSignal). headline_place best ≤ headline_place t))
                (sym chosen.2) (least_below chosen.0 chosen.1));
      },
    )

-- An update with a signal has a headline: it is one of the signals, it is as loud as the update, no
-- signal is louder, and none that is as loud stands before it in the order of what tells most.
pub headline-IsTold :
    (d : CharterDrift) (first : DriftSignal) (others : List DriftSignal)
    → d.signals ≡ first ∷ others
    → (s : DriftSignal) × (headline d ≡ some s) × IsTold (drift_level d) d.signals s
unfolding headline drift_level level_of
headline-IsTold d first others e =
    subst
      (λ ss.
        (s : DriftSignal) × (least_of
            (all_where (λ (x : DriftSignal). same_level x.level (level_of ss)) ss)
          ≡ some s)
        × IsTold (level_of ss) ss s)
      (sym e) (loudest-IsTold first others)
