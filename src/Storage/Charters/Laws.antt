-- ===== src/Storage/Charters/Laws.antt =====
-- A repository's memory: each commit is remembered once, the newest last, and no other repository's.
use pr_review.Prelude.{
  ℕ, ◌+◌, ◌≤◌, String, ◌≡◌, ◌≢◌, refl, sym, ap, ◌∙◌, Option, none, some, [], ◌∷◌, ◌++◌, ◌==◌, leb,
  arith, eq_iff, first_where, all_where, all_where-append, sort_by, sort_by-first,
  first_where-append, first_where-kept, Option-cases, inl, inr,
}
use mathlib.Core.List.{append-nil}
use pr_review.Core.Records.{Charter}
use pr_review.Storage.Charters.{
  Charters, Memory, is_at, max_number, newest, head_of, charter, numbered, store_new, put_charter,
}

-- None of the charters has a number as high as one above the highest.
none_above :
    (repo : String) (top : ℕ) (x : Charter) (rows : Charters)
    → max_number repo rows ≤ top
    → x.number ≡ top + 1
    → first_where
        (λ (z : Charter). leb x.number z.number)
        (all_where (λ (c : Charter). c.repo == repo) rows)
      ≡ none
unfolding first_where all_where max_number
none_above repo top x [] h e = refl
none_above repo top x (c ∷ cs) h e = ground (arith, none_above repo top x cs)

one_of_repo : (c : Charter) → all_where (λ (d : Charter). d.repo == c.repo) (c ∷ []) ≡ c ∷ []
unfolding all_where
one_of_repo c = ground (arith, eq_iff c.repo c.repo)

none_of_repo :
    (repo : String) (c : Charter)
    → c.repo ≢ repo
    → all_where (λ (d : Charter). d.repo == repo) (c ∷ []) ≡ []
unfolding all_where
none_of_repo repo c ne = ground (arith, eq_iff c.repo repo)

-- What the table gives for a repository and a commit, with a charter more.
module _ (c : Charter) (rows : Charters) where
  newest-append_other :
      (repo : String) → c.repo ≢ repo → newest repo (rows ++ c ∷ []) ≡ newest repo rows
  unfolding newest
  newest-append_other repo ne =
      ap (λ l. head_of (sort_by (λ (a b : Charter). leb b.number a.number) l))
        (all_where-append (λ (d : Charter). d.repo == repo) rows (c ∷ [])
          ∙ ap (λ l. all_where (λ (d : Charter). d.repo == repo) rows ++ l) (none_of_repo repo c ne)
          ∙ append-nil (all_where (λ (d : Charter). d.repo == repo) rows))

  newest-append : c.number ≡ max_number c.repo rows + 1 → newest c.repo (rows ++ c ∷ []) ≡ some c
  unfolding newest head_of
  newest-append e =
      ap (λ l. head_of (sort_by (λ (a b : Charter). leb b.number a.number) l))
        (all_where-append (λ (d : Charter). d.repo == c.repo) rows (c ∷ [])
          ∙ ap (λ l. all_where (λ (d : Charter). d.repo == c.repo) rows ++ l) (one_of_repo c))
      ∙ ap head_of (
          sort_by-first (λ (a b : Charter). leb b.number a.number) c
            (all_where (λ (d : Charter). d.repo == c.repo) rows)
            (none_above c.repo (max_number c.repo rows) c rows (omega arith) e))

  first_where-append_other :
      (repo sha : String)
      → c.repo ≢ repo
      → first_where (is_at repo sha) (rows ++ c ∷ []) ≡ first_where (is_at repo sha) rows
  unfolding first_where
  first_where-append_other repo sha ne = elim (Option-cases (first_where (is_at repo sha) rows)) [
    | inl absent ↦
        first_where-append (is_at repo sha) rows (c ∷ []) absent
        ∙ ground (arith, eq_iff c.repo repo)
    | inr (d, found) ↦ first_where-kept (is_at repo sha) rows (c ∷ []) d found ∙ sym found
  ]

-- What `put_charter` leaves, where the commit has a name.
pub record IsRemembered (c : Charter) (m : Memory) (r : Charter × Memory) : Type 0 where
  -- the commit's charter is the one returned, which is the old one if there was one
  pub found : charter c.repo (some c.sha) r.1.charters ≡ some r.0
  pub kept : (old : Charter) → charter c.repo (some c.sha) m.charters ≡ some old → r ≡ (old, m)
  -- a new one is the repository's newest
  pub latest :
      charter c.repo (some c.sha) m.charters ≡ none → charter c.repo none r.1.charters ≡ some r.0
  pub others :
      (repo : String) (sha : Option String)
      → c.repo ≢ repo
      → charter repo sha r.1.charters ≡ charter repo sha m.charters

module _ (now : ℕ) (c : Charter) (m : Memory) (named : c.sha ≢ "") where
  abbrev stored : Charter
  stored = numbered now m.charters c

  at_sha :
      (rows : Charters) → charter c.repo (some c.sha) rows ≡ first_where (is_at c.repo c.sha) rows
  unfolding charter
  at_sha rows = ground (arith, eq_iff c.sha "")

  stored_here : first_where (is_at c.repo c.sha) (stored ∷ []) ≡ some stored
  unfolding first_where
  stored_here = ground (arith, eq_iff c.repo c.repo, eq_iff c.sha c.sha)

  charter-other :
      (repo : String) (sha : Option String)
      → c.repo ≢ repo
      → charter repo sha (m.charters ++ stored ∷ []) ≡ charter repo sha m.charters
  unfolding charter
  charter-other repo none ne = newest-append_other stored m.charters repo ne
  charter-other repo (some sha) ne = ground (
    arith,
    newest-append_other stored m.charters repo ne,
    first_where-append_other stored m.charters repo sha ne,
  )

  remembered :
      (o : Option Charter)
      → charter c.repo (some c.sha) m.charters ≡ o
      → IsRemembered c m (store_new now c m o)
  unfolding store_new
  remembered (some existing) e = record {
    found = e;
    kept = λ old f. ap (λ (x : Charter). (x, m)) (some_inj (sym e ∙ f));
    latest = λ absent. ground arith;
    others = λ repo sha ne. refl;
  }
    where
      some_inj : {x y : Charter} → some x ≡ some y → x ≡ y
      some_inj h = ground arith
  remembered none e = record {
    found =
        at_sha (m.charters ++ stored ∷ [])
        ∙ first_where-append (is_at c.repo c.sha) m.charters (stored ∷ [])
            (sym (at_sha m.charters) ∙ e)
        ∙ stored_here;
    kept = λ old f. ground arith;
    latest = λ absent. unfold charter in newest-append stored m.charters refl;
    others = charter-other;
  }

  -- Storing the charter of a named commit: afterwards the commit's charter is the one returned; if it
  -- was stored before, that one is returned and nothing changes; if not, it is the repository's newest;
  -- and what any other repository remembers, at any commit, is what it was.
  pub put_charter-IsRemembered : IsRemembered c m (put_charter now c m)
  unfolding put_charter
  put_charter-IsRemembered = remembered (charter c.repo (some c.sha) m.charters) refl
