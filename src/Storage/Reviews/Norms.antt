-- ===== src/Storage/Reviews/Norms.antt =====
-- Norms of one source are swapped, and nothing else.
use pr_review.Prelude.{
  String, ◌≡◌, ◌≢◌, refl, sym, ap, ◌∙◌, true, some, List, [], ◌∷◌, ◌++◌, ◌==◌, arith, eq_iff,
  all_where, all_where-append, all_where-drop_where, drop_where, replace_where,
}
use mathlib.Core.List.{append-nil}
use pr_review.Core.Records.{Norm}
use pr_review.Storage.Reviews.{NormRow, is_norm, is_from, all_from, put_norms, replace_norms}

-- The rows of another repository are untouched by any number of norms.
put_norms-other :
    (repo other : String) (ns : List Norm) (rows : List NormRow)
    → repo ≢ other
    → all_where (λ (r : NormRow). r.repo == other) (put_norms repo ns rows)
      ≡ all_where (λ (r : NormRow). r.repo == other) rows
unfolding put_norms replace_where
put_norms-other repo other [] rows ne = refl
put_norms-other repo other (n ∷ ns) rows ne =
    put_norms-other repo other ns _ ne
    ∙ all_where-append (λ (r : NormRow). r.repo == other) (drop_where (is_norm repo n.id) rows)
        (record { repo = repo; norm = n } ∷ [])
    ∙ ap
        (λ l.
          all_where (λ (r : NormRow). r.repo == other) (drop_where (is_norm repo n.id) rows) ++ l)
        none_here
    ∙ append-nil _
    ∙ all_where-drop_where (is_norm repo n.id) (λ (r : NormRow). r.repo == other) rows
        (λ r h. ground (arith, eq_iff r.repo repo, eq_iff r.repo other))
  where
    none_here :
        all_where (λ (r : NormRow). r.repo == other) (record { repo = repo; norm = n } ∷ []) ≡ []
    none_here = unfold all_where in ground (arith, eq_iff repo other)

-- Swapping a repository's norms of one source refuses a norm of another source, and leaves every other
-- repository's norms as they were.
pub replace_norms-other :
    (repo source other : String) (ns : List Norm) (rows rows' : List NormRow)
    → repo ≢ other
    → replace_norms repo source ns rows ≡ some rows'
    → (all_from source ns ≡ true)
      × (all_where (λ (r : NormRow). r.repo == other) rows'
          ≡ all_where (λ (r : NormRow). r.repo == other) rows)
unfolding replace_norms
replace_norms-other repo source other ns rows rows' ne h = (
  ground arith,
  ap (all_where (λ (r : NormRow). r.repo == other)) (sym swapped)
      ∙ put_norms-other repo other ns (drop_where (is_from repo source) rows) ne
      ∙ all_where-drop_where (is_from repo source) (λ (r : NormRow). r.repo == other) rows
          (λ r f. ground (arith, eq_iff r.repo repo, eq_iff r.repo other)),
)
  where
    swapped : put_norms repo ns (drop_where (is_from repo source) rows) ≡ rows'
    swapped = ground arith
