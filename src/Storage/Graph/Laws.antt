-- ===== src/Storage/Graph/Laws.antt =====
-- What `put_symbols` leaves for `symbol` to read.
use pr_review.Prelude.{
  String, ◌≡◌, ◌≢◌, refl, ap, ◌∙◌, true, Option, none, some, List, [], ◌∷◌, ◌==◌, arith, eq_iff,
  if◌then◌else◌, first_where, first_where-append, first_where-snoc, subst, first_where-drop_where,
  dropped-first_where, drop_where, replace_where, Bool-cases, inl, inr, sym,
}
use pr_review.Core.Records.{Symbol}
use pr_review.Storage.Graph.{SymbolRow, is_symbol, put_symbols, read_symbol, read_found, symbol}

-- The symbol that the last of a list gives to a name.
unfoldable pub last_named : String → Option Symbol → List Symbol → Option Symbol
last_named fqn found [] = found
last_named fqn found (s ∷ ss) =
    last_named fqn (if s.fqn == fqn then some (record s { lang = "python" }) else found) ss

module _ (repo fqn : String) where
  same_row :
      (s : Symbol) → s.fqn ≡ fqn → is_symbol repo fqn (record { repo = repo; symbol = s }) ≡ true
  same_row s e = ground (arith, eq_iff repo repo, eq_iff s.fqn fqn)

  found_alone :
      (s : Symbol)
      → s.fqn ≡ fqn
      → first_where (is_symbol repo fqn) (record { repo = repo; symbol = s } ∷ [])
        ≡ some (record { repo = repo; symbol = s })
  unfolding first_where
  found_alone s e = ground (arith, same_row s e)

  replaced_same :
      (s : Symbol) (rows : List SymbolRow)
      → s.fqn ≡ fqn
      → symbol repo fqn
          (replace_where (is_symbol repo s.fqn) (record { repo = repo; symbol = s }) rows)
        ≡ some (record s { lang = "python" })
  unfolding symbol read_found read_symbol replace_where
  replaced_same s rows e = ap read_found (
      first_where-append (is_symbol repo fqn) (drop_where (is_symbol repo s.fqn) rows)
        (record { repo = repo; symbol = s } ∷ [])
        (subst (λ f. first_where (is_symbol repo fqn) (drop_where (is_symbol repo f) rows) ≡ none)
          (sym e) (dropped-first_where (is_symbol repo fqn) rows))
      ∙ found_alone s e)

  replaced_other :
      (s : Symbol) (rows : List SymbolRow)
      → s.fqn ≢ fqn
      → symbol repo fqn
          (replace_where (is_symbol repo s.fqn) (record { repo = repo; symbol = s }) rows)
        ≡ symbol repo fqn rows
  unfolding symbol read_found read_symbol replace_where
  replaced_other s rows ne = ap read_found (
      first_where-snoc (is_symbol repo fqn) (drop_where (is_symbol repo s.fqn) rows) _
        (ground (arith, eq_iff s.fqn fqn))
      ∙ first_where-drop_where (is_symbol repo s.fqn) (is_symbol repo fqn) rows
          (λ r h. ground (arith, eq_iff r.symbol.fqn s.fqn, eq_iff r.symbol.fqn fqn)))

  -- After `put_symbols`, `symbol` reads under a name the last of the symbols that were given with it, or
  -- what it read before if there is none; but the language that was stored is not read: it is
  -- "python" for every symbol.
  pub symbol-put_symbols :
      (ss : List Symbol) (rows : List SymbolRow)
      → symbol repo fqn (put_symbols repo ss rows) ≡ last_named fqn (symbol repo fqn rows) ss
  unfolding put_symbols last_named
  symbol-put_symbols [] rows = refl
  symbol-put_symbols (s ∷ ss) rows = elim (Bool-cases (s.fqn == fqn)) [
    | inl same ↦
        symbol-put_symbols ss _
        ∙ ap (λ o. last_named fqn o ss)
            (replaced_same s rows (ground (arith, eq_iff s.fqn fqn)) ∙ ground arith)
    | inr other ↦
        symbol-put_symbols ss _
        ∙ ap (λ o. last_named fqn o ss)
            (replaced_other s rows (λ e. ground (arith, eq_iff s.fqn fqn)) ∙ ground arith)
  ]
