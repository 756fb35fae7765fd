-- ===== src/Storage/Graph.antt =====
-- Symbols, the call graph and the atlas in prflagger/storage/repos.py.
pub mod Laws
use pr_review.Prelude.{
  ℕ, ◌+◌, String, Bool, true, false, Option, none, some, List, [], ◌∷◌, ◌++◌, ◌==◌, ◌&&◌, eqb, leb,
  if◌then◌else◌, first_where, all_where, drop_where, replace_where, sort_by, limit_rows, text_le,
  Dict, get, put, contains, length, not,
}
use pr_review.Core.Records.{Symbol, Repo}
use pr_review.Storage.Repos.{Repos, set_atlas_sha}

pub record SymbolRow : Type 0 where
  pub repo : String
  pub symbol : Symbol

abbrev pub is_symbol : String → String → SymbolRow → Bool
is_symbol repo fqn r = r.repo == repo && r.symbol.fqn == fqn

unfoldable pub put_symbols : String → List Symbol → List SymbolRow → List SymbolRow
put_symbols repo [] rows = rows
put_symbols repo (s ∷ ss) rows =
    put_symbols repo ss
      (replace_where (is_symbol repo s.fqn) (record { repo = repo; symbol = s }) rows)

-- What `symbol` and `callers_of` read: the language is not read, and is Python's by default.
unfoldable pub read_symbol : SymbolRow → Symbol
read_symbol r = record (r.symbol) { lang = "python" }

unfoldable pub read_found : Option SymbolRow → Option Symbol
unfolding read_symbol
read_found none = none
read_found (some r) = some (read_symbol r)

unfoldable pub symbol : String → String → List SymbolRow → Option Symbol
unfolding read_found
symbol repo fqn rows = read_found (first_where (is_symbol repo fqn) rows)

pub record Edge : Type 0 where
  pub repo : String
  pub caller : String
  pub callee : String

abbrev is_edge : String → String → String → Edge → Bool
is_edge repo caller callee e = e.repo == repo && (e.caller == caller && e.callee == callee)

put_callees : String → String → List String → List Edge → List Edge
put_callees repo caller [] rows = rows
put_callees repo caller (callee ∷ callees) rows = put_callees repo caller callees (
    replace_where (is_edge repo caller callee)
      (record { repo = repo; caller = caller; callee = callee }) rows)

unfoldable pub put_call_edges : String → Dict (List String) → List Edge → List Edge
unfolding put_callees
put_call_edges repo [] rows = rows
put_call_edges repo ((caller, callees) ∷ edges) rows =
    put_call_edges repo edges (put_callees repo caller callees rows)

-- Symbols that one of the edges to `fqn` names.
called_from : List Edge → String → String → List SymbolRow → List SymbolRow
called_from [] repo fqn rows = []
called_from (e ∷ es) repo fqn rows =
    let rest = called_from es repo fqn rows in
    if e.repo == repo && e.callee == fqn
    then all_where (is_symbol e.repo e.caller) rows ++ rest
    else rest

read_all : List SymbolRow → List Symbol
unfolding read_symbol
read_all [] = []
read_all (r ∷ rs) = read_symbol r ∷ read_all rs

unfoldable pub callers_of : String → String → ℕ → List Edge → List SymbolRow → List Symbol
unfolding called_from read_all
callers_of repo fqn limit edges rows = read_all (
    limit_rows limit (
      sort_by (λ (a b : SymbolRow). text_le a.symbol.fqn b.symbol.fqn)
        (called_from edges repo fqn rows)))

count_of : Option ℕ → ℕ
count_of none = 0
count_of (some n) = n

-- The key of `call_edges` lets a caller stand once for each callee.
unfoldable pub caller_counts : String → List Edge → Dict ℕ
unfolding count_of
caller_counts repo [] = []
caller_counts repo (e ∷ es) =
    let rest = caller_counts repo es in
    if e.repo == repo then put rest e.callee (count_of (get rest e.callee) + 1) else rest

-- A payload is its JSON text.
pub record Atlas : Type 0 where
  pub repo : String
  pub sha : String
  pub built_at : ℕ
  pub payload : String

unfoldable pub put_atlas : ℕ → String → String → String → List Atlas × Repos → List Atlas × Repos
put_atlas now repo sha payload (rows, repos) = (
  replace_where (λ (a : Atlas). a.repo == repo && a.sha == sha)
      (record { repo = repo; sha = sha; built_at = now; payload = payload }) rows,
  set_atlas_sha repo sha repos,
)

first_of : List Atlas → Option String
first_of [] = none
first_of (a ∷ as') = some a.payload

newest_atlas : String → List Atlas → Option String
unfolding first_of
newest_atlas repo rows = first_of (
    sort_by (λ (a b : Atlas). leb b.built_at a.built_at)
      (all_where (λ (a : Atlas). a.repo == repo) rows))

-- The text at a commit, or the newest; that it is a JSON object is the writer's.
unfoldable pub atlas : String → Option String → List Atlas → Option String
unfolding newest_atlas
atlas repo none rows = newest_atlas repo rows
atlas repo (some sha) rows =
    if sha == ""
    then newest_atlas repo rows
    else first_of (all_where (λ (a : Atlas). a.repo == repo && a.sha == sha) rows)
