-- ===== src/Charter/Drift/Same.antt =====
-- A repository that says what it said has not moved.
use pr_review.Prelude.{
  ℕ, String, ◌≡◌, refl, ap, ap₂, true, not, Option, none, some, List, [], ◌∷◌, ◌++◌, contains,
  distinct, all_where, arith, eq_iff, sort_by, text_le,
}
use pr_review.Core.Records.{Charter, DriftSignal, claims_of}
use pr_review.Charter.Signals.{
  Limits, Python, missing, purpose_text, toolchain_signals, license_signals, version,
  version_between, version_signals,
}
use pr_review.Charter.Drift.{
  entry_names, entry_signals, api_signals, purpose_signals, module_signals, dependency_signals,
  standard_signals, constraint_signals, signals_between, compare, either, module_names, goals_of,
  rules_of,
}

none_outside :
    (xs ys : List String)
    → ((k : String) → contains k xs ≡ true → contains k ys ≡ true)
    → all_where (λ x. not (contains x ys)) xs ≡ []
unfolding all_where contains
none_outside [] ys h = refl
none_outside (x ∷ xs) ys h =
    ground (arith, h x, eq_iff x x, none_outside xs ys (λ k e. h k (ground arith)))

missing_self : (xs : List String) → missing xs xs ≡ []
unfolding missing distinct sort_by
missing_self xs = ap (λ l. sort_by text_le (distinct l)) (none_outside xs xs (λ k h. h))

same_pair : (o : Option (ℕ × ℕ)) (evidence : String) → version_between o o evidence ≡ []
unfolding version_between
same_pair none evidence = refl
same_pair (some (i, j)) evidence = ground arith

nil-append : {ss ts : List DriftSignal} → ss ≡ [] → ts ≡ [] → ss ++ ts ≡ []
nil-append e f = ap₂ (λ ss ts. ss ++ ts) e f

module _ (py : Python) (limits : Limits) (c : Charter) (sha : String) (built_at number : ℕ) where
  -- The charter of a later commit at which the repository says the same.
  abbrev pub again : Charter
  again = record c { sha = sha; built_at = built_at; number = number }

  same_toolchain : toolchain_signals c again ≡ []
  unfolding toolchain_signals
  same_toolchain = ground (arith, eq_iff c.toolchain c.toolchain)

  same_license : license_signals c again ≡ []
  unfolding license_signals
  same_license = ground (arith, eq_iff c.license c.license)

  same_version : version_signals c again ≡ []
  unfolding version_signals
  same_version = same_pair (version c.version) _

  same_entries : entry_signals c again ≡ []
  unfolding entry_signals
  same_entries = rw (missing_self (entry_names c.entry_points)) refl

  same_api : api_signals py limits c again ≡ []
  unfolding api_signals
  same_api = rw (missing_self c.public_api) (ground arith)

  same_text : purpose_text py again ≡ purpose_text py c
  unfolding purpose_text claims_of
  same_text = refl

  same_purpose : purpose_signals py limits c again ≡ []
  unfolding purpose_signals
  same_purpose = rw same_text (ground (arith, eq_iff (purpose_text py c) (purpose_text py c)))

  same_modules : module_signals c again ≡ []
  unfolding module_signals
  same_modules = rw (missing_self (module_names c.modules)) refl

  same_dependencies : dependency_signals c again ≡ []
  unfolding dependency_signals
  same_dependencies = rw (missing_self c.dependencies) refl

  same_standards : standard_signals c again ≡ []
  unfolding standard_signals either sort_by
  same_standards = rw (missing_self c.standards) refl

  same_constraints : constraint_signals c again ≡ []
  unfolding constraint_signals goals_of rules_of claims_of
  same_constraints = rw (missing_self (goals_of c)) (rw (missing_self (rules_of c)) refl)

  same_signals : signals_between py limits c again ≡ []
  unfolding signals_between
  same_signals = nil-append same_toolchain (
      nil-append same_license (
        nil-append same_version (
          nil-append same_entries (
            nil-append same_api (
              nil-append same_purpose (
                nil-append same_modules
                  (nil-append same_dependencies (nil-append same_standards same_constraints))))))))

  -- Between two commits at which a repository says the same of itself, there is no signal, and the
  -- level of the drift is "none", whatever the limits are.
  pub compare_same :
      (compare py limits c again
        ≡ some (record { repo = c.repo; from_sha = c.sha; to_sha = sha; signals = [] }))
  unfolding compare
  compare_same = ground (arith, eq_iff c.repo c.repo, same_signals)
