-- ===== src/Llm/Ledger/Caps.antt =====
-- The caps hold, whatever calls are in flight at once.
use pr_review.Prelude.{
  ℕ, ◌+◌, ◌≤◌, String, ◌≡◌, refl, sym, ap, ap₂, subst, true, false, Option, none, some, List, [],
  ◌∷◌, eq_iff, arith, sum_by-append, All, Bool-cases, inl, inr,
}
use pr_review.Llm.Ledger.{
  BudgetConfig, Completion, Request, Settings, Ledger, Reservation, Spend, Scope, total, daily, run,
  is_tag, covers_held, held_usd, spent, committed, day_start, cap_of, checks, breached, hold, book,
  reserve_at, reserve, release, record_call, cost, worst_case,
}
use pr_review.Llm.Ledger.Sums.{
  Holds, committed-release-le, committed-record_cached, committed-record_reserved,
}

-- The scopes that `reserve` checks at this time: the days are counted from today's start.
abbrev pub IsCurrent : ℕ → Scope → Type 0
IsCurrent now total = Unit
IsCurrent now (daily repo since) = since ≡ day_start now
IsCurrent now (run id) = Unit

-- Spent and in flight together stay under every cap.
pub record IsCapped (b : BudgetConfig) (now : ℕ) (l : Ledger) : Type 0 where
  pub within : (scope : Scope) → IsCurrent now scope → committed scope l ≤ cap_of b scope

breached-none :
    (b : BudgetConfig) (needed : ℕ) (l : Ledger) (scopes : List Scope)
    → breached b needed l scopes ≡ none
    → All (λ scope. committed scope l + needed ≤ cap_of b scope) scopes
unfolding breached
breached-none b needed l [] h = tt
breached-none b needed l (s ∷ ss) h = (ground arith, breached-none b needed l ss (ground arith))

same_tag :
    (name tag : String) (o : Option String) → o ≡ some name → is_tag tag o ≡ true → name ≡ tag
same_tag name tag o e h = ground (arith, eq_iff name tag)

module _ (b : BudgetConfig) (now needed : ℕ) (l : Ledger) where
  abbrev Fits : Scope → Type 0
  Fits scope = committed scope l + needed ≤ cap_of b scope

  -- Every current scope that the reservation counts in has been checked.
  checked :
      (r : Reservation) (run_id repo : Option String) (scope : Scope)
      → r.run_id ≡ run_id
      → r.repo ≡ repo
      → All Fits (checks now run_id repo)
      → IsCurrent now scope
      → covers_held scope r ≡ true
      → Fits scope
  checked r _ _ total er eo all cur cov = all.0
  checked r none none (daily tag since) er eo all cur cov = ground arith
  checked r (some id) none (daily tag since) er eo all cur cov = ground arith
  checked r none (some name) (daily tag since) er eo all cur cov =
      subst Fits (ap₂ daily (same_tag name tag r.repo eo cov) (sym cur)) all.1.0
  checked r (some id) (some name) (daily tag since) er eo all cur cov =
      subst Fits (ap₂ daily (same_tag name tag r.repo eo cov) (sym cur)) all.1.0
  checked r none none (run tag) er eo all cur cov = ground arith
  checked r none (some name) (run tag) er eo all cur cov = ground arith
  checked r (some id) none (run tag) er eo all cur cov =
      subst Fits (ap run (same_tag id tag r.run_id er cov)) all.1.0
  checked r (some id) (some name) (run tag) er eo all cur cov =
      subst Fits (ap run (same_tag id tag r.run_id er cov)) all.1.1.0

  module _ (run_id repo : Option String) (h : IsCapped b now l)
      (all : All Fits (checks now run_id repo)) where
    abbrev booked : Reservation
    booked = record { id = l.next + 1; usd = needed; run_id = run_id; repo = repo }

    committed-hold :
        (scope : Scope)
        → committed scope (hold needed run_id repo l).1 ≡ committed scope l + held_usd scope booked
    unfolding committed hold
    committed-hold scope = omega (arith, sum_by-append (held_usd scope) l.held (booked ∷ []))

    hold-IsCapped : IsCapped b now (hold needed run_id repo l).1
    hold-IsCapped = record {
      within = λ scope cur. elim (Bool-cases (covers_held scope booked)) [
        | inl cov ↦
            ground
              (arith, committed-hold scope, checked booked run_id repo scope refl refl all cur cov)
        | inr free ↦ ground (arith, committed-hold scope, h.within scope cur)
      ];
    }

module _ (cfg : Settings) (now : ℕ) (l : Ledger) (h : IsCapped cfg.budget now l) where
  book-IsCapped :
      (needed : ℕ) (run_id repo : Option String) (o : Option Scope)
      → breached cfg.budget needed l (checks now run_id repo) ≡ o
      → IsCapped cfg.budget now (book needed run_id repo o l).1
  unfolding book
  book-IsCapped needed run_id repo none fits =
      hold-IsCapped cfg.budget now needed l run_id repo h
        (breached-none cfg.budget needed l (checks now run_id repo) fits)
  book-IsCapped needed run_id repo (some scope) over = h

  reserve_at-IsCapped :
      (run_id repo : Option String) (o : Option ℕ)
      → IsCapped cfg.budget now (reserve_at cfg now run_id repo o l).1
  unfolding reserve_at
  reserve_at-IsCapped run_id repo none = h
  reserve_at-IsCapped run_id repo (some needed) = book-IsCapped needed run_id repo _ refl

  less-IsCapped :
      (l' : Ledger) → ((s : Scope) → committed s l' ≤ committed s l) → IsCapped cfg.budget now l'
  less-IsCapped l' less = record { within = λ s cur. omega (arith, less s, h.within s cur) }

-- One call of the ledger, or a second that passes. Calls of several threads come in any order.
pub data Step (cfg : Settings) (now : ℕ) (l : Ledger) : ℕ → Ledger → Type 0 where
  reserves :
      (request : Request) (run_id repo : Option String)
      → Step cfg now l now (reserve cfg now request run_id repo l).1
  releases : (r : Reservation) → Step cfg now l now (release r l)
  records_cached :
      (c : Completion) (model stage : String) (run_id repo : Option String)
      → Step cfg now l now (record_call cfg now c model stage run_id repo true none l).1
  -- the provider answered within what was reserved
  records_reserved :
      (c : Completion) (model stage : String) (r : Reservation)
      → Holds r l.held
      → cost cfg c (some model) ≤ r.usd
      → Step cfg now l now (record_call cfg now c model stage r.run_id r.repo false (some r) l).1
  ticks : (later : ℕ) → now ≤ later → Step cfg now l later l

pub data Reach (cfg : Settings) (now : ℕ) (l : Ledger) : ℕ → Ledger → Type 0 where
  start : Reach cfg now l now l
  more : {t u : ℕ} {m n : Ledger} → Reach cfg now l t m → Step cfg t m u n → Reach cfg now l u n

day_start_mono : (a b : ℕ) → a ≤ b → day_start a ≤ day_start b
unfolding day_start
day_start_mono a b h = omega arith

-- A later start of the day covers fewer rows.
spent-later :
    (repo : String) (since since' : ℕ) (rows : List Spend)
    → since ≤ since'
    → spent (daily repo since') rows ≤ spent (daily repo since) rows
unfolding spent
spent-later repo since since' [] h = omega arith
spent-later repo since since' (row ∷ rows) h = ground (arith, spent-later repo since since' rows h)

ticks-IsCapped :
    (b : BudgetConfig) (now later : ℕ) (l : Ledger)
    → now ≤ later
    → IsCapped b now l
    → IsCapped b later l
unfolding committed cap_of
ticks-IsCapped b now later l p h = record { within = at }
  where
    at : (scope : Scope) → IsCurrent later scope → committed scope l ≤ cap_of b scope
    at total cur = h.within total tt
    at (daily repo since) cur = ground (
      arith,
      spent-later repo (day_start now) since l.rows,
      day_start_mono now later p,
      h.within (daily repo (day_start now)) refl,
      cur,
    )
    at (run id) cur = h.within (run id) tt

Step-IsCapped :
    (cfg : Settings) (now : ℕ) (l : Ledger) {u : ℕ} {m : Ledger}
    → IsCapped cfg.budget now l
    → Step cfg now l u m
    → IsCapped cfg.budget u m
unfolding reserve
Step-IsCapped cfg now l h (reserves request run_id repo) =
    reserve_at-IsCapped cfg now l h run_id repo (worst_case cfg request)
Step-IsCapped cfg now l h (releases r) =
    less-IsCapped cfg now l h _ (λ s. committed-release-le s r l)
Step-IsCapped cfg now l h (records_cached c model stage run_id repo) =
    less-IsCapped cfg now l h _
      (λ s. omega (arith, committed-record_cached cfg now c model stage run_id repo s l))
Step-IsCapped cfg now l h (records_reserved c model stage r held paid) =
    less-IsCapped cfg now l h _
      (λ s. committed-record_reserved cfg now c model stage r s l held paid)
Step-IsCapped cfg now l h (ticks later p) = ticks-IsCapped cfg.budget now later l p h

-- No cap is ever breached: from a ledger within its caps, however the calls interleave, what has been
-- spent and what is in flight stay together under the total, daily and per-run caps, if each call
-- that is not cached is recorded against a reservation that it holds and costs at most that much.
pub Reach-IsCapped :
    (cfg : Settings) (now : ℕ) (l : Ledger) {u : ℕ} {m : Ledger}
    → IsCapped cfg.budget now l
    → Reach cfg now l u m
    → IsCapped cfg.budget u m
Reach-IsCapped cfg now l h start = h
Reach-IsCapped cfg now l h (more reached step) =
    Step-IsCapped cfg _ _ (Reach-IsCapped cfg now l h reached) step
