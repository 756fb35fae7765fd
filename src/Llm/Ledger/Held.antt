-- ===== src/Llm/Ledger/Held.antt =====
-- A reservation that is made and then settled leaves nothing in flight.
use pr_review.Prelude.{
  ℕ, ◌+◌, ◌≤◌, String, ◌≡◌, refl, Bool, Option, none, some, List, [], ◌∷◌, ◌++◌, arith, All,
}
use pr_review.Llm.Ledger.{
  Completion, Request, Settings, Ledger, Reservation, Reserved, unpriced, exceeded, reserved, Scope,
  reserve, reserve_at, book, hold, worst_case, breached, checks, drop_id, release, release_any,
  record_call,
}

-- The numbers in flight are ones that were given out.
abbrev pub IsNumbered : Ledger → Type 0
IsNumbered l = All (λ (r : Reservation). r.id ≤ l.next) l.held

-- What `reserve` does: a refusal changes nothing, a reservation has a new number and comes last.
pub data Reserves (l : Ledger) : Reserved × Ledger → Type 0 where
  no_price : Reserves l (unpriced, l)
  over : (scope : Scope) → Reserves l (exceeded scope, l)
  made :
      (r : Reservation)
      → r.id ≡ l.next + 1
      → Reserves l (reserved r, record l { held = l.held ++ r ∷ []; next = l.next + 1 })

pub reserve-Reserves :
    (cfg : Settings) (now : ℕ) (request : Request) (run_id repo : Option String) (l : Ledger)
    → Reserves l (reserve cfg now request run_id repo l)
unfolding reserve
reserve-Reserves cfg now request run_id repo l = at (worst_case cfg request)
  where
    booked : (needed : ℕ) (o : Option Scope) → Reserves l (book needed run_id repo o l)
    booked needed (some scope) = unfold book in over scope
    booked needed none = unfold book hold in made _ refl

    at : (o : Option ℕ) → Reserves l (reserve_at cfg now run_id repo o l)
    at none = unfold reserve_at in no_price
    at (some needed) =
        unfold reserve_at in booked needed (breached cfg.budget needed l (checks now run_id repo))

drop_id-last :
    (n : ℕ) (r : Reservation) (held : List Reservation)
    → r.id ≡ n + 1
    → All (λ (x : Reservation). x.id ≤ n) held
    → drop_id r.id (held ++ r ∷ []) ≡ held
unfolding drop_id
drop_id-last n r [] e h = ground arith
drop_id-last n r (x ∷ xs) e h = ground (arith, h.0, drop_id-last n r xs e h.1)

module _ (l : Ledger) (r : Reservation) (e : r.id ≡ l.next + 1) (h : IsNumbered l) where
  abbrev pub with_one : Ledger
  with_one = record l { held = l.held ++ r ∷ []; next = l.next + 1 }

  pub release-held : (release r with_one).held ≡ l.held
  unfolding release
  release-held = drop_id-last l.next r l.held e h

  pub record_call-held :
      (cfg : Settings) (now : ℕ) (c : Completion) (model stage : String)
      (run_id repo : Option String) (cached : Bool)
      → (record_call cfg now c model stage run_id repo cached (some r) with_one).1.held ≡ l.held
  unfolding record_call release_any release
  record_call-held cfg now c model stage run_id repo cached = drop_id-last l.next r l.held e h
