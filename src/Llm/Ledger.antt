-- ===== src/Llm/Ledger.antt =====
-- prflagger/llm/ledger.py: what the model calls cost, and the caps that refuse the next one. Money is
-- in micro-dollars, to which the program rounds; a price is in thousandths of a dollar for a million
-- tokens, and the multipliers are in twentieths. The clock ticks in seconds.
pub mod Pricing
pub mod Sums
pub mod Caps
pub mod Held
use pr_review.Prelude.{
  ℕ, ◌+◌, ◌-◌, ◌*◌, ◌/◌, ◌%◌, max, String, Bool, true, false, Option, none, some, List, [], ◌∷◌,
  ◌++◌, ◌==◌, ◌&&◌, ltb, leb, eqb, if◌then◌else◌, Dict, get, sum_by,
}

pub record Price : Type 0 where
  pub input : ℕ
  pub output : ℕ

-- The caps. (The fraction at which a warning is shown is read elsewhere.)
pub record BudgetConfig : Type 0 where
  pub total_usd : ℕ
  pub per_run_usd : ℕ
  pub per_repo_daily_usd : ℕ

-- What a provider answered, less its text and the reason it stopped.
pub record Completion : Type 0 where
  pub model : String
  pub input_tokens : ℕ
  pub output_tokens : ℕ
  pub cache_read_tokens : ℕ
  pub cache_write_tokens : ℕ

-- A request, with the length of its prompt and of each system block.
pub record Request : Type 0 where
  pub model : String
  pub prompt_chars : ℕ
  pub system_chars : List ℕ
  pub max_tokens : ℕ

pub record Reservation : Type 0 where
  pub id : ℕ
  pub usd : ℕ
  pub run_id : Option String
  pub repo : Option String

-- A row of `llm_spend`.
pub record Spend : Type 0 where
  pub ts : ℕ
  pub run_id : Option String
  pub repo : Option String
  pub model : String
  pub stage : String
  pub completion : Completion
  pub usd : ℕ
  pub cached : Bool

pub record Settings : Type 0 where
  pub budget : BudgetConfig
  pub prices : Dict Price
  pub ttl : String

pub record Ledger : Type 0 where
  pub rows : List Spend
  pub held : List Reservation
  pub next : ℕ

-- `_CACHE_WRITE.get(ttl, 1.25)`, in twentieths.
unfoldable pub cache_write : String → ℕ
cache_write ttl = if ttl == "1h" then 40 else 25

-- round(x, 6) of a cost in twenty-thousandths of a micro-dollar: to the nearest, ties to even.
unfoldable pub round_usd : ℕ → ℕ
round_usd n =
    let q = n / 20000 in
    let r = n % 20000 in
    if ltb r 10000 then q else if ltb 10000 r then q + 1 else if eqb (q % 2) 0 then q else q + 1

unfoldable pub cost_of : Price → ℕ → Completion → ℕ
cost_of price write c =
    c.input_tokens * price.input * 20
    + c.cache_write_tokens * price.input * write
    + c.cache_read_tokens * price.input * 2
    + c.output_tokens * price.output * 20

price_or : Option Price → Option Price → Option Price
price_or none other = other
price_or (some p) other = some p

cost_at : Option Price → ℕ → Completion → ℕ
unfolding cost_of
cost_at none write c = 0
cost_at (some price) write c = round_usd (cost_of price write c)

-- `model or completion.model`
name_or : Option String → String → String
name_or none other = other
name_or (some name) other = if name == "" then other else name

unfoldable pub cost : Settings → Completion → Option String → ℕ
unfolding name_or price_or cost_at
cost cfg c model =
    cost_at (price_or (get cfg.prices (name_or model c.model)) (get cfg.prices c.model))
      (cache_write cfg.ttl) c

unfoldable pub tokens_of : Request → ℕ
tokens_of r = (r.prompt_chars + sum_by (λ n. n) r.system_chars) / 3 + 64

unfoldable pub worst_of : Price → ℕ → Request → ℕ
worst_of price write r = tokens_of r * price.input * max 20 write + r.max_tokens * price.output * 20

-- `none` is `UnpricedModel`.
unfoldable pub worst_case : Settings → Request → Option ℕ
worst_case cfg r = elim (get cfg.prices r.model) [
  | none ↦ none
  | some price ↦ some (round_usd (worst_of price (cache_write cfg.ttl) r))
]

-- `column = ?`, where a null column equals nothing.
abbrev pub is_tag : String → Option String → Bool
is_tag tag none = false
is_tag tag (some x) = x == tag

-- What a cap bounds: everything, a repository since a time, a run.
pub data Scope : Type 0 where
  total : Scope
  daily : (repo : String) (since : ℕ) → Scope
  run : (run_id : String) → Scope

abbrev pub covers_row : Scope → Spend → Bool
covers_row total row = true
covers_row (daily repo since) row = is_tag repo row.repo && leb since row.ts
covers_row (run run_id) row = is_tag run_id row.run_id

abbrev pub covers_held : Scope → Reservation → Bool
covers_held total r = true
covers_held (daily repo since) r = is_tag repo r.repo
covers_held (run run_id) r = is_tag run_id r.run_id

abbrev pub row_usd : Scope → Spend → ℕ
row_usd scope row = if covers_row scope row then row.usd else 0

abbrev pub held_usd : Scope → Reservation → ℕ
held_usd scope r = if covers_held scope r then r.usd else 0

unfoldable pub spent : Scope → List Spend → ℕ
spent scope rows = sum_by (row_usd scope) rows

-- What a check compares with its cap: what is spent and what is in flight.
unfoldable pub committed : Scope → Ledger → ℕ
unfolding spent
committed scope l = spent scope l.rows + sum_by (held_usd scope) l.held

unfoldable pub day_start : ℕ → ℕ
day_start now = now - now % 86400

unfoldable pub cap_of : BudgetConfig → Scope → ℕ
cap_of b total = b.total_usd
cap_of b (daily repo since) = b.per_repo_daily_usd
cap_of b (run run_id) = b.per_run_usd

-- The checks of `reserve`, in its order.
abbrev daily_check : ℕ → Option String → List Scope
daily_check now none = []
daily_check now (some repo) = daily repo (day_start now) ∷ []

abbrev run_check : Option String → List Scope
run_check none = []
run_check (some run_id) = run run_id ∷ []

abbrev pub checks : ℕ → Option String → Option String → List Scope
checks now run_id repo = total ∷ daily_check now repo ++ run_check run_id

-- The first cap that this call could breach.
unfoldable pub breached : BudgetConfig → ℕ → Ledger → List Scope → Option Scope
breached b needed l [] = none
breached b needed l (scope ∷ rest) =
    if ltb (cap_of b scope) (committed scope l + needed)
    then some scope
    else breached b needed l rest

pub data Reserved : Type 0 where
  unpriced : Reserved
  exceeded : Scope → Reserved
  reserved : Reservation → Reserved

hold : ℕ → Option String → Option String → Ledger → Reserved × Ledger
hold needed run_id repo l =
    let r : Reservation = record { id = l.next + 1; usd = needed; run_id = run_id; repo = repo } in
    (reserved r, record l { held = l.held ++ r ∷ []; next = l.next + 1 })

book : ℕ → Option String → Option String → Option Scope → Ledger → Reserved × Ledger
unfolding hold
book needed run_id repo (some scope) l = (exceeded scope, l)
book needed run_id repo none l = hold needed run_id repo l

reserve_at : Settings → ℕ → Option String → Option String → Option ℕ → Ledger → Reserved × Ledger
unfolding book
reserve_at cfg now run_id repo none l = (unpriced, l)
reserve_at cfg now run_id repo (some needed) l =
    book needed run_id repo (breached cfg.budget needed l (checks now run_id repo)) l

unfoldable pub reserve :
    Settings → ℕ → Request → Option String → Option String → Ledger → Reserved × Ledger
unfolding reserve_at
reserve cfg now request run_id repo l = reserve_at cfg now run_id repo (worst_case cfg request) l

-- `self._held.pop(reservation.id, None)`
unfoldable pub drop_id : ℕ → List Reservation → List Reservation
drop_id id [] = []
drop_id id (r ∷ rs) = if eqb r.id id then rs else r ∷ drop_id id rs

unfoldable pub release : Reservation → Ledger → Ledger
unfolding drop_id
release r l = record l { held = drop_id r.id l.held }

release_any : Option Reservation → Ledger → Ledger
release_any none l = l
release_any (some r) l = release r l

unfoldable pub record_call :
    Settings
    → ℕ
    → Completion
    → String
    → String
    → Option String
    → Option String
    → Bool
    → Option Reservation
    → Ledger
    → ℕ × Ledger
unfolding release_any
record_call cfg now c model stage run_id repo cached reservation l =
    let usd = if cached then 0 else cost cfg c (some model) in
    let row : Spend = record {
      ts = now;
      run_id = run_id;
      repo = repo;
      model = model;
      stage = stage;
      completion = c;
      usd = usd;
      cached = cached;
    } in
    (usd, release_any reservation (record l { rows = l.rows ++ row ∷ [] }))
