-- ===== src/Charter/Rebuild.antt =====
-- prflagger/charter/keeper.py: _rebuild of CharterKeeper. What is read from a checkout is an argument: the
-- symbols and calls that build_atlas finds, the atlas as its JSON text and the number of its modules,
-- the charter that extract_charter makes of a list of public names, and the declared norms. So are the
-- time and the answer of the webhook.
pub mod Kept
use pr_review.Prelude.{
  ℕ, String, Bool, Option, none, some, List, [], ◌∷◌, ◌++◌, ◌==◌, if◌then◌else◌, concat, includes,
  take_text, decimal, length, Dict, is_nil,
}
use pr_review.Core.Records.{
  Symbol, Norm, Notification, Charter, CharterDrift, DriftSignal, drift_level, Level, major,
}
use pr_review.Storage.Graph.{SymbolRow, Edge, Atlas, put_symbols, put_call_edges, put_atlas}
use pr_review.Storage.Charters.{Memory, Changes, charter, put_charter, put_charter_change}
use pr_review.Storage.Reviews.{NormRow, replace_norms}
use pr_review.Storage.Notices.{Notices}
use pr_review.Charter.Signals.{Limits, Python, count_text}
use pr_review.Charter.Drift.{compare}
use pr_review.Charter.Headline.{headline, evidence_lines}
use pr_review.Engine.Notify.{Notifier, News, raise, is_notified}

pub record Config : Type 0 where
  pub python : Python
  pub limits : Limits
  pub refresh_on_branch_move : Bool
  pub notifier : Notifier

-- What a checkout of a commit holds.
pub record Checkout : Type 0 where
  pub symbols : Dict Symbol
  pub edges : Dict (List String)
  pub atlas : String
  pub extract : Option (List String) → Charter
  pub norms : List Norm
  pub modules : ℕ

pub data Event : Type 0 where
  branch_moved : (repo head previous : String) → Event
  building : (repo sha reason : String) → Event
  failed : (repo sha : String) → Event
  baseline : (repo sha : String) (number claims : ℕ) → Event
  current : (repo sha : String) (number : ℕ) → Event
  changed : (repo from_sha to_sha : String) (level : Level) (signals number : ℕ) → Event
  created : (repo notification_id kind : String) (level : Level) (title sha : String) → Event

-- The tables that a rebuild writes, and the log.
pub record Tables : Type 0 where
  pub symbols : List SymbolRow
  pub edges : List Edge
  pub atlases : List Atlas
  pub memory : Memory
  pub changes : Changes
  pub norms : List NormRow
  pub notices : Notices
  pub events : List Event

unfoldable pub emit : Event → Tables → Tables
emit e t = record t { events = t.events ++ e ∷ [] }

-- One of the parts after the first begins with "_".
private_part : String → Bool
private_part fqn = includes "._" fqn

-- The names of the symbols that are public.
unfoldable pub public_names : Dict Symbol → List String
unfolding private_part
public_names [] = []
public_names ((fqn, s) ∷ rest) =
    let names = public_names rest in if private_part fqn then names else fqn ∷ names

unfoldable pub fresh_charter : Checkout → Charter
fresh_charter c = c.extract (if is_nil c.symbols then none else some (public_names c.symbols))

symbols_in : Dict Symbol → List Symbol
symbols_in [] = []
symbols_in ((fqn, s) ∷ rest) = s ∷ symbols_in rest

-- The first half of `_rebuild`: symbols, calls and the atlas.
unfoldable pub store_atlas : ℕ → String → String → Checkout → Tables → Tables
unfolding symbols_in
store_atlas now slug sha c t =
    let (atlases, repos) = put_atlas now slug sha c.atlas (t.atlases, t.memory.repos) in
    record t {
      symbols = put_symbols slug (symbols_in c.symbols) t.symbols;
      edges = put_call_edges slug c.edges t.edges;
      atlases = atlases;
      memory = record (t.memory) { repos = repos };
    }

pub record Refreshed : Type 0 where
  pub charter : Charter
  pub drift : Option CharterDrift
  pub atlas_modules : ℕ

unfoldable pub update_news : String → Charter → Charter → CharterDrift → DriftSignal → News
update_news slug previous stored d top = record {
  repo = slug;
  kind = "repo.update";
  level = drift_level d;
  title = concat (
      elim (drift_level d) [ major ↦ "Major" | _ ↦ "Notable" ]
      ∷ " update to "
      ∷ slug
      ∷ ": "
      ∷ top.detail
      ∷ []);
  body = concat (
      "The default branch moved "
      ∷ take_text 10 previous.sha
      ∷ " → "
      ∷ take_text 10 stored.sha
      ∷ ". The system's memory of this repository was rebuilt as charter #"
      ∷ decimal stored.number
      ∷ "; "
      ∷ count_text (length d.signals) "change" "changes"
      ∷ " to what it is."
      ∷ []);
  sha = stored.sha;
  evidence = evidence_lines d;
}

abbrev pub created_event : Option Notification → Tables → Tables
created_event none t = t
created_event (some n) t = emit (created n.repo n.id n.kind n.level n.title n.sha) t

-- `raise_` on the tables.
unfoldable pub tell : Notifier → ℕ → String → News → Tables → Tables
unfolding emit
tell cfg now answer news t =
    let (n, notices) = raise cfg now answer news t.notices in
    created_event n (record t { notices = notices })

unfoldable pub tell_headline :
    Config
    → ℕ
    → String
    → String
    → Charter
    → Charter
    → CharterDrift
    → Option DriftSignal
    → Tables
    → Option Tables
unfolding update_news
tell_headline cfg now answer slug previous stored d none t = none
tell_headline cfg now answer slug previous stored d (some top) t =
    some (tell cfg.notifier now answer (update_news slug previous stored d top) t)

-- `none` is an exception, after which what was written stays written.
abbrev pub Outcome : Type 0
Outcome = Option Refreshed × Tables

abbrev pub told_or : Refreshed → Tables → Option Tables → Outcome
told_or r t none = (none, t)
told_or r t (some t') = (some r, t')

-- The end of `_rebuild`, with the drift that `compare` found.
unfoldable pub record_drift :
    Config → ℕ → String → String → Charter → Charter → ℕ → Option CharterDrift → Tables → Outcome
unfolding emit tell_headline
record_drift cfg now answer slug previous stored modules none t = (none, t)
record_drift cfg now answer slug previous stored modules (some d) t =
    let r : Refreshed = record { charter = stored; drift = some d; atlas_modules = modules } in
    let t' =
      emit (changed slug previous.sha stored.sha (drift_level d) (length d.signals) stored.number)
        (record t { changes = (put_charter_change now d t.changes).1 }) in
    if is_notified (drift_level d)
    then told_or r t' (tell_headline cfg now answer slug previous stored d (headline d) t')
    else (some r, t')

unfoldable pub conclude :
    Config → ℕ → String → String → String → ℕ → Option Charter → Charter → Tables → Outcome
unfolding emit record_drift
conclude cfg now answer slug sha modules none stored t = (
  some (record { charter = stored; drift = none; atlas_modules = modules }),
  emit (baseline slug sha stored.number (length stored.claims)) t,
)
conclude cfg now answer slug sha modules (some previous) stored t =
    if previous.sha == stored.sha
    then (
      some (record { charter = stored; drift = none; atlas_modules = modules }),
      emit (current slug sha stored.number) t,
    )
    else record_drift cfg now answer slug previous stored modules
        (compare cfg.python cfg.limits previous stored) t

unfoldable pub declare :
    Config
    → ℕ
    → String
    → String
    → String
    → ℕ
    → Option Charter
    → Charter
    → Option (List NormRow)
    → Tables
    → Outcome
declare cfg now answer slug sha modules previous stored none t = (none, t)
declare cfg now answer slug sha modules previous stored (some rows) t =
    conclude cfg now answer slug sha modules previous stored (record t { norms = rows })

-- `_rebuild` from a checkout; `none` for the checkout is an exception before anything is written.
unfoldable pub rebuild : Config → ℕ → String → String → String → Option Checkout → Tables → Outcome
unfolding declare
rebuild cfg now answer slug sha none t = (none, t)
rebuild cfg now answer slug sha (some c) t =
    let t1 = store_atlas now slug sha c t in
    let previous = charter slug none t1.memory.charters in
    let (stored, memory) = put_charter now (fresh_charter c) t1.memory in
    declare cfg now answer slug sha c.modules previous stored
      (replace_norms slug "declared" c.norms t1.norms) (record t1 { memory = memory })
