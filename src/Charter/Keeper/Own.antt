-- ===== src/Charter/Keeper/Own.antt =====
-- A repository's memory is rebuilt from its own checkout, and no other's is touched.
use pr_review.Prelude.{
  ℕ, String, ◌≡◌, ◌≢◌, refl, ap, sym, subst, ◌∙◌, Bool, true, false, not, Option, none, some, List,
  [], ◌∷◌, ◌++◌, ◌==◌, ◌&&◌, if◌then◌else◌, all_where,
}
use pr_review.Core.Records.{Repo, Charter}
use pr_review.Storage.Repos.{repo, set_branch_head}
use pr_review.Storage.Charters.{Charters, Memory, charter, put_charter}
use pr_review.Storage.Charters.Laws.{put_charter-IsRemembered}
use pr_review.Storage.Reviews.{NormRow, replace_norms}
use pr_review.Storage.Reviews.Norms.{replace_norms-other}
use pr_review.Charter.Keeper.{reported, refresh, refresh_row, moved, check_row, check}
use pr_review.Charter.Rebuild.Kept.{remembered-conclude}
use pr_review.Charter.Rebuild.{
  Config, Checkout, Tables, Outcome, building, emit, fresh_charter, store_atlas, conclude, declare,
  rebuild,
}

-- The charters and the norms.
abbrev kept : Tables → Charters × List NormRow
kept t = (t.memory.charters, t.norms)

conclude_kept :
    (cfg : Config) (now : ℕ) (answer slug sha : String) (modules : ℕ) (previous : Option Charter)
    (stored : Charter) (t : Tables)
    → kept (conclude cfg now answer slug sha modules previous stored t).1 ≡ kept t
conclude_kept cfg now answer slug sha modules previous stored t =
    ap (λ (k : Memory × List NormRow). (k.0.charters, k.1))
      (remembered-conclude cfg now answer slug sha modules previous stored t)

-- What another repository remembers, at any commit, and its norms.
pub record IsUntouched (other : String) (k l : Charters × List NormRow) : Type 0 where
  pub memory : (sha : Option String) → charter other sha l.0 ≡ charter other sha k.0
  pub norms :
      all_where (λ (r : NormRow). r.repo == other) l.1
      ≡ all_where (λ (r : NormRow). r.repo == other) k.1

same-IsUntouched : (other : String) (k : Charters × List NormRow) → IsUntouched other k k
same-IsUntouched other k = record { memory = λ sha. refl; norms = refl }

if-IsUntouched :
    (b : Bool) (other : String) (k : Charters × List NormRow) (x y : Outcome)
    → IsUntouched other k (kept x.1)
    → IsUntouched other k (kept y.1)
    → IsUntouched other k (kept (if b then x else y).1)
if-IsUntouched true other k x y e f = e
if-IsUntouched false other k x y e f = f

reported_kept : (slug sha : String) (x : Outcome) → kept (reported slug sha x).1 ≡ kept x.1
unfolding reported emit
reported_kept slug sha (none, t) = refl
reported_kept slug sha (some r, t) = refl

module _ (cfg : Config) (now : ℕ) (answer slug other : String) (c : Checkout) (t : Tables)
    (named : (fresh_charter c).sha ≢ "") (own : (fresh_charter c).repo ≡ slug)
    (apart : other ≢ slug) where
  stored_other :
      (sha : Option String) (m : Memory)
      → charter other sha (put_charter now (fresh_charter c) m).1.charters
        ≡ charter other sha m.charters
  stored_other sha m =
      (put_charter-IsRemembered now (fresh_charter c) m named).others other sha
        (λ e. apart (sym e ∙ own))

  declared-IsUntouched :
      (sha : String) (modules : ℕ) (previous : Option Charter) (stored : Charter)
      (rows : List NormRow) (o : Option (List NormRow)) (u : Tables)
      → replace_norms slug "declared" c.norms rows ≡ o
      → u.norms ≡ rows
      → ((s : Option String)
          → charter other s u.memory.charters ≡ charter other s t.memory.charters)
      → rows ≡ t.norms
      → IsUntouched other
          (kept t)
          (kept (declare cfg now answer slug sha modules previous stored o u).1)
  unfolding declare
  declared-IsUntouched sha modules previous stored rows none u e same memory old = record {
    memory = memory;
    norms = ap (all_where (λ (r : NormRow). r.repo == other)) (same ∙ old);
  }
  declared-IsUntouched sha modules previous stored rows (some rows') u e same memory old =
      subst (IsUntouched other (kept t))
        (sym (
          conclude_kept cfg now answer slug sha modules previous stored
            (record u { norms = rows' })))
        (record {
          memory = memory;
          norms =
              (replace_norms-other slug "declared" other c.norms rows rows' (λ f. apart (sym f))
                e).1
              ∙ ap (all_where (λ (r : NormRow). r.repo == other)) old;
        })

  rebuilt-IsUntouched :
      (sha : String) (u : Tables)
      → kept u ≡ kept t
      → IsUntouched other (kept t) (kept (rebuild cfg now answer slug sha (some c) u).1)
  unfolding rebuild store_atlas
  rebuilt-IsUntouched sha u e =
      declared-IsUntouched sha c.modules (charter slug none u.memory.charters) _ u.norms
        (replace_norms slug "declared" c.norms u.norms) _ refl refl
        (λ s. stored_other s _ ∙ ap (λ (k : Charters × List NormRow). charter other s k.0) e)
        (ap (λ (k : Charters × List NormRow). k.1) e)

  row-IsUntouched :
      (sha reason : String) (force : Bool) (o : Option Repo) (u : Tables)
      → kept u ≡ kept t
      → IsUntouched other
          (kept t)
          (kept (refresh_row cfg now answer slug sha reason force o (some c) u).1)
  unfolding refresh_row emit
  row-IsUntouched sha reason force none u e =
      subst (IsUntouched other (kept t)) (sym e) (same-IsUntouched other (kept t))
  row-IsUntouched sha reason force (some r) u e =
      if-IsUntouched (not force && sha == r.charter_sha) other (kept t) _ _
        (subst (IsUntouched other (kept t)) (sym e) (same-IsUntouched other (kept t)))
        (subst (IsUntouched other (kept t)) (sym (reported_kept slug sha _)) (
          rebuilt-IsUntouched sha (record u { events = u.events ++ building slug sha reason ∷ [] })
            e))

  moved-IsUntouched :
      (head previous : String)
      → IsUntouched other (kept t) (kept (moved cfg now answer slug head previous (some c) t).1)
  unfolding moved emit refresh
  moved-IsUntouched head previous =
      if-IsUntouched cfg.refresh_on_branch_move other (kept t) _ _
        (row-IsUntouched head "default branch moved" false
          (repo slug (set_branch_head slug head t.memory.repos)) _ refl)
        (same-IsUntouched other (kept t))

  -- When a repository's default branch is checked, with a checkout whose charter is of that repository at a
  -- named commit, then every other repository remembers at each commit what it did, and keeps its norms.
  pub check-IsUntouched :
      (head : Option String)
      → IsUntouched other
          (t.memory.charters, t.norms)
          (
            (check cfg now answer slug head (some c) t).1.memory.charters,
            (check cfg now answer slug head (some c) t).1.norms,
          )
  unfolding check
  check-IsUntouched head = by_row (repo slug t.memory.repos) head
    where
      by_row :
          (o : Option Repo) (h : Option String)
          → IsUntouched other (kept t) (kept (check_row cfg now answer slug h o (some c) t).1)
      by_row none h = same-IsUntouched other (kept t)
      by_row (some r) none = same-IsUntouched other (kept t)
      by_row (some r) (some head') =
          if-IsUntouched (head' == r.branch_head) other (kept t) _ _
            (same-IsUntouched other (kept t)) (moved-IsUntouched head' r.branch_head)
