-- ===== src/Charter/Keeper/Retry.antt =====
-- prflagger/charter/keeper.py: a head of the default branch is looked at once.
use pr_review.Prelude.{
  ℕ, String, ◌≡◌, ◌≢◌, refl, ap, ◌∙◌, Bool, true, false, Option, none, some, if◌then◌else◌, arith,
  List, subst, sym, not, ◌&&◌, ◌==◌, eq_iff, found-update_where, found-update_other,
}
use pr_review.Core.Records.{Repo, Charter}
use pr_review.Storage.Repos.{is_repo, repo, set_branch_head, set_atlas_sha, set_charter_sha, Repos}
use pr_review.Storage.Charters.{Charters, Memory, charter, store_new, put_charter}
use pr_review.Storage.Graph.{put_atlas}
use pr_review.Storage.Reviews.{NormRow}
use pr_review.Charter.Keeper.{reported, refresh, refresh_row, moved, check_row, check}
use pr_review.Charter.Rebuild.Kept.{remembered-conclude}
use pr_review.Charter.Rebuild.{
  Config, Checkout, Tables, Outcome, emit, fresh_charter, store_atlas, declare, rebuild,
}

-- The row of the repository stands in the table with this head.
abbrev pub IsAt : String → String → Repos → Type 0
IsAt slug head rows = (r : Repo) × (repo slug rows ≡ some r) × (r.branch_head ≡ head)

head_if :
    (b : Bool) (r r' : Repo) (head : String)
    → r.branch_head ≡ head
    → r'.branch_head ≡ head
    → (if b then r else r').branch_head ≡ head
head_if true r r' head e f = e
head_if false r r' head e f = f

module _ (slug head : String) where
  atlas-IsAt :
      (other sha : String) (rows : Repos)
      → IsAt slug head rows
      → IsAt slug head (set_atlas_sha other sha rows)
  unfolding repo set_atlas_sha
  atlas-IsAt other sha rows (r, found, stands) = (
    if is_repo other r then record r { atlas_sha = sha } else r,
    found-update_other (is_repo slug) (is_repo other) (λ x. record x { atlas_sha = sha }) rows r
        (λ x. refl) found,
    head_if (is_repo other r) (record r { atlas_sha = sha }) r head stands stands,
  )

  charter-IsAt :
      (other sha : String) (rows : Repos)
      → IsAt slug head rows
      → IsAt slug head (set_charter_sha other sha rows)
  unfolding repo set_charter_sha
  charter-IsAt other sha rows (r, found, stands) = (
    if is_repo other r then record r { charter_sha = sha } else r,
    found-update_other (is_repo slug) (is_repo other) (λ x. record x { charter_sha = sha }) rows r
        (λ x. refl) found,
    head_if (is_repo other r) (record r { charter_sha = sha }) r head stands stands,
  )

  put_charter-IsAt :
      (now : ℕ) (c : Charter) (m : Memory)
      → IsAt slug head m.repos
      → IsAt slug head (put_charter now c m).1.repos
  unfolding put_charter
  put_charter-IsAt now c m at_head = by_stored (charter c.repo (some c.sha) m.charters)
    where
      by_stored : (o : Option Charter) → IsAt slug head (store_new now c m o).1.repos
      by_stored (some existing) = at_head
      by_stored none = unfold store_new in charter-IsAt c.repo c.sha m.repos at_head

  outcome_if :
      (b : Bool) (x y : Outcome)
      → IsAt slug head x.1.memory.repos
      → IsAt slug head y.1.memory.repos
      → IsAt slug head (if b then x else y).1.memory.repos
  outcome_if true x y e f = e
  outcome_if false x y e f = f

  module _ (cfg : Config) (now : ℕ) (answer : String) where
    declare-IsAt :
        (sha : String) (modules : ℕ) (previous : Option Charter) (stored : Charter)
        (o : Option (List NormRow)) (t : Tables)
        → IsAt slug head t.memory.repos
        → IsAt slug head
            (declare cfg now answer slug sha modules previous stored o t).1.memory.repos
    unfolding declare
    declare-IsAt sha modules previous stored none t at_head = at_head
    declare-IsAt sha modules previous stored (some rows) t at_head =
        subst (λ (k : Memory × List NormRow). IsAt slug head k.0.repos)
          (sym (
            remembered-conclude cfg now answer slug sha modules previous stored
              (record t { norms = rows })))
          at_head

    rebuild-IsAt :
        (sha : String) (checkout : Option Checkout) (t : Tables)
        → IsAt slug head t.memory.repos
        → IsAt slug head (rebuild cfg now answer slug sha checkout t).1.memory.repos
    unfolding rebuild store_atlas put_atlas
    rebuild-IsAt sha none t at_head = at_head
    rebuild-IsAt sha (some c) t at_head =
        declare-IsAt sha c.modules _ _ _ _
          (put_charter-IsAt now (fresh_charter c) _ (atlas-IsAt slug sha t.memory.repos at_head))

    reported-IsAt :
        (sha : String) (x : Outcome)
        → IsAt slug head x.1.memory.repos
        → IsAt slug head (reported slug sha x).1.memory.repos
    unfolding reported emit
    reported-IsAt sha (none, t) at_head = at_head
    reported-IsAt sha (some r, t) at_head = at_head

    row-IsAt :
        (sha reason : String) (force : Bool) (o : Option Repo) (checkout : Option Checkout)
        (t : Tables)
        → IsAt slug head t.memory.repos
        → IsAt slug head
            (refresh_row cfg now answer slug sha reason force o checkout t).1.memory.repos
    unfolding refresh_row emit
    row-IsAt sha reason force none checkout t at_head = at_head
    row-IsAt sha reason force (some r) checkout t at_head =
        outcome_if (not force && sha == r.charter_sha) _ _ at_head
          (reported-IsAt sha _ (rebuild-IsAt sha checkout _ at_head))

    noted-IsAt :
        (rows : Repos) (r : Repo)
        → repo slug rows ≡ some r
        → IsAt slug head (set_branch_head slug head rows)
    unfolding repo set_branch_head
    noted-IsAt rows r known = (
      record r { branch_head = head },
      found-update_where (is_repo slug) (λ x. record x { branch_head = head }) rows r (λ x h. h)
          known,
      refl,
    )

    moved-IsAt :
        (previous : String) (checkout : Option Checkout) (t : Tables) (r : Repo)
        → repo slug t.memory.repos ≡ some r
        → IsAt slug head (moved cfg now answer slug head previous checkout t).1.memory.repos
    unfolding moved emit refresh
    moved-IsAt previous checkout t r known =
        outcome_if cfg.refresh_on_branch_move _ _
          (row-IsAt head "default branch moved" false _ checkout _
            (noted-IsAt t.memory.repos r known))
          (noted-IsAt t.memory.repos r known)

    check-IsAt :
        (checkout : Option Checkout) (t : Tables) (r : Repo)
        → repo slug t.memory.repos ≡ some r
        → head ≢ r.branch_head
        → IsAt slug head (check cfg now answer slug (some head) checkout t).1.memory.repos
    unfolding check check_row
    check-IsAt checkout t r known new =
        subst
          (λ o.
            IsAt slug head (check_row cfg now answer slug (some head) o checkout t).1.memory.repos)
          (sym known)
          (subst
            (λ b.
              IsAt slug head
                (if b
                  then (none, t)
                  else moved cfg now answer slug head r.branch_head checkout t).1.memory.repos)
            (sym other) (moved-IsAt r.branch_head checkout t r known))
      where
        other : (head == r.branch_head) ≡ false
        other = ground (arith, eq_iff head r.branch_head)

  charters_if :
      (b : Bool) (x y : Outcome) (k : Charters)
      → x.1.memory.charters ≡ k
      → y.1.memory.charters ≡ k
      → (if b then x else y).1.memory.charters ≡ k
  charters_if true x y k e f = e
  charters_if false x y k e f = f

  module _ (cfg : Config) (now : ℕ) (answer : String) where
    row_kept :
        (sha reason : String) (o : Option Repo) (t : Tables)
        → (refresh_row cfg now answer slug sha reason false o none t).1.memory.charters
          ≡ t.memory.charters
    unfolding refresh_row rebuild reported emit
    row_kept sha reason none t = refl
    row_kept sha reason (some r) t = charters_if (not false && sha == r.charter_sha) _ _ _ refl refl

    charters_kept :
        (t : Tables)
        → (check cfg now answer slug (some head) none t).1.memory.charters ≡ t.memory.charters
    unfolding check check_row moved emit refresh
    charters_kept t = by_row (repo slug t.memory.repos)
      where
        by_row :
            (o : Option Repo)
            → (check_row cfg now answer slug (some head) o none t).1.memory.charters
              ≡ t.memory.charters
        by_row none = refl
        by_row (some r) = charters_if (head == r.branch_head) _ _ _ refl (
            charters_if cfg.refresh_on_branch_move _ _ _ (row_kept head "default branch moved" _ _)
              refl)

  -- A later check at the head that stands in the table.
  again :
      (cfg : Config) (later : ℕ) (answer : String) (checkout : Option Checkout) (t : Tables)
      → IsAt slug head t.memory.repos
      → check cfg later answer slug (some head) checkout t ≡ (none, t)
  unfolding check
  again cfg later answer checkout t (r, found, stands) =
      ap (λ o. check_row cfg later answer slug (some head) o checkout t) found
      ∙ (unfold check_row in ground (arith, eq_iff head r.branch_head))

  -- Once a check has found a new head of a repository's default branch, no later check does anything while
  -- the branch stays at that head, whatever came of the first: a rebuild, or an exception at any point
  -- of it. An exception before anything is written leaves the charters as they were.
  pub check_stuck :
      (cfg : Config) (now later : ℕ) (answer answer' : String)
      (checkout checkout' : Option Checkout) (t : Tables) (r : Repo)
      → repo slug t.memory.repos ≡ some r
      → head ≢ r.branch_head
      → (check cfg later answer' slug
            (some head)
            checkout'
            (check cfg now answer slug (some head) checkout t).1
          ≡ (none, (check cfg now answer slug (some head) checkout t).1))
        × ((check cfg now answer slug (some head) none t).1.memory.charters ≡ t.memory.charters)
  check_stuck cfg now later answer answer' checkout checkout' t r known new = (
    again cfg later answer' checkout' (check cfg now answer slug (some head) checkout t).1
        (check-IsAt cfg now answer checkout t r known new),
    charters_kept cfg now answer t,
  )
