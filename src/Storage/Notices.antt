-- ===== src/Storage/Notices.antt =====
-- The notifications of prflagger/storage/repos.py.
pub mod Laws
use pr_review.Prelude.{
  ℕ, String, Bool, true, false, Option, none, some, List, [], ◌∷◌, ◌++◌, ◌==◌, ◌&&◌, ◌||◌, eqb, leb,
  if◌then◌else◌, first_where, all_where, update_where, insert_new, sort_by, limit_rows,
}
use pr_review.Core.Records.{Notification, Level, level_index}

-- A row: a notification, and the JSON text of its delivery.
pub record NoticeRow : Type 0 where
  pub notice : Notification
  pub delivery : Option String

abbrev pub Notices : Type 0
Notices = List NoticeRow

abbrev pub is_notice : String → NoticeRow → Bool
is_notice id r = r.notice.id == id

abbrev pub notice_row : ℕ → Notification → NoticeRow
notice_row now n = record {
  notice = record n {
    created_at = if eqb n.created_at 0 then now else n.created_at;
    acknowledged_at = none;
  };
  delivery = none;
}

unfoldable pub put_notification : ℕ → Notification → Notices → Bool × Notices
put_notification now n rows = insert_new (is_notice n.id) (notice_row now n) rows

abbrev is_open : NoticeRow → Bool
is_open r = elim r.notice.acknowledged_at [ none ↦ true | some _ ↦ false ]

abbrev in_repo : Option String → NoticeRow → Bool
in_repo none r = true
in_repo (some repo) r = repo == "" || r.notice.repo == repo

wanted_notice : Option String → Bool → Level → NoticeRow → Bool
wanted_notice repo open_only min_level r =
    leb (level_index min_level) (level_index r.notice.level)
    && in_repo repo r
    && (if open_only then is_open r else true)

notices_of : List NoticeRow → List Notification
notices_of [] = []
notices_of (r ∷ rs) = r.notice ∷ notices_of rs

unfoldable pub notifications : Option String → Bool → Level → ℕ → Notices → List Notification
unfolding wanted_notice notices_of
notifications repo open_only min_level limit rows = notices_of (
    limit_rows limit (
      sort_by (λ (a b : NoticeRow). leb b.notice.created_at a.notice.created_at)
        (all_where (wanted_notice repo open_only min_level) rows)))

abbrev pub acknowledged : ℕ → NoticeRow → NoticeRow
acknowledged now r = record r { notice = record (r.notice) { acknowledged_at = some now } }

abbrev written : Option NoticeRow → Bool
written none = false
written (some _) = true

-- Whether a row was open and is not any more.
unfoldable pub acknowledge : ℕ → String → Notices → Bool × Notices
acknowledge now id rows =
    let open_row : NoticeRow → Bool = λ r. is_notice id r && is_open r in
    (written (first_where open_row rows), update_where open_row (acknowledged now) rows)

unfoldable pub record_delivery : String → String → Notices → Notices
record_delivery id delivery rows =
    update_where (is_notice id) (λ r. record r { delivery = some delivery }) rows
