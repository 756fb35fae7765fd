-- ===== src/Storage/Notices/Laws.antt =====
-- A notification is recorded once.
use pr_review.Prelude.{
  ℕ, String, ◌≡◌, refl, ap, ◌∙◌, Bool, true, false, some, [], ◌∷◌, ◌++◌, arith, eq_iff, first_where,
  update_where, insert_new, Option-cases, inl, inr, sym, is_some, subst, insert_new-absent,
  insert_new-found,
}
use pr_review.Core.Records.{Notification}
use pr_review.Storage.Notices.{
  NoticeRow, Notices, is_notice, put_notification, notice_row, acknowledged, acknowledge,
  record_delivery,
}

-- The calls that write the table, one after another.
pub data Later : Notices → Notices → Type 0 where
  start : {rows : Notices} → Later rows rows
  puts :
      {rows rows' : Notices} (now : ℕ) (n : Notification)
      → Later rows rows'
      → Later rows (put_notification now n rows').1
  acknowledges :
      {rows rows' : Notices} (now : ℕ) (id : String)
      → Later rows rows'
      → Later rows (acknowledge now id rows').1
  records :
      {rows rows' : Notices} (id delivery : String)
      → Later rows rows'
      → Later rows (record_delivery id delivery rows')

-- A row with the identifier stands in the table.
unfoldable pub recorded : String → Notices → Bool
unfolding first_where
recorded id rows = is_some (first_where (is_notice id) rows)

module _ (id : String) where
  recorded-update_where :
      (p : NoticeRow → Bool) (f : NoticeRow → NoticeRow) (rows : Notices)
      → ((r : NoticeRow) → is_notice id (f r) ≡ is_notice id r)
      → recorded id (update_where p f rows) ≡ recorded id rows
  unfolding recorded first_where update_where
  recorded-update_where p f [] same = refl
  recorded-update_where p f (r ∷ rs) same =
      ground (arith, same r, recorded-update_where p f rs same)

  recorded-append :
      (rows more : Notices) → recorded id rows ≡ true → recorded id (rows ++ more) ≡ true
  unfolding recorded first_where
  recorded-append [] more h = ground arith
  recorded-append (r ∷ rs) more h = ground (arith, recorded-append rs more)

  recorded-put_notification :
      (now : ℕ) (n : Notification) (rows : Notices)
      → recorded id rows ≡ true
      → recorded id (put_notification now n rows).1 ≡ true
  unfolding put_notification insert_new
  recorded-put_notification now n rows h = elim (Option-cases (first_where (is_notice n.id) rows)) [
    | inl absent ↦
        subst (λ (x : Bool × Notices). recorded id x.1 ≡ true)
          (sym (insert_new-absent (is_notice n.id) (notice_row now n) rows absent))
          (recorded-append rows (notice_row now n ∷ []) h)
    | inr (r, found) ↦
        subst (λ (x : Bool × Notices). recorded id x.1 ≡ true)
          (sym (insert_new-found (is_notice n.id) (notice_row now n) r rows found)) h
  ]

  kept-Later :
      (rows rows' : Notices) → Later rows rows' → recorded id rows ≡ true → recorded id rows' ≡ true
  unfolding acknowledge record_delivery
  kept-Later rows _ start h = h
  kept-Later rows _ (puts now n l) h = recorded-put_notification now n _ (kept-Later rows _ l h)
  kept-Later rows _ (acknowledges now i l) h =
      (recorded-update_where _ (acknowledged now) _ (λ r. refl) ∙ kept-Later rows _ l h)
  kept-Later rows _ (records i d l) h =
      (recorded-update_where _ (λ r. record r { delivery = some d }) _ (λ r. refl)
        ∙ kept-Later rows _ l h)

  recorded_found :
      (rows : Notices)
      → recorded id rows ≡ true
      → (r : NoticeRow) × (first_where (is_notice id) rows ≡ some r)
  unfolding recorded
  recorded_found rows h = elim (Option-cases (first_where (is_notice id) rows)) [
    | inl absent ↦ ground arith
    | inr found ↦ found
  ]

  recorded_last :
      (rows : Notices) (r : NoticeRow) → is_notice id r ≡ true → recorded id (rows ++ r ∷ []) ≡ true
  unfolding recorded first_where
  recorded_last [] r h = ground arith
  recorded_last (x ∷ xs) r h = ground (arith, recorded_last xs r)

recorded_now :
    (now : ℕ) (n : Notification) (rows : Notices)
    → recorded n.id (put_notification now n rows).1 ≡ true
unfolding put_notification
recorded_now now n rows = elim (Option-cases (first_where (is_notice n.id) rows)) [
  | inl absent ↦
      subst (λ (x : Bool × Notices). recorded n.id x.1 ≡ true)
        (sym (insert_new-absent (is_notice n.id) (notice_row now n) rows absent))
        (recorded_last n.id rows (notice_row now n) (ground (arith, eq_iff n.id n.id)))
  | inr (r, found) ↦
      subst (λ (x : Bool × Notices). recorded n.id x.1 ≡ true)
        (sym (insert_new-found (is_notice n.id) (notice_row now n) r rows found))
        (unfold recorded in ap is_some found)
]

-- A notification is recorded once: when one was put, and whatever is put, acknowledged and delivered
-- afterwards, another with the same identifier is refused and changes nothing.
pub put_notification-once :
    (now later : ℕ) (n again : Notification) (rows rows' : Notices)
    → Later (put_notification now n rows).1 rows'
    → again.id ≡ n.id
    → put_notification later again rows' ≡ (false, rows')
put_notification-once now later n again rows rows' l e =
    let seen = recorded_found again.id rows' (
      kept-Later again.id _ rows' l (
        subst (λ i. recorded i (put_notification now n rows).1 ≡ true) (sym e)
          (recorded_now now n rows))) in
    unfold put_notification in
    insert_new-found (is_notice again.id) (notice_row later again) seen.0 rows' seen.1
