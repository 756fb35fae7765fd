-- ===== src/Engine/Notify.antt =====
-- prflagger/engine/notify.py: notification_id and Notifier.raise_. The digest of an identifier is an
-- argument, and so is what a delivery to the webhook answered, as its JSON text.
use pr_review.Prelude.{
  ℕ, String, Bool, true, false, Option, none, some, List, [], ◌∷◌, ◌&&◌, leb, if◌then◌else◌, concat,
  join,
}
use pr_review.Core.Records.{Notification, Level, level_none, minor, notable, major, level_index}
use pr_review.Storage.Notices.{Notices, put_notification, record_delivery}

-- The webhook is configured or not; webhook_min_level of CharterConfig.
pub record Notifier : Type 0 where
  pub digest : String → String
  pub has_webhook : Bool
  pub webhook_min_level : Level

unfoldable pub notification_id : Notifier → String → String → String → String
notification_id cfg repo kind sha =
    join "n" (cfg.digest (concat (repo ∷ "\0" ∷ kind ∷ "\0" ∷ sha ∷ [])))

-- What a caller of `raise_` gives.
pub record News : Type 0 where
  pub repo : String
  pub kind : String
  pub level : Level
  pub title : String
  pub body : String
  pub sha : String
  pub evidence : List String

-- `level in _NOTIFIED`
unfoldable pub is_notified : Level → Bool
is_notified level_none = false
is_notified minor = false
is_notified notable = true
is_notified major = true

unfoldable pub notification_of : Notifier → ℕ → News → Notification
notification_of cfg now news = record {
  id = notification_id cfg news.repo news.kind news.sha;
  repo = news.repo;
  kind = news.kind;
  level = news.level;
  title = news.title;
  body = news.body;
  sha = news.sha;
  created_at = now;
  acknowledged_at = none;
  evidence = news.evidence;
}

delivered : Notifier → Notification → String → Notices → Notices
delivered cfg n answer rows =
    if cfg.has_webhook && leb (level_index cfg.webhook_min_level) (level_index n.level)
    then record_delivery n.id answer rows
    else rows

announced : Notifier → Notification → String → Bool × Notices → Option Notification × Notices
unfolding delivered
announced cfg n answer (true, rows) = (some n, delivered cfg n answer rows)
announced cfg n answer (false, rows) = (none, rows)

-- `raise_`: a notification that is given back is also an event.
unfoldable pub raise : Notifier → ℕ → String → News → Notices → Option Notification × Notices
unfolding announced
raise cfg now answer news rows =
    if is_notified news.level
    then announced cfg (notification_of cfg now news) answer
        (put_notification now (notification_of cfg now news) rows)
    else (none, rows)
