-- ===== src/Charter/Rebuild/Kept.antt =====
-- prflagger/charter/keeper.py: what _rebuild does after the charter and the norms are stored changes neither.
use pr_review.Prelude.{
  ℕ, String, ◌≡◌, refl, Bool, true, false, Option, none, some, List, ◌==◌, if◌then◌else◌,
}
use pr_review.Core.Records.{Charter, CharterDrift, DriftSignal, Notification, drift_level}
use pr_review.Storage.Charters.{Memory}
use pr_review.Storage.Reviews.{NormRow}
use pr_review.Charter.Drift.{compare}
use pr_review.Charter.Headline.{headline}
use pr_review.Engine.Notify.{is_notified}
use pr_review.Charter.Rebuild.{
  Config, Tables, Outcome, Refreshed, emit, tell, created_event, tell_headline, told_or,
  record_drift, conclude,
}

-- The repositories with their charters, and the norms.
abbrev pub remembered : Tables → Memory × List NormRow
remembered t = (t.memory, t.norms)

remembered_if :
    (b : Bool) (x y : Outcome) (k : Memory × List NormRow)
    → remembered x.1 ≡ k
    → remembered y.1 ≡ k
    → remembered (if b then x else y).1 ≡ k
remembered_if true x y k e f = e
remembered_if false x y k e f = f

created_remembered :
    (n : Option Notification) (t : Tables) → remembered (created_event n t) ≡ remembered t
unfolding emit
created_remembered none t = refl
created_remembered (some n) t = refl

told_remembered :
    (cfg : Config) (now : ℕ) (answer slug : String) (previous stored : Charter) (d : CharterDrift)
    (o : Option DriftSignal) (r : Refreshed) (t : Tables)
    → remembered (told_or r t (tell_headline cfg now answer slug previous stored d o t)).1
      ≡ remembered t
unfolding tell_headline tell
told_remembered cfg now answer slug previous stored d none r t = refl
told_remembered cfg now answer slug previous stored d (some top) r t = created_remembered _ _

drift_remembered :
    (cfg : Config) (now : ℕ) (answer slug : String) (previous stored : Charter) (modules : ℕ)
    (o : Option CharterDrift) (t : Tables)
    → remembered (record_drift cfg now answer slug previous stored modules o t).1 ≡ remembered t
unfolding record_drift emit
drift_remembered cfg now answer slug previous stored modules none t = refl
drift_remembered cfg now answer slug previous stored modules (some d) t =
    remembered_if (is_notified (drift_level d)) _ _ _
      (told_remembered cfg now answer slug previous stored d (headline d) _ _) refl

pub remembered-conclude :
    (cfg : Config) (now : ℕ) (answer slug sha : String) (modules : ℕ) (previous : Option Charter)
    (stored : Charter) (t : Tables)
    → remembered (conclude cfg now answer slug sha modules previous stored t).1 ≡ remembered t
unfolding conclude emit
remembered-conclude cfg now answer slug sha modules none stored t = refl
remembered-conclude cfg now answer slug sha modules (some p) stored t =
    remembered_if (p.sha == stored.sha) _ _ _ refl (
      drift_remembered cfg now answer slug p stored modules (compare cfg.python cfg.limits p stored)
        t)
