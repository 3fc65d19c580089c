-- ===== src/Tests/RetentionExamples.antt =====
-- The theorems on retention at concrete rows.
use statusnook.Prelude.{
  List, [], arith, false, keep, nat_eq, none, some, string_eq, true, ℕ, ◌*◌, ◌-◌, ◌==◌, ◌∷◌, ◌≡◌,
}
use statusnook.Alerts.Tables.{AlertNotification}
use statusnook.Auth.Tables.{second, session_lifetime}
use statusnook.Auth.Queries.{validate_session}
use statusnook.Retention.Prune.{is_old_notification, is_old_session, prune}
use statusnook.Retention.PruneLaws.{is_recent, prune-ends, prune-keeps_recent}
use statusnook.Retention.Sessions.{prune-validate_session, row_of}
use statusnook.Tests.Data.{auth_tables}

-- A notification that was sent long ago, one that is still queued, and one sent lately.
abbrev queue : List AlertNotification
queue =
    record { id = 1; created_at = 1; sent_at = some 2; subscription_id = 2; message_id = 5 }
    ∷ record { id = 2; created_at = 1; sent_at = none; subscription_id = 2; message_id = 5 }
    ∷ record { id = 3; created_at = 1; sent_at = some 9; subscription_id = 2; message_id = 5 }
    ∷ []

prune-keeps_recent_example :
    keep
      (is_recent (is_old_notification 5))
      (prune (is_old_notification 5) (λ n. n == 4) 3 0 queue).rows
    ≡ keep (is_recent (is_old_notification 5)) queue
prune-keeps_recent_example = prune-keeps_recent (is_old_notification 5) (λ n. n == 4) 3 0 queue

prune-ends_example :
    ((prune (is_old_notification 5) (λ _. false) 4 0 queue).ended ≡ true)
    × (((n : ℕ) → false ≡ false)
        → (prune (is_old_notification 5) (λ _. false) 4 0 queue).rows
          ≡ keep (is_recent (is_old_notification 5)) queue)
prune-ends_example = prune-ends (is_old_notification 5) (λ _. false) 4 0 queue (omega arith)

prune-validate_session_example :
    row_of (
      validate_session "t1" (5000 * second) (record auth_tables {
        sessions =
            (prune
              (is_old_session (5000 * second - session_lifetime))
              (λ _. false)
              2
              0
              auth_tables.sessions).rows;
      }))
    ≡ row_of (validate_session "t1" (5000 * second) auth_tables)
prune-validate_session_example =
    prune-validate_session (λ _. false) 2 (5000 * second) (5000 * second) "t1" auth_tables
      (omega arith)
