-- ===== src/Retention/Prune.antt =====
-- The loop of `prune` in retention.go, on the rows of one table, and which rows of the tables are old.
-- Any of the three database calls of a turn may fail, and ends the loop.
use statusnook.Prelude.{
  Bool, List, [], false, if◌then◌else◌, length, ltb, none, some, suc, true, zero, ℕ, ◌&&◌, ◌+◌, ◌-◌,
  ◌||◌, ◌∷◌,
}
use statusnook.Alerts.Tables.{AlertNotification}
use statusnook.Auth.Tables.{Session}

abbrev pub retention_batch_size : ℕ
retention_batch_size = 5000

-- PruneAlertNotifications: a notification that was never sent is not old.
abbrev pub is_old_notification : ℕ → AlertNotification → Bool
is_old_notification before n = elim n.sent_at [ none ↦ false | some sent_at ↦ ltb sent_at before ]

-- PruneSessions
abbrev pub is_old_session : ℕ → Session → Bool
is_old_session before s = ltb s.created_at before

-- The rows that the loop leaves, and whether it has returned.
pub record Pruned (A : Type 0) : Type 0 where
  pub ended : Bool
  pub rows : List A

module _ {A : Type 0} (is_old : A → Bool) where
  -- `delete … where id in (select id … where … limit ?)`: at most `limit` of the old rows.
  unfoldable pub delete_batch : ℕ → List A → List A
  delete_batch limit [] = []
  delete_batch limit (x ∷ xs) =
      if is_old x && ltb 0 limit then delete_batch (limit - 1) xs else x ∷ delete_batch limit xs

  -- `calls` counts the database calls so far; a turn makes three. A failing call returns, and so does
  -- a batch that is not full; without fuel the loop has not ended.
  unfoldable pub prune : (fails : ℕ → Bool) → (fuel : ℕ) → (calls : ℕ) → List A → Pruned A
  prune fails zero calls rows = record { ended = false; rows = rows }
  prune fails (suc fuel) calls rows =
      let left = delete_batch retention_batch_size rows in
      let rest = prune fails fuel (calls + 3) left in
      if fails calls || (fails (calls + 1) || fails (calls + 2))
      then record { ended = true; rows = rows }
      else if ltb (length rows - length left) retention_batch_size
      then record { ended = true; rows = left }
      else rest
