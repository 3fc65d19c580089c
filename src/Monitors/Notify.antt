-- ===== src/Monitors/Notify.antt =====
-- The notification after a check, in checkDueMonitors of monitors2.go, for a monitor that has
-- channels.
use statusnook.Prelude.{
  Bool, List, Option, String, [], false, if◌then◌else◌, nat_eq, none, not, some, string_eq, suc,
  true, zero, ℕ, ◌&&◌, ◌+◌, ◌==◌, ◌||◌, ◌∷◌,
}
use statusnook.Monitors.Check.{Exchange, check, is_happy}

abbrev pub is_first : Option ℕ → Bool
is_first none = true
is_first (some _) = false

abbrev pub was_happy : Option ℕ → Bool
was_happy none = false
was_happy (some code) = is_happy code

unfoldable pub notification : Option ℕ → String → Option String
notification last result =
    let success = result == "success" in
    let first_check = is_first last in
    let last_happy = was_happy last in
    if (first_check && not success)
      || ((last_happy && not success) || (not first_check && (not last_happy && success)))
    then some (if success then "up" else "down")
    else none

-- A check: what its requests get, and which of the database calls after them fail. They are numbered
-- in their order: 0 to 4 write the log, 5 to 7 read the channels, 8 to 10 the addresses.
pub record Checked : Type 0 where
  pub exchanges : List Exchange
  pub fails : ℕ → Bool

-- One of the `count` calls from `first` on fails, and the goroutine returns.
unfoldable pub fail_from : (first count : ℕ) → (ℕ → Bool) → Bool
fail_from first zero fails = false
fail_from first (suc count) fails =
    let rest = fail_from (first + 1) count fails in fails first || rest

-- The transaction that writes the log, and with it the code that the next check compares with.
unfoldable pub log_lost : Checked → Bool
unfolding fail_from
log_lost c = fail_from 0 5 c.fails

unfoldable pub last_after : Option ℕ → Checked → Option ℕ
unfolding log_lost
last_after last c = if log_lost c then last else some (check c.exchanges).response_code

-- The status that is sent after a check: the addresses are read only when one is due.
unfoldable pub status_after : Option ℕ → Checked → Option String
unfolding log_lost fail_from notification
status_after last c =
    if log_lost c || fail_from 5 3 c.fails
    then none
    else elim (notification last (check c.exchanges).result) [
      | none ↦ none
      | some status ↦ if fail_from 8 3 c.fails then none else some status
    ]

-- Check after check: the statuses sent, from the code kept as the last one.
unfoldable pub watch : Option ℕ → List Checked → List String
unfolding last_after status_after
watch last [] = []
watch last (c ∷ checks) =
    let rest = watch (last_after last c) checks in
    elim (status_after last c) [ none ↦ rest | some status ↦ status ∷ rest ]
