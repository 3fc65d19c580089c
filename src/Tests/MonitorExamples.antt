-- ===== src/Tests/MonitorExamples.antt =====
-- The theorems on monitors at concrete checks.
use statusnook.Prelude.{
  All, List, [], arith, false, nat_eq, none, refl, some, string_eq, true, ℕ, ◌==◌, ◌∷◌, ◌≡◌, ◌≤◌,
}
use statusnook.Monitors.Check.{
  Exchange, answered, attempt_loop, check, final_result, log_of, no_response,
}
use statusnook.Monitors.CheckLaws.{Says, check-Says, retries, succeeds}
use statusnook.Monitors.Notify.{
  Checked, fail_from, last_after, log_lost, notification, status_after, watch,
}
use statusnook.Monitors.NotifyLaws.{Alternates, HasCodesAt, Reports, believes, last_succeeds}
use statusnook.Monitors.WatchLaws.{watch-Alternates, watch-believes, watch-status_lost}

-- A failing answer, a timeout, and an answer.
abbrev recovering : List Exchange
recovering = answered 500 ∷ no_response true ∷ answered 200 ∷ []

check-Says_example : Says (succeeds recovering) (retries recovering) (check recovering)
check-Says_example = check-Says recovering (omega arith, (omega arith, tt))

abbrev quietly : List Exchange → Checked
quietly exchanges = record { exchanges = exchanges; fails = λ _. false }

-- A failure and then, after a check whose log is not written, the recovery.
abbrev outage : List Checked
outage =
    quietly (answered 503 ∷ [])
    ∷ record { exchanges = answered 200 ∷ []; fails = λ n. n == 4 }
    ∷ quietly (no_response false ∷ [])
    ∷ quietly recovering
    ∷ []

outage-codes : All HasCodesAt outage
outage-codes =
    ((omega arith, tt), ((omega arith, tt), (tt, ((omega arith, (omega arith, tt)), tt))))

unlogged_reports : (n : ℕ) → 5 ≤ n → (n == 4) ≡ false
unlogged_reports n h = ground arith

outage-Reports : All Reports outage
outage-Reports = ((λ _ _. refl), (unlogged_reports, ((λ _ _. refl), ((λ _ _. refl), tt))))

watch-Alternates_example : Alternates true (watch none outage)
watch-Alternates_example = watch-Alternates none outage outage-codes outage-Reports

watch-believes_example : believes true (watch none outage) ≡ last_succeeds true outage
watch-believes_example = watch-believes none outage outage-codes outage-Reports

outage_statuses : watch none outage ≡ "down" ∷ "up" ∷ []
unfolding watch status_after last_after log_lost fail_from notification check log_of final_result
    attempt_loop
outage_statuses = refl

-- The channels cannot be read after the first failure.
abbrev untold : Checked
untold = record { exchanges = answered 503 ∷ []; fails = λ n. n == 6 }

watch-status_lost_example : watch (some 200) (untold ∷ quietly (answered 503 ∷ []) ∷ []) ≡ []
unfolding log_lost fail_from
watch-status_lost_example =
    watch-status_lost (some 200) untold (quietly (answered 503 ∷ []) ∷ [])
      ((omega arith, tt), ((omega arith, tt), tt)) refl (refl, tt)
