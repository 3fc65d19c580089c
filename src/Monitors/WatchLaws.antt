-- ===== src/Monitors/WatchLaws.antt =====
-- What the subscribers of a monitor are told over any run of checks.
use statusnook.Prelude.{
  All, Bool, Bool-cases, List, Option, String, [], ap, arith, false, if◌then◌else◌, inl, inr, none,
  not, refl, some, sym, true, ℕ, ◌&&◌, ◌||◌, ◌∙◌, ◌∷◌, ◌≡◌, ◌⊎◌,
}
use mathlib.Core.Path.{subst}
use statusnook.Monitors.Check.{check}
use statusnook.Monitors.CheckLaws.{check-Says, succeeds}
use statusnook.Monitors.Notify.{
  Checked, fail_from, last_after, log_lost, notification, status_after, watch,
}
use statusnook.Monitors.NotifyLaws.{
  Alternates, HasCodesAt, Reports, believes, due, last_after-logged, last_after-lost, last_succeeds,
  notification_lem, sent, sent-Alternates, sent-believes, status_after-logged, status_after-lost,
  was_up,
}

watch-cons :
    (last : Option ℕ) (c : Checked) (checks : List Checked)
    → watch last (c ∷ checks) ≡ sent (status_after last c) (watch (last_after last c) checks)
unfolding watch
watch-cons last c checks = refl

-- Where no status code is 0 and no database call fails after the log of a check is committed: the
-- statuses sent to a monitor's channels are "down" and "up" by turns. The first is "down" if the last
-- check before was a success or there was none, and "up" otherwise.
pub watch-Alternates :
    (last : Option ℕ) (checks : List Checked)
    → All HasCodesAt checks
    → All Reports checks
    → Alternates (was_up last) (watch last checks)
unfolding watch
watch-Alternates last [] codes reports = tt
watch-Alternates last (c ∷ checks) (real, codes) (reports, quiet) =
    subst (Alternates (was_up last)) (sym (watch-cons last c checks)) (
      step (watch (last_after last c) checks)
        (watch-Alternates (last_after last c) checks codes quiet) (Bool-cases (log_lost c)))
  where
    step :
        (rest : List String)
        → Alternates (was_up (last_after last c)) rest
        → (log_lost c ≡ true) ⊎ (log_lost c ≡ false)
        → Alternates (was_up last) (sent (status_after last c) rest)
    step rest h (inl lost) =
        subst (λ d. Alternates (was_up last) (sent d rest)) (sym (status_after-lost last c lost))
          (subst (λ l. Alternates (was_up l) rest) (last_after-lost last c lost) h)
    step rest h (inr logged) =
        subst (λ d. Alternates (was_up last) (sent d rest))
          (sym (status_after-logged last c real reports logged))
          (sent-Alternates (was_up last) (succeeds c.exchanges) rest
            (subst (λ u. Alternates u rest) (last_after-logged last c real logged) h))

-- Where no status code is 0 and no database call fails after the log of a check is committed: after
-- any checks, the last status sent says whether the last check that was logged was a success; before
-- the first status the endpoint counts as it was before the checks.
pub watch-believes :
    (last : Option ℕ) (checks : List Checked)
    → All HasCodesAt checks
    → All Reports checks
    → believes (was_up last) (watch last checks) ≡ last_succeeds (was_up last) checks
unfolding watch believes last_succeeds
watch-believes last [] codes reports = refl
watch-believes last (c ∷ checks) (real, codes) (reports, quiet) =
    ap (believes (was_up last)) (watch-cons last c checks)
    ∙ step (watch (last_after last c) checks)
        (watch-believes (last_after last c) checks codes quiet) (Bool-cases (log_lost c))
  where
    step :
        (rest : List String)
        → believes (was_up (last_after last c)) rest
          ≡ last_succeeds (was_up (last_after last c)) checks
        → (log_lost c ≡ true) ⊎ (log_lost c ≡ false)
        → believes (was_up last) (sent (status_after last c) rest)
          ≡ last_succeeds (if log_lost c then was_up last else succeeds c.exchanges) checks
    step rest h (inl lost) =
        ap (λ d. believes (was_up last) (sent d rest)) (status_after-lost last c lost)
        ∙ subst (λ l. believes (was_up l) rest ≡ last_succeeds (was_up l) checks)
            (last_after-lost last c lost) h
        ∙ ap (λ b. last_succeeds (if b then was_up last else succeeds c.exchanges) checks)
            (sym lost)
    step rest h (inr logged) =
        ap (λ d. believes (was_up last) (sent d rest))
          (status_after-logged last c real reports logged)
        ∙ sent-believes (was_up last) (succeeds c.exchanges) rest
        ∙ subst (λ u. believes u rest ≡ last_succeeds u checks)
            (last_after-logged last c real logged) h
        ∙ ap (λ b. last_succeeds (if b then was_up last else succeeds c.exchanges) checks)
            (sym logged)

-- A database call after the commit of the check's log fails.
abbrev pub status_lost : Checked → Bool
status_lost c = not (log_lost c) && (fail_from 5 3 c.fails || fail_from 8 3 c.fails)

status_after-status_lost :
    (last : Option ℕ) (c : Checked) → status_lost c ≡ true → status_after last c ≡ none
unfolding status_after
status_after-status_lost last c lost =
    go (log_lost c) (fail_from 5 3 c.fails) (fail_from 8 3 c.fails)
      (notification last (check c.exchanges).result) lost
  where
    go :
        (log channels addresses : Bool) (o : Option String)
        → (not log && (channels || addresses)) ≡ true
        → (if log || channels
            then none
            else elim o [ none ↦ none | some status ↦ if addresses then none else some status ])
          ≡ none
    go true channels addresses o h = refl
    go false true addresses o h = refl
    go false false true none h = refl
    go false false true (some status) h = refl
    go false false false o h = ground (arith, h)

status_after-steady :
    (last : Option ℕ) (c : Checked)
    → HasCodesAt c
    → succeeds c.exchanges ≡ was_up last
    → status_after last c ≡ none
unfolding status_after
status_after-steady last c real steady =
    go (log_lost c) (fail_from 5 3 c.fails) (fail_from 8 3 c.fails)
      (notification last (check c.exchanges).result)
      (notification_lem last _ _ (check-Says c.exchanges real).succeeded
        ∙ ap (due (was_up last)) steady
        ∙ none_due (was_up last))
  where
    none_due : (up : Bool) → due up up ≡ none
    none_due true = refl
    none_due false = refl

    go :
        (log channels addresses : Bool) (o : Option String)
        → o ≡ none
        → (if log || channels
            then none
            else elim o [ none ↦ none | some status ↦ if addresses then none else some status ])
          ≡ none
    go true channels addresses o h = refl
    go false true addresses o h = refl
    go false false addresses none h = refl
    go false false true (some status) h = refl
    go false false false (some status) h = h

last_after-steady :
    (last : Option ℕ) (c : Checked)
    → HasCodesAt c
    → succeeds c.exchanges ≡ was_up last
    → was_up (last_after last c) ≡ was_up last
last_after-steady last c real steady = elim (Bool-cases (log_lost c)) [
  | inl lost ↦ ap was_up (last_after-lost last c lost)
  | inr logged ↦ last_after-logged last c real logged ∙ steady
]

-- Checks that all end as the last one: no status is sent.
watch-steady :
    (last : Option ℕ) (up : Bool) (checks : List Checked)
    → was_up last ≡ up
    → All HasCodesAt checks
    → All (λ c. succeeds c.exchanges ≡ up) checks
    → watch last checks ≡ []
unfolding watch
watch-steady last up [] e codes alike = refl
watch-steady last up (c ∷ checks) e (real, codes) (steady, alike) =
    watch-cons last c checks
    ∙ ap (λ d. sent d (watch (last_after last c) checks))
        (status_after-steady last c real (steady ∙ sym e))
    ∙ watch-steady (last_after last c) up checks
        (last_after-steady last c real (steady ∙ sym e) ∙ e) codes alike

-- Where no status code is 0: when a database call fails after the log of a check is committed,
-- nothing is sent for that check, and nothing for the checks after it while they end as it
-- did, whatever fails in them; so an outage that begins so is never announced.
pub watch-status_lost :
    (last : Option ℕ) (c : Checked) (checks : List Checked)
    → All HasCodesAt (c ∷ checks)
    → status_lost c ≡ true
    → All (λ d. succeeds d.exchanges ≡ succeeds c.exchanges) checks
    → watch last (c ∷ checks) ≡ []
watch-status_lost last c checks (real, codes) lost alike =
    watch-cons last c checks
    ∙ ap (λ d. sent d (watch (last_after last c) checks)) (status_after-status_lost last c lost)
    ∙ watch-steady (last_after last c) (succeeds c.exchanges) checks
        (last_after-logged last c real (ground (arith, lost))) codes alike
