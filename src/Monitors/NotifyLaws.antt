-- ===== src/Monitors/NotifyLaws.antt =====
-- The status and the code that one check leaves, with and without failing database calls.
use statusnook.Prelude.{
  Bool, Bool-cases, List, Option, String, [], ap, arith, false, if◌then◌else◌, inl, inr, nat_eq,
  none, not, refl, some, string_eq, suc, true, zero, ℕ, ◌+◌, ◌==◌, ◌||◌, ◌∙◌, ◌∷◌, ◌≡◌, ◌≤◌,
}
use statusnook.Monitors.Check.{check, is_happy}
use statusnook.Monitors.CheckLaws.{HasCodes, check-Says, succeeds}
use statusnook.Monitors.Notify.{
  Checked, fail_from, last_after, log_lost, notification, status_after,
}

-- Before the first check the endpoint counts as up.
abbrev pub was_up : Option ℕ → Bool
was_up none = true
was_up (some code) = is_happy code

-- The statuses are "down" and "up" by turns; the first is "down" if the endpoint is up.
abbrev pub Alternates : Bool → List String → Type 0
Alternates up [] = Unit
Alternates up (status ∷ statuses) =
    (status ≡ (if up then "down" else "up")) × Alternates (not up) statuses

-- What someone believes who reads the statuses.
unfoldable pub believes : Bool → List String → Bool
believes up [] = up
believes up (status ∷ statuses) = believes (status == "up") statuses

-- Whether the last check that was logged was a success.
unfoldable pub last_succeeds : Bool → List Checked → Bool
last_succeeds up [] = up
last_succeeds up (c ∷ checks) =
    last_succeeds (if log_lost c then up else succeeds c.exchanges) checks

abbrev pub HasCodesAt : Checked → Type 0
HasCodesAt c = HasCodes c.exchanges

-- Once the log of the check is committed, no database call fails.
abbrev pub Reports : Checked → Type 0
Reports c = (n : ℕ) → 5 ≤ n → c.fails n ≡ false

pub notification_lem :
    (last : Option ℕ) (result : String) (success : Bool)
    → (result == "success") ≡ success
    → notification last result ≡ (
        if was_up last
        then (if success then none else some "down")
        else (if success then some "up" else none))
unfolding notification
notification_lem none result true e = ground arith
notification_lem none result false e = ground arith
notification_lem (some code) result true e = elim (Bool-cases (is_happy code)) [
  | inl h ↦ rw (h, e, notification) refl
  | inr h ↦ rw (h, e, notification) refl
]
notification_lem (some code) result false e = elim (Bool-cases (is_happy code)) [
  | inl h ↦ rw (h, e, notification) refl
  | inr h ↦ rw (h, e, notification) refl
]

-- The statuses with those of the checks that follow.
abbrev pub sent : Option String → List String → List String
sent due rest = elim due [ none ↦ rest | some status ↦ status ∷ rest ]

abbrev pub due : Bool → Bool → Option String
due up success =
    if up then (if success then none else some "down") else (if success then some "up" else none)

pub sent-Alternates :
    (up success : Bool) (rest : List String)
    → Alternates success rest
    → Alternates up (sent (due up success) rest)
sent-Alternates true true rest h = h
sent-Alternates true false rest h = (refl, h)
sent-Alternates false true rest h = (refl, h)
sent-Alternates false false rest h = h

pub sent-believes :
    (up success : Bool) (rest : List String)
    → believes up (sent (due up success) rest) ≡ believes success rest
unfolding believes
sent-believes true true rest = refl
sent-believes true false rest = refl
sent-believes false true rest = refl
sent-believes false false rest = refl

-- A check whose log is written: the code that is kept says whether it was a success.
pub last_after-logged :
    (last : Option ℕ) (c : Checked)
    → HasCodesAt c
    → log_lost c ≡ false
    → was_up (last_after last c) ≡ succeeds c.exchanges
unfolding last_after
last_after-logged last c real logged =
    ap (λ b. was_up (if b then last else some (check c.exchanges).response_code)) logged
    ∙ (check-Says c.exchanges real).happy

fail_from-quiet :
    (first count : ℕ) (c : Checked) → Reports c → 5 ≤ first → fail_from first count c.fails ≡ false
unfolding fail_from
fail_from-quiet first zero c reports h = refl
fail_from-quiet first (suc count) c reports h =
    rw (reports first h) (fail_from-quiet (first + 1) count c reports (omega arith))

pub status_after-logged :
    (last : Option ℕ) (c : Checked)
    → HasCodesAt c
    → Reports c
    → log_lost c ≡ false
    → status_after last c ≡ due (was_up last) (succeeds c.exchanges)
unfolding status_after
status_after-logged last c real reports logged =
    go (fail_from 5 3 c.fails) (fail_from 8 3 c.fails) (fail_from-quiet 5 3 c reports (omega arith))
      (fail_from-quiet 8 3 c reports (omega arith))
  where
    delivered : (o : Option String) → (elim o [ none ↦ none | some status ↦ some status ]) ≡ o
    delivered none = refl
    delivered (some status) = refl

    go :
        (channels addresses : Bool)
        → channels ≡ false
        → addresses ≡ false
        → (if log_lost c || channels
            then none
            else elim (notification last (check c.exchanges).result) [
              | none ↦ none
              | some status ↦ if addresses then none else some status
            ])
          ≡ due (was_up last) (succeeds c.exchanges)
    go true addresses e f = ground (arith, e)
    go false true e f = ground (arith, f)
    go false false e f = rw logged (
        delivered (notification last (check c.exchanges).result)
        ∙ notification_lem last _ _ (check-Says c.exchanges real).succeeded)

pub last_after-lost : (last : Option ℕ) (c : Checked) → log_lost c ≡ true → last_after last c ≡ last
unfolding last_after
last_after-lost last c lost =
    ap (λ b. if b then last else some (check c.exchanges).response_code) lost

pub status_after-lost :
    (last : Option ℕ) (c : Checked) → log_lost c ≡ true → status_after last c ≡ none
unfolding status_after
status_after-lost last c lost = go (log_lost c) lost
  where
    go :
        (b : Bool)
        → b ≡ true
        → (if b || fail_from 5 3 c.fails
            then none
            else elim (notification last (check c.exchanges).result) [
              | none ↦ none
              | some status ↦ if fail_from 8 3 c.fails then none else some status
            ])
          ≡ none
    go true e = refl
    go false e = ground (arith, e)
