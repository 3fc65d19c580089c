-- ===== src/Monitors/CheckLaws.antt =====
-- What a check records.
use statusnook.Prelude.{
  Bool, Bool-cases, List, Option, [], arith, false, if◌then◌else◌, inl, inr, leb, nat_eq, none,
  refl, some, string_eq, true, ℕ, ◌+◌, ◌==◌, ◌∙◌, ◌∷◌, ◌≡◌, ◌≤◌,
}
use statusnook.Monitors.Check.{
  Exchange, MonitorLog, Progress, answered, attempt_loop, beginning, broken_body, check, code_of,
  final_result, is_happy, log_of, no_request, no_response,
}

-- The attempts that are followed by another one.
abbrev pub is_retried : Exchange → Bool
is_retried no_request = false
is_retried (no_response _) = true
is_retried broken_body = false
is_retried (answered code) = leb 400 code

-- How many attempts are retried before the first that is not.
unfoldable pub retries : List Exchange → ℕ
retries [] = 0
retries (e ∷ rest) = if is_retried e then 1 + retries rest else 0

-- Whether the first attempt that is not retried has an answer.
unfoldable pub succeeds : List Exchange → Bool
succeeds [] = false
succeeds (no_request ∷ rest) = false
succeeds (no_response _ ∷ rest) = succeeds rest
succeeds (broken_body ∷ rest) = false
succeeds (answered code ∷ rest) = if leb 400 code then succeeds rest else true

-- No status code is 0, as HTTP has it.
abbrev pub HasCodes : List Exchange → Type 0
HasCodes [] = Unit
HasCodes (answered code ∷ rest) = (1 ≤ code) × HasCodes rest
HasCodes (_ ∷ rest) = HasCodes rest

-- No success so far: neither the result nor the code says so.
abbrev pub IsUnfinished : Progress → Type 0
IsUnfinished p = ((p.result == "success") ≡ false) × (is_happy (code_of p.status_code) ≡ false)

-- What a log says of a check that took `n` attempts.
pub record Says (success : Bool) (n : ℕ) (log : MonitorLog) : Type 0 where
  pub counted : log.attempts ≡ n + (if success then 1 else 0)
  pub succeeded : (log.result == "success") ≡ success
  pub happy : is_happy log.response_code ≡ success

final_result-unfinished :
    (p : Progress) → (p.result == "success") ≡ false → (final_result p == "success") ≡ false
unfolding final_result
final_result-unfinished p h = rw h (go p.req_err)
  where
    go :
        (e : Option Bool)
        → (elim e [ none ↦ p.result | some timed_out ↦ if timed_out then "timeout" else "error" ]
            == "success")
          ≡ false
    go none = h
    go (some true) = refl
    go (some false) = refl

log_of-unfinished : (p : Progress) → IsUnfinished p → Says false p.attempt (log_of p)
unfolding log_of
log_of-unfinished p (result, code) =
    let failed = final_result-unfinished p result in
    record { counted = rw failed (omega arith); succeeded = failed; happy = code }

log_of-finished :
    (p : Progress)
    → p.result ≡ "success"
    → is_happy (code_of p.status_code) ≡ true
    → Says true (p.attempt + 0) (log_of p)
unfolding log_of final_result
log_of-finished p e h = record { counted = rw e (omega arith); succeeded = rw e refl; happy = h }

renumber :
    {success : Bool} {n n' : ℕ} {log : MonitorLog}
    → n ≡ n'
    → Says success n log
    → Says success n' log
renumber e says = record {
  counted = says.counted ∙ rw e refl;
  succeeded = says.succeeded;
  happy = says.happy;
}

code-unhappy : (code : ℕ) → leb 400 code ≡ true → is_happy code ≡ false
code-unhappy code h = ground arith

code-happy : (code : ℕ) → 1 ≤ code → leb 400 code ≡ false → is_happy code ≡ true
code-happy code real h = ground arith

attempt_loop-Says :
    (exchanges : List Exchange) (p : Progress)
    → HasCodes exchanges
    → IsUnfinished p
    → Says (succeeds exchanges) (p.attempt + retries exchanges) (log_of (attempt_loop exchanges p))
unfolding attempt_loop retries succeeds
attempt_loop-Says [] p codes h = renumber (omega arith) (log_of-unfinished p h)
attempt_loop-Says (no_request ∷ rest) p codes h = renumber (omega arith) (log_of-unfinished p h)
attempt_loop-Says (broken_body ∷ rest) p codes h =
    renumber (omega arith) (log_of-unfinished _ (h.0, refl))
attempt_loop-Says (no_response t ∷ rest) p codes (result, code) = renumber (omega arith) (
    attempt_loop-Says rest
      (record p { status_code = none; req_err = some t; attempt = p.attempt + 1 }) codes
      (result, refl))
attempt_loop-Says (answered code ∷ rest) p (real, codes) h = elim (Bool-cases (leb 400 code)) [
  | inl e ↦ rw e (
      renumber (omega arith) (
        attempt_loop-Says rest
          (record p {
            result = "error";
            status_code = some code;
            req_err = none;
            attempt = p.attempt + 1;
          })
          codes (refl, code-unhappy code e)))
  | inr e ↦ rw e (
      log_of-finished (record p { result = "success"; status_code = some code; req_err = none })
        refl (code-happy code real e))
]

-- What a check records, where no status code is 0: it is a success exactly if the first attempt
-- that neither fails nor is answered by 400 or more is answered; the code kept is between 1 and 399
-- exactly then; and the attempts recorded are those that were retried, with the successful one.
pub check-Says :
    (exchanges : List Exchange)
    → HasCodes exchanges
    → Says (succeeds exchanges) (retries exchanges) (check exchanges)
unfolding check
check-Says exchanges codes =
    renumber (omega arith) (attempt_loop-Says exchanges beginning codes (refl, refl))
