-- ===== src/Monitors/Check.antt =====
-- One check of a monitor: the loop over its attempts in checkDueMonitors of monitors2.go. What each
-- attempt meets is an argument, one for each of monitor.Attempts.
use statusnook.Prelude.{
  Bool, List, Option, String, [], false, if◌then◌else◌, leb, ltb, nat_eq, none, not, some,
  string_eq, true, ℕ, ◌&&◌, ◌+◌, ◌==◌, ◌∷◌,
}

-- http.NewRequestWithContext fails; httpClient.Do fails, by a timeout or not (its error is always a
-- *url.Error); the body breaks off; or the answer has a status code.
pub data Exchange : Type 0 where
  no_request : Exchange
  no_response : (timed_out : Bool) → Exchange
  broken_body : Exchange
  answered : (code : ℕ) → Exchange

-- The variables of the loop: `result`, `statusCode`, whether `reqErr` is a timeout, and `attempt`.
pub record Progress : Type 0 where
  pub result : String
  pub status_code : Option ℕ
  pub req_err : Option Bool
  pub attempt : ℕ

abbrev pub beginning : Progress
beginning = record { result = ""; status_code = none; req_err = none; attempt = 0 }

unfoldable pub attempt_loop : List Exchange → Progress → Progress
attempt_loop [] p = p
attempt_loop (no_request ∷ rest) p = p
attempt_loop (no_response timed_out ∷ rest) p =
    attempt_loop rest
      (record p { status_code = none; req_err = some timed_out; attempt = p.attempt + 1 })
attempt_loop (broken_body ∷ rest) p = record p { status_code = none; req_err = none }
attempt_loop (answered code ∷ rest) p =
    let again = attempt_loop rest (record p {
      result = "error";
      status_code = some code;
      req_err = none;
      attempt = p.attempt + 1;
    }) in
    if leb 400 code
    then again
    else record p { result = "success"; status_code = some code; req_err = none }

-- What is written to monitor_log: a code of 0 stands for none.
pub record MonitorLog : Type 0 where
  pub response_code : ℕ
  pub has_error_message : Bool
  pub attempts : ℕ
  pub result : String

unfoldable pub final_result : Progress → String
final_result p = if p.result == "success" then p.result else elim p.req_err [
  | none ↦ p.result
  | some timed_out ↦ if timed_out then "timeout" else "error"
]

abbrev pub code_of : Option ℕ → ℕ
code_of none = 0
code_of (some code) = code

abbrev pub is_error : Option Bool → Bool
is_error none = false
is_error (some _) = true

unfoldable pub log_of : Progress → MonitorLog
log_of p = record {
  response_code = code_of p.status_code;
  has_error_message = not (p.result == "success") && is_error p.req_err;
  attempts = if final_result p == "success" then p.attempt + 1 else p.attempt;
  result = final_result p;
}

unfoldable pub check : List Exchange → MonitorLog
check exchanges = log_of (attempt_loop exchanges beginning)

-- lastHappy, of the response code of the last check.
abbrev pub is_happy : ℕ → Bool
is_happy code = not (code == 0) && ltb code 400

-- The status that is sent, if one is due: `last` is the response code of the previous check, or
-- none for the first one.
