-- ===== src/Retention/Sessions.antt =====
-- Pruning the session table is not seen by the session lookup.
use statusnook.Prelude.{
  Bool, List, Option, String, ap, arith, find, find-keep, none, not, refl, some, sym, true, ℕ, ◌-◌,
  ◌∙◌, ◌≡◌, ◌≤◌,
}
use statusnook.World.{Answer, err, no_rows, ok}
use statusnook.Auth.Tables.{AuthTables, Session, session_lifetime}
use statusnook.Auth.Queries.{SessionRow, is_valid, validate_session}
use statusnook.Retention.Prune.{is_old_session, prune}
use statusnook.Retention.PruneLaws.{is_recent, prune-keeps_recent}

abbrev pub row_of : Answer AuthTables SessionRow → Option SessionRow
row_of (ok row _) = some row
row_of (err _) = none

find-prune :
    {A : Type 0} (is_old p : A → Bool) (fails : ℕ → Bool) (fuel calls : ℕ) (rows : List A)
    → ((x : A) → p x ≡ true → not (is_old x) ≡ true)
    → find p (prune is_old fails fuel calls rows).rows ≡ find p rows
find-prune is_old p fails fuel calls rows h =
    sym (find-keep p (is_recent is_old) h (prune is_old fails fuel calls rows).rows)
    ∙ ap (find p) (prune-keeps_recent is_old fails fuel calls rows)
    ∙ find-keep p (is_recent is_old) h rows

-- Pruning the sessions older than their lifetime, whichever database calls fail: from then on, the
-- session lookup answers every token with the same user and CSRF token, or with none, as without it.
pub prune-validate_session :
    (fails : ℕ → Bool) (fuel now later : ℕ) (token : String) (t : AuthTables)
    → now ≤ later
    → row_of (
        validate_session token later (record t {
          sessions = (prune (is_old_session (now - session_lifetime)) fails fuel 0 t.sessions).rows;
        }))
      ≡ row_of (validate_session token later t)
unfolding validate_session
prune-validate_session fails fuel now later token t h =
    shown
      (record t {
        sessions = (prune (is_old_session (now - session_lifetime)) fails fuel 0 t.sessions).rows;
      })
      _
    ∙ ap (map_row) (
        find-prune (is_old_session (now - session_lifetime)) (is_valid t token later) fails fuel 0
          t.sessions (λ s valid. ground arith))
    ∙ sym (shown t _)
  where
    map_row : Option Session → Option SessionRow
    map_row none = none
    map_row (some s) = some (record { id = s.user_id; csrf_token = s.csrf_token })

    shown :
        (t' : AuthTables) (o : Option Session)
        → row_of (elim o [
          | none ↦ err no_rows
          | some s ↦ ok (record { id = s.user_id; csrf_token = s.csrf_token }) t'
        ])
          ≡ map_row o
    shown t' none = refl
    shown t' (some s) = refl
