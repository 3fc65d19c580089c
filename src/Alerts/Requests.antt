-- ===== src/Alerts/Requests.antt =====
-- The requests of router.go's /admin/alerts routes that change something, and an invariant through
-- the handler of each.
use statusnook.Prelude.{Option, String, arith, some, ℕ, ◌≡◌}
use statusnook.Text.{atoi, pos, ℤ}
use statusnook.World.{Answer, Env, Response, begin, commit, exec, pure, ◌>>◌}
use statusnook.World.Rules.{Keeps-begin, Keeps-refuse_if, Serves-keep, Serves-kept}
use statusnook.World.Hoare.{Gives, Serves, Serves-bind, Triple-exec}
use statusnook.Engine.{Engine}
use statusnook.Alerts.Tables.{AlertTables}
use statusnook.Alerts.Queries.{delete_alert_row, delete_message, set_ended_at, update_message}
use statusnook.Alerts.Severity.{refresh_severity}
use statusnook.Alerts.Handlers.{
  AlertForm, AlertHandler, delete_alert, delete_alert_message, post_add_alert_message,
  post_create_alert, post_edit_alert, post_edit_alert_message, post_resolve_alert,
  post_unresolve_alert,
}
use statusnook.Alerts.Kept.{
  Keeps-edit_alert, Keeps-parse_id, Keeps-parse_services, Keeps-refresh_severity, Serves-parse_id,
  StatementLaws, create_alert-allowed,
}

pub data AlertRequest : Type 0 where
  create : AlertForm → AlertRequest
  edit : (id : String) → AlertForm → AlertRequest
  remove : (id : String) → AlertRequest
  resolve : (id : String) → AlertRequest
  unresolve : (id : String) → AlertRequest
  add_message : (id message : String) → AlertRequest
  remove_message : (id message_id : String) → AlertRequest
  edit_message : (id message_id message : String) → AlertRequest

unfoldable pub handle : Engine → Env → AlertRequest → AlertHandler Response
handle eng env (create form) = post_create_alert eng env form
handle eng env (edit id form) = post_edit_alert eng env id form
handle eng env (remove id) = delete_alert env id
handle eng env (resolve id) = post_resolve_alert env id
handle eng env (unresolve id) = post_unresolve_alert env id
handle eng env (add_message id message) = post_add_alert_message eng env id message
handle eng env (remove_message id message_id) = delete_alert_message env id message_id
handle eng env (edit_message id message_id message) =
    post_edit_alert_message env id message_id message

-- The alert of the request's path is allowed; postCreateAlert has none.
abbrev pub OnPath : (ℤ → Type 0) → AlertRequest → Type 0
OnPath Allowed (create form) = Unit
OnPath Allowed (edit id form) = (n : ℤ) → atoi id ≡ some n → Allowed n
OnPath Allowed (remove id) = (n : ℤ) → atoi id ≡ some n → Allowed n
OnPath Allowed (resolve id) = (n : ℤ) → atoi id ≡ some n → Allowed n
OnPath Allowed (unresolve id) = (n : ℤ) → atoi id ≡ some n → Allowed n
OnPath Allowed (add_message id message) = (n : ℤ) → atoi id ≡ some n → Allowed n
OnPath Allowed (remove_message id message_id) = (n : ℤ) → atoi id ≡ some n → Allowed n
OnPath Allowed (edit_message id message_id message) = (n : ℤ) → atoi id ≡ some n → Allowed n

module _ {I : AlertTables → Type 0} {Allowed : ℤ → Type 0} (eng : Engine)
    (laws : StatementLaws eng I Allowed) (env : Env) {t : AlertTables} (i : I t) where
  abbrev Kept : AlertHandler Response → Type 0
  Kept h = Serves t I h (λ _. I)

  post_create_alert-Kept : (form : AlertForm) → Kept (post_create_alert eng env form)
  unfolding post_create_alert
  post_create_alert-Kept form = Serves-keep I _ _ (Keeps-refuse_if I _ _ (omega arith)) λ _.
      Serves-keep I _ _ (Keeps-refuse_if I _ _ (omega arith)) λ _.
        Serves-keep I _ _ (Keeps-parse_services form.services) λ services.
          Serves-keep I _ _ (Keeps-refuse_if I _ _ (omega arith)) λ _.
            Serves-keep I _ _ (Keeps-refuse_if I _ _ (omega arith)) λ _.
              Serves-keep I _ _ (Keeps-refuse_if I _ _ (omega arith)) λ _.
                Serves-keep I _ _ (Keeps-begin I env i) λ _.
                  Serves-bind _ _ (create_alert-allowed eng laws env _ services _ _) λ id.
                    Serves-bind _ _
                      (Triple-exec env {Q = λ _. I} _
                        (λ s k. laws.on_insert_message s (pos id) _ _ k.0 k.1))
                      λ m. Serves-keep I _ _ (Keeps-refresh_severity eng laws env) λ _.
                        Serves-keep I _ _ (Triple-exec env _ (λ s k. laws.on_queue s _ m k))
                          λ _. Serves-kept I env _

  post_edit_alert-Kept :
      (id : String) (form : AlertForm)
      → OnPath Allowed (edit id form)
      → Kept (post_edit_alert eng env id form)
  unfolding post_edit_alert
  post_edit_alert-Kept id form allowed = Serves-parse_id id _ allowed λ n a.
      Serves-keep I _ _ (Keeps-refuse_if I _ _ (omega arith)) λ _.
        Serves-keep I _ _ (Keeps-parse_services form.services) λ services.
          Serves-keep I _ _ (Keeps-refuse_if I _ _ (omega arith)) λ _.
            Serves-keep I _ _ (Keeps-refuse_if I _ _ (omega arith)) λ _.
              Serves-keep I _ _ (Keeps-refuse_if I _ _ (omega arith)) λ _.
                Serves-keep I _ _ (Keeps-begin I env i) λ _.
                  Serves-keep I _ _ (Keeps-edit_alert eng laws env n _ services _ _ a) λ _.
                    Serves-keep I _ _ (Keeps-refresh_severity eng laws env) λ _. Serves-kept I env _

  -- One statement that keeps the invariant, and the commit.
  one_statement :
      (statement : AlertTables → Answer AlertTables (Unit {0})) (r : Response)
      → ((s : AlertTables) → I s → Gives (λ _ s'. I s') (statement s))
      → Kept (begin env >> (exec env statement >> (commit env >> pure r)))
  one_statement statement r k =
      Serves-keep I _ _ (Keeps-begin I env i)
        λ _. Serves-keep I _ _ (Triple-exec env _ k) λ _. Serves-kept I env r

  set_ended-Kept :
      (n : ℤ) (ended : Option ℕ) (r : Response)
      → Allowed n
      → Kept (
          begin env
          >> (exec env (set_ended_at n ended) >> (refresh_severity env >> (commit env >> pure r))))
  set_ended-Kept n ended r a = Serves-keep I _ _ (Keeps-begin I env i) λ _.
      Serves-keep I _ _ (Triple-exec env _ (λ s k. laws.on_set_ended s n ended a k))
        λ _. Serves-keep I _ _ (Keeps-refresh_severity eng laws env) λ _. Serves-kept I env r

  post_add_alert_message-Kept :
      (id message : String)
      → OnPath Allowed (add_message id message)
      → Kept (post_add_alert_message eng env id message)
  unfolding post_add_alert_message
  post_add_alert_message-Kept id message allowed = Serves-parse_id id _ allowed λ n a.
      Serves-keep I _ _ (Keeps-begin I env i) λ _.
        Serves-keep I _ _
          (Triple-exec env _ (λ s k. laws.on_insert_message s n message env.now a k))
          λ m.
            Serves-keep I _ _ (Triple-exec env _ (λ s k. laws.on_queue s env.now m k))
              λ _. Serves-kept I env _

  pub handle-Kept :
      (request : AlertRequest) → OnPath Allowed request → Kept (handle eng env request)
  unfolding handle delete_alert post_resolve_alert post_unresolve_alert delete_alert_message
      post_edit_alert_message
  handle-Kept (create form) p = post_create_alert-Kept form
  handle-Kept (edit id form) p = post_edit_alert-Kept id form p
  handle-Kept (remove id) p =
      Serves-parse_id id _ p
        λ n a. one_statement (delete_alert_row n) _ (λ s k. laws.on_delete_alert s n a k)
  handle-Kept (resolve id) p = Serves-parse_id id _ p λ n a. set_ended-Kept n _ _ a
  handle-Kept (unresolve id) p = Serves-parse_id id _ p λ n a. set_ended-Kept n _ _ a
  handle-Kept (add_message id message) p = post_add_alert_message-Kept id message p
  handle-Kept (remove_message id message_id) p = Serves-parse_id id _ p λ n a.
      Serves-keep I _ _ (Keeps-parse_id I message_id)
        λ m. one_statement (delete_message n m) _ (λ s k. laws.on_delete_message s n m a k)
  handle-Kept (edit_message id message_id message) p = Serves-parse_id id _ p λ n a.
      Serves-keep I _ _ (Keeps-parse_id I message_id) λ m.
        Serves-keep I _ _ (Keeps-refuse_if I _ _ (omega arith)) λ _.
          one_statement (update_message n m message env.now) _
            (λ s k. laws.on_update_message s n m message env.now a k)
