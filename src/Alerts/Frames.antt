-- ===== src/Alerts/Frames.antt =====
-- A request to an alert leaves the other alerts alone.
use statusnook.Prelude.{
  Bool, Bool-cases, List, [], any, any-append, ap, arith, false, inl, inr, keep, keep-keep,
  keep-rewrite, keep-snoc, map, nat_eq, not, not-not, refl, rewrite, string_eq, true, ℕ, ◌&&◌, ◌==◌,
  ◌∙◌, ◌∷◌, ◌≡◌,
}
use statusnook.Text.{names_row, names_row-other, negsuc, pos, ℤ}
use statusnook.Engine.{Engine}
use statusnook.Alerts.Tables.{Alert, AlertMessage, AlertService, AlertTables}
use statusnook.Alerts.Queries.{
  add_alert_service, delete_alert_row, delete_alert_services, delete_message, drop_messages,
  has_alert, has_message, has_service, insert_alert, insert_message, insert_notifications,
  is_message, row_id, set_ended_at, update_alert, update_message, update_severity, with_content,
}
use statusnook.Alerts.Kept.{StatementLaws}
use statusnook.World.{Env, serve}
use statusnook.Alerts.Requests.{AlertRequest, OnPath, handle, handle-Kept}
use statusnook.World.Rules.{Serves-invariant}

module _ (other : ℕ) where
  abbrev pub is_row : Alert → Bool
  is_row a = a.id == other

  abbrev pub is_its_message : AlertMessage → Bool
  is_its_message m = m.alert_id == other

  abbrev pub is_its_link : AlertService → Bool
  is_its_link l = l.alert_id == other

  -- The row of the alert `other`, its messages and its links are there as in `t`.
  pub record Untouched (t s : AlertTables) : Type 0 where
    pub held : any is_row s.alerts ≡ true
    pub row : keep is_row s.alerts ≡ keep is_row t.alerts
    pub messages : keep is_its_message s.messages ≡ keep is_its_message t.messages
    pub links : keep is_its_link s.alert_services ≡ keep is_its_link t.alert_services

  abbrev pub IsOther : ℤ → Type 0
  IsOther id = names_row id other ≡ false

any-rewrite_same :
    {A : Type 0} (p q : A → Bool) (f : A → A)
    → ((x : A) → p (f x) ≡ p x)
    → (xs : List A) → any p (rewrite q f xs) ≡ any p xs
any-rewrite_same p q f same [] = refl
any-rewrite_same p q f same (x ∷ xs) = ground (arith, same x, any-rewrite_same p q f same xs)

any-keep_same :
    {A : Type 0} (p q : A → Bool)
    → ((x : A) → p x ≡ true → q x ≡ true)
    → (xs : List A) → any p (keep q xs) ≡ any p xs
any-keep_same p q same [] = refl
any-keep_same p q same (x ∷ xs) = ground (arith, same x, any-keep_same p q same xs)

fresh-other :
    (other new : ℕ) (alerts : List Alert)
    → any (λ (a : Alert). a.id == other) alerts ≡ true
    → any (λ i. i == new) (map (λ (a : Alert). a.id) alerts) ≡ false
    → (new == other) ≡ false
fresh-other other new [] h k = ground (arith, h)
fresh-other other new (a ∷ alerts) h k = ground (arith, h, k, fresh-other other new alerts)

-- A row of the alert `other` has no id that names another one.
names-apart :
    (other : ℕ) (id : ℤ) (a : ℕ)
    → names_row id other ≡ false
    → (a == other) ≡ true
    → not (names_row id a) ≡ true
names-apart other (pos n) a h k = ground (arith, h, k)
names-apart other (negsuc n) a h k = refl

left_holds : (a b : Bool) → (a && b) ≡ true → a ≡ true
left_holds true b h = refl
left_holds false b h = ground (arith, h)

row_id-other :
    (other : ℕ) (id : ℤ) (alerts : List Alert)
    → any (λ (a : Alert). names_row id a.id) alerts ≡ true
    → names_row id other ≡ false
    → (row_id id == other) ≡ false
row_id-other other (pos n) alerts h a = a
row_id-other other (negsuc n) [] h a = ground (arith, h)
row_id-other other (negsuc n) (x ∷ alerts) h a = row_id-other other (negsuc n) alerts h a

module _ (eng : Engine) (other : ℕ) (t : AlertTables) where
  StatementLaws-Untouched : StatementLaws eng (Untouched other t) (IsOther other)
  unfolding insert_alert add_alert_service insert_message insert_notifications update_alert
      delete_alert_services set_ended_at update_severity delete_alert_row delete_message
      update_message drop_messages
  StatementLaws-Untouched = record {
    on_insert_alert = λ s title kind severity now i.
        let fresh =
          fresh-other other (eng.fresh (map (λ (a : Alert). a.id) s.alerts)) s.alerts i.held
            (eng.fresh_unused (map (λ (a : Alert). a.id) s.alerts)) in
        (
          fresh,
          record {
            held = any-append (is_row other) s.alerts _ ∙ rw (i.held) refl;
            row = keep-snoc (is_row other) _ fresh s.alerts ∙ i.row;
            messages = i.messages;
            links = i.links;
          },
        );
    on_add_service = λ s id service a i.
        elim (Bool-cases (has_alert s id && has_service s service)) [
          | inl e ↦ rw e (record {
            held = i.held;
            row = i.row;
            messages = i.messages;
            links =
                keep-snoc (is_its_link other) _
                  (row_id-other other id s.alerts (left_holds _ _ e) a) s.alert_services
                ∙ i.links;
          })
          | inr e ↦ rw e tt
        ];
    on_insert_message = λ s id content now a i. elim (Bool-cases (has_alert s id)) [
      | inl e ↦ rw e (record {
        held = i.held;
        row = i.row;
        messages =
            keep-snoc (is_its_message other) _ (row_id-other other id s.alerts e a) s.messages
            ∙ i.messages;
        links = i.links;
      })
      | inr e ↦ rw e tt
    ];
    on_queue = λ s now message i. elim (Bool-cases (has_message s message)) [
      | inl e ↦ rw e (record { held = i.held; row = i.row; messages = i.messages; links = i.links })
      | inr e ↦ rw e tt
    ];
    on_update_alert = λ s id title kind severity a i. record {
      held = any-rewrite_same (is_row other) _ _ (λ x. refl) s.alerts ∙ i.held;
      row =
          keep-rewrite (is_row other) _ _
            (λ x e. (names_row-other id x.id other e a, names_row-other id x.id other e a)) s.alerts
          ∙ i.row;
      messages = i.messages;
      links = i.links;
    };
    on_delete_services = λ s id a i. record {
      held = i.held;
      row = i.row;
      messages = i.messages;
      links =
          keep-keep (is_its_link other) _ (λ l. names-apart other id l.alert_id a) s.alert_services
          ∙ i.links;
    };
    on_set_ended = λ s id ended a i. record {
      held = any-rewrite_same (is_row other) _ _ (λ x. refl) s.alerts ∙ i.held;
      row =
          keep-rewrite (is_row other) _ _
            (λ x e. (names_row-other id x.id other e a, names_row-other id x.id other e a)) s.alerts
          ∙ i.row;
      messages = i.messages;
      links = i.links;
    };
    on_severity = λ s severity i. record {
      held = i.held;
      row = i.row;
      messages = i.messages;
      links = i.links;
    };
    on_delete_alert = λ s id a i. record {
      held = any-keep_same (is_row other) _ (λ x. names-apart other id x.id a) s.alerts ∙ i.held;
      row = keep-keep (is_row other) _ (λ x. names-apart other id x.id a) s.alerts ∙ i.row;
      messages =
          keep-keep (is_its_message other) _ (λ m. names-apart other id m.alert_id a) s.messages
          ∙ i.messages;
      links =
          keep-keep (is_its_link other) _ (λ l. names-apart other id l.alert_id a) s.alert_services
          ∙ i.links;
    };
    on_delete_message = λ s id message a i. record {
      held = i.held;
      row = i.row;
      messages =
          keep-keep (is_its_message other) _
            (λ m e. ap not (
              ap (λ b. b && names_row message m.id)
                (not-not _ (names-apart other id m.alert_id a e))))
            s.messages
          ∙ i.messages;
      links = i.links;
    };
    on_update_message = λ s id message content now a i. record {
      held = i.held;
      row = i.row;
      messages =
          keep-rewrite (is_its_message other) (is_message id message) (with_content content now)
            (λ m e.
              let apart =
                names_row-other id m.alert_id other (left_holds _ (names_row message m.id) e) a in
              (apart, apart))
            s.messages
          ∙ i.messages;
      links = i.links;
    };
  }

-- A request that creates an alert, or whose path names another one, leaves an alert that is
-- there as it is, whatever the request and whatever database calls fail: its row, its messages
-- and its links to services are the same ones, in order.
pub handle-Untouched :
    (eng : Engine) (env : Env) (request : AlertRequest) (other : ℕ) (t : AlertTables)
    → any (is_row other) t.alerts ≡ true
    → OnPath (IsOther other) request
    → Untouched other t (serve (handle eng env request) t tt).tables
handle-Untouched eng env request other t held on_path =
    let before : Untouched other t t = record {
      held = held;
      row = refl;
      messages = refl;
      links = refl;
    } in
    Serves-invariant (Untouched other t) (handle eng env request) tt before
      (handle-Kept eng (StatementLaws-Untouched eng other t) env before request on_path)
