-- ===== src/Notifications/Unsubscribe.antt =====
-- The links of an email to unsubscribe and to resubscribe.
use statusnook.Prelude.{
  Bool, List, String, [], all, any, ap, arith, false, if◌then◌else◌, nat_eq, not, refl, rewrite,
  string_eq, sym, true, ◌&&◌, ◌==◌, ◌||◌, ◌∙◌, ◌∷◌, ◌≡◌,
}
use statusnook.World.{Env, Response, serve}
use statusnook.World.Steps.{
  NoFaults, begin-bind_ok, commit-bind_ok, exec-bind_ok, pure-run, refuse_if-bind_false, served,
}
use statusnook.Alerts.Tables.{AlertSubscription}
use statusnook.Notifications.Tables.{NotificationTables}
use statusnook.Notifications.Subscribe.{
  has_meta, post_resubscribe, post_unsubscribe, set_active, set_active_by_meta, with_subscriptions,
}
use statusnook.Notifications.SubscribeLaws.{subscriptions_of}

switched : String → Bool → NotificationTables → NotificationTables
switched token active t =
    with_subscriptions
      (rewrite (has_meta token) (λ s. record s { active = active }) t.alerts.subscriptions) t

set_active-run :
    (env : Env) (active : Bool) (token : String) (page : Response) (t : NotificationTables)
    → NoFaults env
    → (token == "") ≡ false
    → (serve (set_active env active token page) t tt).tables ≡ switched token active t
unfolding set_active set_active_by_meta switched
set_active-run env active token page t quiet given =
    ap (λ r. (served r).tables)
      (refuse_if-bind_false _ _ _ _ given
        ∙ begin-bind_ok env _ _ (quiet _)
        ∙ exec-bind_ok env _ _ _ _ _ (quiet _) refl
        ∙ commit-bind_ok env _ _ (quiet _)
        ∙ pure-run _ _)

-- The subscription of the token, while it is active.
abbrev pub receives : String → AlertSubscription → Bool
receives token s = has_meta token s && s.active

none-receives :
    (token : String) (subs : List AlertSubscription)
    → any (receives token) (rewrite (has_meta token) (λ s. record s { active = false }) subs)
      ≡ false
none-receives token [] = refl
none-receives token (s ∷ subs) = go (has_meta token s) refl (none-receives token subs)
  where
    go :
        (b : Bool)
        → has_meta token s ≡ b
        → any (receives token) (rewrite (has_meta token) (λ s. record s { active = false }) subs)
          ≡ false
        → any (receives token) (
            (if b then record s { active = false } else s)
            ∷ rewrite (has_meta token) (λ s. record s { active = false }) subs)
          ≡ false
    go true e h = ground (arith, h)
    go false e h = ground (arith, e, h)

-- No subscription of the token is off.
abbrev pub all_on : String → List AlertSubscription → Bool
all_on token subs = all (λ s. not (has_meta token s) || s.active) subs

off_and_on :
    (token : String) (subs : List AlertSubscription)
    → all_on token subs ≡ true
    → rewrite
        (has_meta token)
        (λ s. record s { active = true })
        (rewrite (has_meta token) (λ s. record s { active = false }) subs)
      ≡ subs
off_and_on token [] h = refl
off_and_on token (s ∷ subs) h =
    go (has_meta token s) refl (off_and_on token subs (ground (arith, h)))
  where
    Off : List AlertSubscription
    Off = rewrite (has_meta token) (λ x. record x { active = false }) subs

    head_on :
        (b : Bool)
        → b ≡ true
        → s.active ≡ true
        → (if b then record s { active = true } else record s { active = false }) ≡ s
    head_on true e a = ap (λ x. record s { active = x }) (sym a)
    head_on false e a = ground (arith, e)

    head_off : (b : Bool) → b ≡ false → (if b then record s { active = true } else s) ≡ s
    head_off true e = ground (arith, e)
    head_off false e = refl

    go :
        (b : Bool)
        → has_meta token s ≡ b
        → rewrite (has_meta token) (λ x. record x { active = true }) Off ≡ subs
        → rewrite
            (has_meta token)
            (λ x. record x { active = true })
            ((if b then record s { active = false } else s) ∷ Off)
          ≡ s ∷ subs
    go true e k =
        ap (λ x. x ∷ rewrite (has_meta token) (λ x. record x { active = true }) Off)
          (head_on (has_meta token s) e (ground (arith, e, h)))
        ∙ ap (λ l. s ∷ l) k
    go false e k =
        ap (λ x. x ∷ rewrite (has_meta token) (λ x. record x { active = true }) Off)
          (head_off (has_meta token s) e)
        ∙ ap (λ l. s ∷ l) k

-- The tables after a request to unsubscribe, and after one more to resubscribe.
abbrev pub after_unsubscribe : Env → String → Response → NotificationTables → NotificationTables
after_unsubscribe env token page t = (serve (post_unsubscribe env token "" page) t tt).tables

abbrev pub after_resubscribe : Env → String → Response → NotificationTables → NotificationTables
after_resubscribe env token page t = (serve (post_resubscribe env token page) t tt).tables

-- When no database call fails, the token is not empty and no subscription of it is off, the
-- link to unsubscribe leaves no active subscription of the token, and resubscribing after it
-- restores the tables.
pub post_unsubscribe-post_resubscribe :
    (env : Env) (page : Response) (token : String) (t : NotificationTables)
    → NoFaults env
    → (token == "") ≡ false
    → all_on token (subscriptions_of t) ≡ true
    → (any (receives token) (subscriptions_of (after_unsubscribe env token page t)) ≡ false)
      × (after_resubscribe env token page (after_unsubscribe env token page t) ≡ t)
unfolding post_unsubscribe post_resubscribe switched
post_unsubscribe-post_resubscribe env page token t quiet given on = (
  ap (λ s. any (receives token) (subscriptions_of s)) off
      ∙ none-receives token (subscriptions_of t),
  set_active-run env true token page _ quiet given
      ∙ ap (switched token true) off
      ∙ ap (λ l. with_subscriptions l t) (off_and_on token (subscriptions_of t) on),
)
  where
    chosen : (if token == "" then "" else token) ≡ token
    chosen = rw (given) refl

    off : after_unsubscribe env token page t ≡ switched token false t
    off =
        ap (λ x. (serve (set_active env false x page) t tt).tables) chosen
        ∙ set_active-run env false token page t quiet given
