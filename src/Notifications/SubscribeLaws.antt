-- ===== src/Notifications/SubscribeLaws.antt =====
-- The statements of a confirmation: the pending subscription and the subscription of its address.
use statusnook.Prelude.{
  Bool, Bool-cases, List, Option, String, [], any, ap, arith, false, find, find-rewrite-none,
  find-snoc, found, found-find-rewrite, if◌then◌else◌, inl, inr, keep, keep-rewrite, keep-snoc,
  nat_eq, none, not, refl, rewrite, some, string_eq, true, ℕ, ◌++◌, ◌==◌, ◌∙◌, ◌∷◌, ◌≡◌,
}
use statusnook.World.{
  Response, Result, bad, constraint, err, fault, good, internal_error, no_rows, ok, or_error,
  redirect, status_only,
}
use statusnook.World.Hoare.{Gives, Triple, Triple-pure}
use statusnook.Engine.{Engine}
use statusnook.Alerts.Tables.{AlertSubscription, PendingSubscription}
use statusnook.Notifications.Tables.{NotificationTables}
use statusnook.Notifications.Subscribe.{
  confirm_pending, email_of, get_pending_email, get_subscription_by_email, insert_subscription,
  is_open, is_subscription, new_subscription, subscription_active,
}
use statusnook.World.Attempts.{Answers, Triple-reply}

abbrev pub subscriptions_of : NotificationTables → List AlertSubscription
subscriptions_of t = t.alerts.subscriptions

abbrev pub is_active : AlertSubscription → Bool
is_active s = s.active

-- Whether the address has an active subscription.
abbrev pub has_active : Engine → String → NotificationTables → Bool
has_active eng email t =
    found is_active (find (is_subscription eng "email" email) (subscriptions_of t))

-- What the confirmation of `token` leaves, at the time `now`.
pub record Subscribed (eng : Engine) (token : String) (now : ℕ) (t s : NotificationTables)
    : Type 0 where
  pub email : String
  pub was_pending : get_pending_email token now t ≡ ok email t
  pub was_inactive : has_active eng email t ≡ false
  pub active : has_active eng email s ≡ true
  pub others :
      keep (λ x. not (is_subscription eng "email" email x)) (subscriptions_of s)
      ≡ keep (λ x. not (is_subscription eng "email" email x)) (subscriptions_of t)
  pub spent : get_pending_email token now s ≡ err no_rows

-- The reply tells whether something was stored.
pub data Confirmed (eng : Engine) (token : String) (now : ℕ) (t : NotificationTables)
    : Response → NotificationTables → Type 0 where
  already :
      {email : String}
      → get_pending_email token now t ≡ ok email t
      → has_active eng email t ≡ true
      → Confirmed eng token now t (status_only 200) t
  stored :
      {s : NotificationTables}
      → Subscribed eng token now t s
      → Confirmed eng token now t (redirect "/?email_subscribed=1") s

spent-confirm_pending :
    (now : ℕ) (token : String) (pending : List PendingSubscription)
    → find (is_open token now) (
        rewrite
          (λ (p : PendingSubscription). p.token == token)
          (λ p. record p { confirmed_at = some now })
          pending)
      ≡ none
spent-confirm_pending now token pending =
    find-rewrite-none (is_open token now) (λ p. p.token == token)
      (λ p. record p { confirmed_at = some now }) (λ p e. ground (arith, e)) (λ p. ground arith)
      pending

-- The tables between the two statements of the write.
pub record Confirming (token : String) (now : ℕ) (t s : NotificationTables) : Type 0 where
  same : subscriptions_of s ≡ subscriptions_of t
  none_open : find (is_open token now) s.alerts.pending ≡ none

pub confirm_pending-Confirming :
    (token : String) (now : ℕ) (t : NotificationTables)
    → Gives (λ _ s. Confirming token now t s) (confirm_pending now token t)
unfolding confirm_pending
confirm_pending-Confirming token now t = record {
  same = refl;
  none_open = spent-confirm_pending now token t.alerts.pending;
}

module _ (eng : Engine) (email : String) where
  inserted : String → List AlertSubscription → List AlertSubscription
  inserted meta subs =
      if any (is_subscription eng "email" email) subs
      then rewrite (is_subscription eng "email" email) (λ s. record s { active = true }) subs
      else subs ++ new_subscription eng "email" email meta subs ∷ []

  is_new :
      (meta : String) (subs : List AlertSubscription)
      → is_subscription eng "email" email (new_subscription eng "email" email meta subs) ≡ true
  is_new meta subs = ground (arith, eng.nocase_refl email)

  active-inserted :
      (meta : String) (subs : List AlertSubscription)
      → found is_active (find (is_subscription eng "email" email) (inserted meta subs)) ≡ true
  unfolding inserted
  active-inserted meta subs = elim (Bool-cases (any (is_subscription eng "email" email) subs)) [
    | inl e ↦ rw (e) (
        found-find-rewrite (is_subscription eng "email" email) is_active
          (λ s. record s { active = true }) (λ s. refl) (λ s. refl) subs e)
    | inr e ↦
        rw
          (
            e,
            find-snoc (is_subscription eng "email" email)
                (new_subscription eng "email" email meta subs) (is_new meta subs) subs e,
          )
          refl
  ]

  others-inserted :
      (meta : String) (subs : List AlertSubscription)
      → keep (λ x. not (is_subscription eng "email" email x)) (inserted meta subs)
        ≡ keep (λ x. not (is_subscription eng "email" email x)) subs
  unfolding inserted
  others-inserted meta subs = elim (Bool-cases (any (is_subscription eng "email" email) subs)) [
    | inl e ↦ rw (e) (
        keep-rewrite (λ x. not (is_subscription eng "email" email x))
          (is_subscription eng "email" email) (λ s. record s { active = true })
          (λ x h. (ap not h, ap not h)) subs)
    | inr e ↦ rw (e) (
        keep-snoc (λ x. not (is_subscription eng "email" email x))
          (new_subscription eng "email" email meta subs) (ap not (is_new meta subs)) subs)
  ]

module _ (eng : Engine) (token : String) (now : ℕ) (t : NotificationTables) where
  pub insert_subscription-Subscribed :
      (email meta : String) (s : NotificationTables)
      → get_pending_email token now t ≡ ok email t
      → has_active eng email t ≡ false
      → Confirming token now t s
      → Gives (λ _ s'. Subscribed eng token now t s') (insert_subscription eng "email" email meta s)
  unfolding insert_subscription get_pending_email inserted
  insert_subscription-Subscribed email meta s e inactive h = record {
    email = email;
    was_pending = e;
    was_inactive = inactive;
    active = active-inserted eng email meta (subscriptions_of s);
    others =
        others-inserted eng email meta (subscriptions_of s)
        ∙ ap (keep (λ x. not (is_subscription eng "email" email x))) h.same;
    spent = rw (h.none_open) refl;
  }

  pub Gives-get_pending_email :
      Gives
        (λ email s. (s ≡ t) × (get_pending_email token now t ≡ ok email t))
        (get_pending_email token now t)
  unfolding get_pending_email
  Gives-get_pending_email = go (email_of (find (is_open token now) t.alerts.pending))
    where
      go :
          (o : Option String)
          → Gives (λ email s. (s ≡ t) × (or_error no_rows t o ≡ ok email t)) (or_error no_rows t o)
      go none = tt
      go (some email) = (refl, refl)

-- What the lookup of the address's subscription has found.
unfoldable pub FoundSubscription :
    Engine → String → NotificationTables → Result AlertSubscription → Type 0
FoundSubscription eng email t (good s) =
    find (is_subscription eng "email" email) (subscriptions_of t) ≡ some s
FoundSubscription eng email t (bad no_rows) =
    find (is_subscription eng "email" email) (subscriptions_of t) ≡ none
FoundSubscription eng email t (bad constraint) = Unit
FoundSubscription eng email t (bad fault) = Unit

module _ (eng : Engine) (t : NotificationTables) (email : String) where
  pub Answers-get_subscription_by_email :
      Answers
        (λ row s. (s ≡ t) × FoundSubscription eng email t row)
        t
        (get_subscription_by_email eng email t)
  unfolding get_subscription_by_email FoundSubscription
  Answers-get_subscription_by_email =
      go (find (is_subscription eng "email" email) t.alerts.subscriptions) refl
    where
      go :
          (o : Option AlertSubscription)
          → find (is_subscription eng "email" email) t.alerts.subscriptions ≡ o
          → Answers (λ row s. (s ≡ t) × FoundSubscription eng email t row) t (or_error no_rows t o)
      go none e = (refl, e)
      go (some s) e = (refl, e)

  pub subscription_active-found :
      (row : Result AlertSubscription)
      → Triple {M = Unit {0}} t
          (λ s. (s ≡ t) × FoundSubscription eng email t row)
          (subscription_active row)
          (λ active s. (s ≡ t) × (has_active eng email t ≡ active))
  unfolding subscription_active FoundSubscription
  subscription_active-found (good s) = Triple-pure s.active λ x h. (h.0, ap (found is_active) h.1)
  subscription_active-found (bad no_rows) = Triple-pure false λ x h. (h.0, ap (found is_active) h.1)
  subscription_active-found (bad constraint) = Triple-reply internal_error (omega arith)
  subscription_active-found (bad fault) = Triple-reply internal_error (omega arith)
