-- ===== src/Notifications/Stamps.antt =====
-- Each delivery of a pass stamps a notification only if it was taken, whatever fails.
use mathlib.Core.Path.{subst}
use statusnook.World.Reads.{left}
use statusnook.Prelude.{
  All, Bool, Bool-cases, List, [], all, any, any-append, ap, arith, false, inl, inr, nat_eq, not,
  refl, string_eq, sym, true, ℕ, ◌&&◌, ◌++◌, ◌+◌, ◌==◌, ◌∙◌, ◌∷◌, ◌≡◌, ◌⊎◌,
}
use statusnook.World.{
  Env, Run, World, done, internal_error, pure, refuse_if, reply, stop, ◌>>=◌, ◌>>◌,
}
use statusnook.Notifications.Tables.{
  AlertSettings, Details, NotificationChannel, NotificationTables, mark_sent, slack, smtp, unknown,
  update_sent_at,
}
use statusnook.Notifications.Drain.{
  Carrier, Delivery, Email, LoopStep, deliver, deliver_all, delivered_id, isolated, mailed, posted,
  resumed, send_by_channel, send_email, send_slack, stamp, took_post, was_taken,
}
use statusnook.Notifications.Queue.{Unsent, lists}
use statusnook.Alerts.Tables.{AlertSubscription}

abbrev pub LoopWorld : Type 0
LoopWorld = World NotificationTables (List Delivery)

abbrev pub LoopRun : Type 0 → Type 0
LoopRun A = Run NotificationTables (List Delivery) A

-- Some delivery of the notification was taken.
abbrev pub taken : ℕ → List Delivery → Bool
taken id log = any (λ (d : Delivery). delivered_id d == id && was_taken d) log

abbrev pub mark_all : ℕ → List ℕ → NotificationTables → NotificationTables
mark_all now [] t = t
mark_all now (id ∷ ids) t = mark_sent now id (mark_all now ids t)

taken-append :
    (id : ℕ) (log more : List Delivery) → taken id log ≡ true → taken id (log ++ more) ≡ true
taken-append id log more h =
    ground (arith, h, any-append (λ (d : Delivery). delivered_id d == id && was_taken d) log more)

taken-All-append :
    (log more : List Delivery) (ids : List ℕ)
    → All (λ id. taken id log ≡ true) ids
    → All (λ id. taken id (log ++ more) ≡ true) ids
taken-All-append log more [] h = tt
taken-All-append log more (id ∷ ids) h =
    (taken-append id log more h.0, taken-All-append log more ids h.1)

-- The committed tables are the first ones with the notifications `ids` stamped, each of them taken;
-- and what was handed over is in the batch.
pub record Stamps (now : ℕ) (t : NotificationTables) (batch : List Unsent) (w : LoopWorld)
    : Type 0 where
  pub ids : List ℕ
  pub tables : w.committed ≡ mark_all now ids t
  pub taken_ids : All (λ id. taken id w.memory ≡ true) ids
  pub listed : all (λ d. lists batch (delivered_id d)) w.memory ≡ true

all-snoc :
    (p : Delivery → Bool) (log : List Delivery) (d : Delivery)
    → all p log ≡ true
    → p d ≡ true
    → all p (log ++ d ∷ []) ≡ true
all-snoc p [] d h e = ground (arith, e)
all-snoc p (x ∷ log) d h e = ground (arith, h, e, all-snoc p log d)

taken-snoc :
    (log : List Delivery) (d : Delivery)
    → was_taken d ≡ true
    → taken (delivered_id d) (log ++ d ∷ []) ≡ true
taken-snoc [] d h = ground (arith, h)
taken-snoc (x ∷ log) d h = ground (arith, taken-snoc log d h)

module _ (env : Env) where
  -- The stamping transaction does all or nothing, and no more.
  stamp-cases :
      (id : ℕ) (w : LoopWorld)
      → ((left (stamp env id w)).memory ≡ w.memory)
        × (((left (stamp env id w)).committed ≡ w.committed)
            ⊎ ((left (stamp env id w)).committed ≡ mark_sent env.now id w.committed))
  unfolding stamp ◌>>=◌ update_sent_at
  stamp-cases id w =
      go (Bool-cases (env.fails w.calls)) (Bool-cases (env.fails (w.calls + 1)))
        (Bool-cases (env.fails (w.calls + 1 + 1)))
    where
      go :
          (env.fails w.calls ≡ true) ⊎ (env.fails w.calls ≡ false)
          → (env.fails (w.calls + 1) ≡ true) ⊎ (env.fails (w.calls + 1) ≡ false)
          → (env.fails (w.calls + 1 + 1) ≡ true) ⊎ (env.fails (w.calls + 1 + 1) ≡ false)
          → ((left (stamp env id w)).memory ≡ w.memory)
            × (((left (stamp env id w)).committed ≡ w.committed)
                ⊎ ((left (stamp env id w)).committed ≡ mark_sent env.now id w.committed))
      go (inl a) b c = rw (a, left) (refl, inl refl)
      go (inr a) (inl b) c = rw (a, b, left) (refl, inl refl)
      go (inr a) (inr b) (inl c) = rw (a, b, c, left) (refl, inl refl)
      go (inr a) (inr b) (inr c) = rw (a, b, c, left) (refl, inr refl)

module _ (env : Env) (t : NotificationTables) (batch : List Unsent) where
  -- What an action keeps, however it ends.
  abbrev Steady : {A : Type 0} → LoopStep A → Type 0
  Steady m = (w : LoopWorld) → Stamps env.now t batch w → Stamps env.now t batch (left (m w))

  stamp-Stamps :
      (id : ℕ) (w : LoopWorld)
      → Stamps env.now t batch w
      → taken id w.memory ≡ true
      → Stamps env.now t batch (left (stamp env id w))
  stamp-Stamps id w h k = go (stamp-cases env id w)
    where
      go :
          ((left (stamp env id w)).memory ≡ w.memory)
            × (((left (stamp env id w)).committed ≡ w.committed)
                ⊎ ((left (stamp env id w)).committed ≡ mark_sent env.now id w.committed))
          → Stamps env.now t batch (left (stamp env id w))
      go (m, inl e) = record {
        ids = h.ids;
        tables = e ∙ h.tables;
        taken_ids = subst (λ l. All (λ i. taken i l ≡ true) h.ids) (sym m) h.taken_ids;
        listed = rw (m) h.listed;
      }
      go (m, inr e) = record {
        ids = id ∷ h.ids;
        tables = e ∙ ap (mark_sent env.now id) h.tables;
        taken_ids = subst (λ l. All (λ i. taken i l ≡ true) (id ∷ h.ids)) (sym m) (k, h.taken_ids);
        listed = rw (m) h.listed;
      }

  -- A message handed over, and the stamp when it was taken.
  sent-Stamps :
      (d : Delivery) (w : LoopWorld)
      → lists batch (delivered_id d) ≡ true
      → Stamps env.now t batch w
      → Stamps env.now t batch (
          left (
            (refuse_if (not (was_taken d)) internal_error >> stamp env (delivered_id d))
              (record w { memory = w.memory ++ d ∷ [] })))
  unfolding ◌>>=◌
  sent-Stamps d w l h = go (Bool-cases (was_taken d))
    where
      w' : LoopWorld
      w' = record w { memory = w.memory ++ d ∷ [] }

      logged : Stamps env.now t batch w'
      logged = record {
        ids = h.ids;
        tables = h.tables;
        taken_ids = taken-All-append w.memory (d ∷ []) h.ids h.taken_ids;
        listed = all-snoc (λ x. lists batch (delivered_id x)) w.memory d h.listed l;
      }

      go :
          (was_taken d ≡ true) ⊎ (was_taken d ≡ false)
          → Stamps env.now t batch (
              left
                ((refuse_if (not (was_taken d)) internal_error >> stamp env (delivered_id d)) w'))
      go (inl e) = rw (e, left) (stamp-Stamps (delivered_id d) w' logged (taken-snoc w.memory d e))
      go (inr e) = rw (e, left) logged

  module _ (carrier : Carrier) where
    send_slack-Stamps : (u : Unsent) → lists batch u.id ≡ true → Steady (send_slack env carrier u)
    unfolding send_slack ◌>>=◌
    send_slack-Stamps u l w h = sent-Stamps (posted u (took_post (carrier.post w.memory u))) w l h

    send_email-Stamps :
        (e : Email) → lists batch e.notification.id ≡ true → Steady (send_email env carrier e)
    unfolding send_email ◌>>=◌
    send_email-Stamps e l w h = sent-Stamps (mailed e (carrier.mail w.memory e)) w l h

    module _ (channel : NotificationChannel) (settings : AlertSettings)
        (subs : List AlertSubscription) where
      by_channel-Stamps :
          (u : Unsent)
          → lists batch u.id ≡ true
          → Steady (send_by_channel env carrier channel settings subs u)
      unfolding send_by_channel reply
      by_channel-Stamps u l w h = go channel.details
        where
          go :
              (d : Details)
              → Stamps env.now t batch (
                  left (
                    send_by_channel env carrier (record channel { details = d }) settings subs u w))
          go (smtp d) = send_email-Stamps _ l w h
          go (slack url) = h
          go unknown = h

      deliver-Stamps :
          (u : Unsent)
          → lists batch u.id ≡ true
          → Steady (deliver env carrier channel settings subs u)
      unfolding deliver pure
      deliver-Stamps u l w h = go (Bool-cases (u.kind == "slack")) (Bool-cases (u.kind == "email"))
        where
          go :
              ((u.kind == "slack") ≡ true) ⊎ ((u.kind == "slack") ≡ false)
              → ((u.kind == "email") ≡ true) ⊎ ((u.kind == "email") ≡ false)
              → Stamps env.now t batch (left (deliver env carrier channel settings subs u w))
          go (inl a) b = rw (a, left) (send_slack-Stamps u l w h)
          go (inr a) (inl b) = rw (a, b, left) (by_channel-Stamps u l w h)
          go (inr a) (inr b) = rw (a, b, left) h

      pub deliver_all-Stamps :
          (us : List Unsent)
          → All (λ (u : Unsent). lists batch u.id ≡ true) us
          → Steady (deliver_all env carrier channel settings subs us)
      unfolding deliver_all isolated pure ◌>>=◌
      deliver_all-Stamps [] l w h = h
      deliver_all-Stamps (u ∷ us) l w h =
          go (deliver env carrier channel settings subs u w) (deliver-Stamps u l.0 w h)
            (deliver_all-Stamps us l.1)
        where
          go :
              (r : LoopRun (Unit {0}))
              → Stamps env.now t batch (left r)
              → Steady (deliver_all env carrier channel settings subs us)
              → Stamps env.now t batch (
                  left (elim (resumed r) [
                    | done _ w' ↦ deliver_all env carrier channel settings subs us w'
                    | stop x w' ↦ stop x w'
                  ]))
          go (done _ w') k next = next w' k
          go (stop _ w') k next = next w' k
