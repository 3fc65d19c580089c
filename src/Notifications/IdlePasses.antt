-- ===== src/Notifications/IdlePasses.antt =====
-- Without a channel for the email of alerts, a pass ends before any delivery.
use statusnook.Prelude.{Bool-cases, List, [], false, inl, inr, refl, true, ◌∷◌, ◌≡◌, ◌⊎◌}
use statusnook.Notifications.Queue.{Unsent, list_unsent, unsent_rows}
use statusnook.World.{Env, err, no_rows, pure, start, ◌>>=◌}
use statusnook.Notifications.Drain.{Carrier, deliver_batch, drain}
use statusnook.Notifications.Tables.{Codec, NotificationTables, get_smtp_setting}
use statusnook.Notifications.Stamps.{LoopWorld}
use statusnook.World.Reads.{left}

-- Nothing was written and nothing handed over.
abbrev pub Idle : NotificationTables → LoopWorld → Type 0
Idle t w = (w.committed ≡ t) × (w.memory ≡ [])

module _ (env : Env) (carrier : Carrier) (codec : Codec) (t : NotificationTables)
    (unset : t.smtp_setting ≡ []) where
  no_setting : get_smtp_setting t ≡ err no_rows
  unfolding get_smtp_setting
  no_setting = rw (unset) refl

  unset-batch :
      (us : List Unsent)
      → Idle t (left (deliver_batch env carrier codec us (record (start t []) { calls = 3 })))
  unfolding deliver_batch pure ◌>>=◌
  unset-batch [] = (refl, refl)
  unset-batch (u ∷ us) = go (Bool-cases (env.fails 3)) (Bool-cases (env.fails 4))
    where
      go :
          (env.fails 3 ≡ true) ⊎ (env.fails 3 ≡ false)
          → (env.fails 4 ≡ true) ⊎ (env.fails 4 ≡ false)
          → Idle t
              (left (deliver_batch env carrier codec (u ∷ us) (record (start t []) { calls = 3 })))
      go (inl a) b = rw (a, left) (refl, refl)
      go (inr a) (inl b) = rw (a, b, left) (refl, refl)
      go (inr a) (inr b) = rw (a, b, no_setting, left) (refl, refl)

  -- While no channel is set for the email of alerts, a pass writes nothing and hands nothing
  -- over, to Slack neither, whatever database calls and deliveries would fail.
  pub drain-Idle : Idle t (left (drain env carrier codec (start t [])))
  unfolding drain list_unsent ◌>>=◌
  drain-Idle = go (Bool-cases (env.fails 0)) (Bool-cases (env.fails 1)) (Bool-cases (env.fails 2))
    where
      go :
          (env.fails 0 ≡ true) ⊎ (env.fails 0 ≡ false)
          → (env.fails 1 ≡ true) ⊎ (env.fails 1 ≡ false)
          → (env.fails 2 ≡ true) ⊎ (env.fails 2 ≡ false)
          → Idle t (left (drain env carrier codec (start t [])))
      go (inl a) b c = rw (a, left) (refl, refl)
      go (inr a) (inl b) c = rw (a, b, left) (refl, refl)
      go (inr a) (inr b) (inl c) = rw (a, b, c, left) (refl, refl)
      go (inr a) (inr b) (inr c) = rw (a, b, c, left) (unset-batch (unsent_rows t))
