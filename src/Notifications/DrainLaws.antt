-- ===== src/Notifications/DrainLaws.antt =====
-- What a pass of drainNotificationQueue may write, whichever database calls and deliveries fail.
use mathlib.Core.Path.{subst}
use statusnook.World.Reads.{Reading, Reading-begin, Reading-commit, Reading-exec, Same, left}
use statusnook.World.Steps.{and_then}
use statusnook.Prelude.{
  All, Bool-cases, List, [], arith, false, inl, inr, refl, sym, true, ℕ, ◌∙◌, ◌∷◌, ◌≡◌, ◌⊎◌,
}
use statusnook.World.{Env, commit, done, pure, start, stop, ◌>>=◌, ◌>>◌}
use statusnook.Notifications.Tables.{Codec, NotificationTables}
use statusnook.Notifications.Drain.{Carrier, LoopStep, deliver_batch, drain}
use statusnook.Notifications.Queue.{Unsent, list_unsent, lists, unsent_rows}
use statusnook.Notifications.Stamps.{LoopRun, LoopWorld, Stamps, deliver_all-Stamps, taken}
use statusnook.Notifications.ReadLaws.{
  get_alert_settings-same, get_channel-same, get_smtp_setting-same, list_active-same,
}
use statusnook.Notifications.Passes.{Pass, Stamps-Pass}

module _ (env : Env) (t : NotificationTables) (batch : List Unsent) where
  -- An action that starts with nothing open.
  abbrev Settled : {A : Type 0} → LoopStep A → Type 0
  Settled m =
      (w : LoopWorld)
      → w.working ≡ w.committed
      → Stamps env.now t batch w
      → Stamps env.now t batch (left (m w))

  Stamps-Same :
      (w w' : LoopWorld) → Same w w' → Stamps env.now t batch w → Stamps env.now t batch w'
  Stamps-Same w w' (c, o, m) h = record {
    ids = h.ids;
    tables = c ∙ h.tables;
    taken_ids = subst (λ l. All (λ i. taken i l ≡ true) h.ids) (sym m) h.taken_ids;
    listed = rw (m) h.listed;
  }

  Settled-read :
      {A B : Type 0} (m : LoopStep A) (f : A → LoopStep B)
      → Reading m
      → ((a : A) → Settled (f a))
      → Settled (m >>= f)
  unfolding ◌>>=◌
  Settled-read {A} {B} m f r k w e h = go (m w) (r.at w e)
    where
      go : (x : LoopRun A) → Same w (left x) → Stamps env.now t batch (left (and_then x f))
      go (done a w') s = k a w' (s.1 ∙ sym s.0) (Stamps-Same w w' s h)
      go (stop y w') s = Stamps-Same w w' s h

  module _ (carrier : Carrier) (codec : Codec) where
    batch-Settled :
        (us : List Unsent)
        → All (λ (u : Unsent). lists batch u.id ≡ true) us
        → Settled (deliver_batch env carrier codec us)
    unfolding deliver_batch pure
    batch-Settled [] l = λ w e h. h
    batch-Settled (u ∷ us) l = Settled-read _ _ (Reading-begin env) λ _.
        Settled-read _ _ (Reading-exec env _ get_smtp_setting-same) λ id.
          Settled-read _ _ (Reading-exec env _ (get_channel-same codec id)) λ channel.
            Settled-read _ _ (Reading-exec env _ (get_alert_settings-same codec)) λ settings.
              Settled-read _ _ (Reading-exec env _ list_active-same) λ subs.
                Settled-read _ _ (Reading-commit env) λ _ w e h.
                  deliver_all-Stamps env t batch carrier channel settings subs (u ∷ us) l w h

lists-All :
    (batch us : List Unsent)
    → ((id : ℕ) → lists us id ≡ true → lists batch id ≡ true)
    → All (λ (u : Unsent). lists batch u.id ≡ true) us
lists-All batch [] h = tt
lists-All batch (u ∷ us) h =
    (h u.id (ground arith), lists-All batch us λ id e. h id (ground (arith, e)))

module _ (env : Env) (carrier : Carrier) (codec : Codec) (t : NotificationTables) where
  start-Stamps : (n : ℕ) → Stamps env.now t (unsent_rows t) (record (start t []) { calls = n })
  start-Stamps n = record { ids = []; tables = refl; taken_ids = tt; listed = refl }

  -- The first read transaction, and the rest of the pass.
  drain-Stamps : Stamps env.now t (unsent_rows t) (left (drain env carrier codec (start t [])))
  unfolding drain list_unsent ◌>>=◌
  drain-Stamps = go (Bool-cases (env.fails 0)) (Bool-cases (env.fails 1))
    where
      rest :
          (w : LoopWorld)
          → w.working ≡ w.committed
          → Stamps env.now t (unsent_rows t) w
          → Stamps env.now t
              (unsent_rows t)
              (left ((commit env >> deliver_batch env carrier codec (unsent_rows t)) w))
      rest = Settled-read env t (unsent_rows t) _ _ (Reading-commit env) λ _.
          batch-Settled env t (unsent_rows t) carrier codec (unsent_rows t)
            (lists-All (unsent_rows t) (unsent_rows t) λ id e. e)

      go :
          (env.fails 0 ≡ true) ⊎ (env.fails 0 ≡ false)
          → (env.fails 1 ≡ true) ⊎ (env.fails 1 ≡ false)
          → Stamps env.now t (unsent_rows t) (left (drain env carrier codec (start t [])))
      go (inl a) b = rw (a, left) (start-Stamps 1)
      go (inr a) (inl b) = rw (a, b, left) (start-Stamps 2)
      go (inr a) (inr b) =
          rw (a, b, left) (rest (record (start t []) { calls = 2 }) refl (start-Stamps 2))

  -- Whatever database calls and deliveries fail, a pass over the queue hands over only
  -- notifications that were unsent; it changes no table but the queue, no column of it but
  -- sent_at, and no row of which no delivery was taken by Slack or the mail server.
  pub drain-Pass : Pass t (left (drain env carrier codec (start t [])))
  drain-Pass = Stamps-Pass env.now t _ drain-Stamps
