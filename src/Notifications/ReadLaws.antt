-- ===== src/Notifications/ReadLaws.antt =====
-- The statements that read leave the tables as they are.
use statusnook.World.Hoare.{Gives}
use statusnook.Prelude.{Option, find, nat_eq, none, refl, some, string_eq, ℕ, ◌==◌, ◌≡◌}
use statusnook.World.{DbError, fault, no_rows, or_error}
use statusnook.Notifications.Tables.{
  ChannelRow, Codec, NotificationTables, decode_channel, decoded, first, get_alert_settings,
  get_channel, get_smtp_setting, list_active_email_subscriptions, no_settings, read_settings,
}
use statusnook.Notifications.Queue.{list_unsent}

pub or_error-same :
    {A : Type 0} (e : DbError) (t : NotificationTables) (o : Option A)
    → Gives (λ _ t'. t' ≡ t) (or_error e t o)
or_error-same e t none = tt
or_error-same e t (some a) = refl

pub get_smtp_setting-same : (t : NotificationTables) → Gives (λ _ t'. t' ≡ t) (get_smtp_setting t)
unfolding get_smtp_setting
get_smtp_setting-same t = or_error-same no_rows t (first t.smtp_setting)

pub get_channel-same :
    (codec : Codec) (id : ℕ) (t : NotificationTables)
    → Gives (λ _ t'. t' ≡ t) (get_channel codec id t)
unfolding get_channel
get_channel-same codec id t = go (find (λ (c : ChannelRow). c.id == id) t.channels)
  where
    go : (o : Option ChannelRow) → Gives (λ _ t'. t' ≡ t) (decoded codec t o)
    go none = tt
    go (some row) = or_error-same fault t (decode_channel codec row)

pub get_alert_settings-same :
    (codec : Codec) (t : NotificationTables) → Gives (λ _ t'. t' ≡ t) (get_alert_settings codec t)
unfolding get_alert_settings
get_alert_settings-same codec t = or_error-same fault t (read_settings codec t.settings no_settings)

pub list_active-same :
    (t : NotificationTables) → Gives (λ _ t'. t' ≡ t) (list_active_email_subscriptions t)
unfolding list_active_email_subscriptions
list_active-same t = refl

pub list_unsent-same : (t : NotificationTables) → Gives (λ u t'. (t' ≡ t)) (list_unsent t)
unfolding list_unsent
list_unsent-same t = refl
