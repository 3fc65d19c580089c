-- ===== src/Notifications/SettingsRoundTrip.antt =====
-- What postAlertNotifications leaves for getAlertSettings and for the notification loop to read.
use mathlib.Core.Path.{subst}
use statusnook.Prelude.{
  Bool, List, String, [], any, ap, arith, false, if◌then◌else◌, nat_eq, not, refl, some, string_eq,
  sym, true, ℕ, ◌&&◌, ◌==◌, ◌∙◌, ◌∷◌, ◌≡◌,
}
use statusnook.World.{
  Answer, Env, Result, bad, constraint, err, exec, fault, good, internal_error, no_rows, ok,
  or_error, pure, serve,
}
use statusnook.World.Hoare.{
  Gives, Outcome, Serves-bind, Serves-commit, Serves-serve, Triple, Triple-begin, Triple-bind,
  Triple-demand, Triple-exec, Triple-pure, Triple-refuse_if, Triple-weaken,
}
use statusnook.World.Attempts.{Answers, Serves-given, Triple-attempt, Triple-reply}
use statusnook.Text.{negsuc, pos, ℤ}
use statusnook.Notifications.Tables.{
  ChannelRow, Codec, NotificationChannel, NotificationTables, get_alert_settings,
}
use statusnook.Notifications.ReadLaws.{get_channel-same}
use statusnook.Notifications.Settings.{
  SettingsForm, Writer, channel_id, create_smtp_setting, delete_smtp_setting, found_channel,
  get_parsed_channel, install_url, no_channel, post_alert_notifications, put_setting,
  update_alert_settings, update_smtp_setting, upsert_setting,
}
use statusnook.Notifications.SettingsReads.{read_settings-updated, updated}

-- The channel of the parsed id, or the zero value where there is no such row.
pub data Chosen (codec : Codec) (id : ℤ) (t : NotificationTables) (channel : NotificationChannel)
    : Type 0 where
  chosen : get_parsed_channel codec id t ≡ ok channel t → Chosen codec id t channel
  missing :
      get_parsed_channel codec id t ≡ err no_rows → channel ≡ no_channel → Chosen codec id t channel

abbrev pub setting_of : NotificationChannel → List ℕ
setting_of channel = if channel.id == 0 then [] else channel.id ∷ []

-- The tables after the form: its settings are read back, and the email channel is an SMTP channel.
pub record Stored (codec : Codec) (writer : Writer) (form : SettingsForm)
    (t t' : NotificationTables) : Type 0 where
  pub url : String
  pub id : ℤ
  pub channel : NotificationChannel
  pub is_url : install_url writer form ≡ some url
  pub is_id : channel_id form ≡ some id
  pub is_channel : Chosen codec id t channel
  pub is_smtp : (not (channel.id == 0) && not (channel.kind == "smtp")) ≡ false
  pub reads :
      get_alert_settings codec t'
      ≡ ok
          (record {
            slack_install_url = url;
            slack_client_secret = form.slack_client_secret;
            managed_subscriptions = form.managed_subscriptions == "on";
          })
          t'
  pub smtp : t'.smtp_setting ≡ setting_of channel
  pub rest : (t'.alerts ≡ t.alerts) × (t'.channels ≡ t.channels)

module _ (env : Env) (codec : Codec) (t : NotificationTables) where
  FoundRow : ℤ → Result NotificationChannel → NotificationTables → Type 0
  FoundRow id (good channel) s = (s ≡ t) × (get_parsed_channel codec id t ≡ ok channel t)
  FoundRow id (bad no_rows) s = (s ≡ t) × (get_parsed_channel codec id t ≡ err no_rows)
  FoundRow id (bad constraint) s = Unit
  FoundRow id (bad fault) s = Unit

  get_parsed_channel-same : (id : ℤ) → Gives (λ _ t'. t' ≡ t) (get_parsed_channel codec id t)
  unfolding get_parsed_channel
  get_parsed_channel-same (pos n) = get_channel-same codec n t
  get_parsed_channel-same (negsuc n) = tt

  answers :
      (id : ℤ) (s : NotificationTables)
      → s ≡ t
      → Answers (FoundRow id) s (get_parsed_channel codec id s)
  unfolding FoundRow
  answers id s h =
      subst (λ x. Answers (FoundRow id) x (get_parsed_channel codec id x)) (sym h)
        (go (get_parsed_channel codec id t) refl (get_parsed_channel-same id))
    where
      go :
          (a : Answer NotificationTables NotificationChannel)
          → get_parsed_channel codec id t ≡ a
          → Gives (λ _ t'. t' ≡ t) a
          → Answers (FoundRow id) t a
      go (ok channel s) e h = (h, e ∙ ap (ok channel) h)
      go (err no_rows) e h = (refl, e)
      go (err constraint) e h = tt
      go (err fault) e h = tt

  found_channel-Chosen :
      (id : ℤ) (row : Result NotificationChannel)
      → Triple t
          (FoundRow id row)
          (found_channel row)
          (λ channel s. (s ≡ t) × Chosen codec id t channel)
  unfolding found_channel FoundRow
  found_channel-Chosen id (good channel) = Triple-pure channel λ s h. (h.0, chosen h.1)
  found_channel-Chosen id (bad no_rows) = Triple-pure no_channel λ s h. (h.0, missing h.1 refl)
  found_channel-Chosen id (bad constraint) = Triple-reply internal_error (omega arith)
  found_channel-Chosen id (bad fault) = Triple-reply internal_error (omega arith)

  with_smtp : List ℕ → NotificationTables
  with_smtp ids = record t { smtp_setting = ids }

  create_smtp_setting-with :
      (id : ℕ) → Gives (λ _ s. s ≡ with_smtp (id ∷ [])) (create_smtp_setting id (with_smtp []))
  unfolding create_smtp_setting with_smtp
  create_smtp_setting-with id = go (not (any (λ (c : ChannelRow). c.id == id) t.channels))
    where
      go :
          (b : Bool)
          → Gives
              (λ _ s. s ≡ record t { smtp_setting = id ∷ [] })
              (if b then err constraint else ok tt (record t { smtp_setting = id ∷ [] }))
      go true = tt
      go false = refl

  update_smtp_setting-with :
      (channel : NotificationChannel)
      → Triple t
          (λ s. s ≡ t)
          (update_smtp_setting env channel.id)
          (λ _ s. s ≡ with_smtp (setting_of channel))
  unfolding update_smtp_setting delete_smtp_setting with_smtp
  update_smtp_setting-with channel =
      Triple-bind _ _ (Triple-exec env {Q = λ _ s. s ≡ with_smtp []} delete_smtp_setting deleted)
        λ _. go (channel.id == 0)
    where
      deleted :
          (s : NotificationTables)
          → s ≡ t
          → Gives (λ _ s'. s' ≡ with_smtp []) (delete_smtp_setting s)
      deleted s h = ap (λ (x : NotificationTables). record x { smtp_setting = [] }) h

      go :
          (b : Bool)
          → Triple {M = Unit {0}} t
              (λ s. s ≡ with_smtp [])
              (if b then pure tt else exec env (create_smtp_setting channel.id))
              (λ _ s. s ≡ with_smtp (if b then [] else channel.id ∷ []))
      go true = Triple-pure tt λ s h. h
      go false = Triple-exec env _ λ s h.
          subst
            (λ x.
              Gives (λ _ s'. s' ≡ with_smtp (channel.id ∷ [])) (create_smtp_setting channel.id x))
            (sym h) (create_smtp_setting-with channel.id)

  module _ (writer : Writer) (form : SettingsForm)
      (writes : (b : Bool) → codec.parse_bool (writer.format_bool b) ≡ some b) where
    is_managed : Bool
    is_managed = form.managed_subscriptions == "on"

    with_settings : String → NotificationChannel → NotificationTables
    unfolding is_managed
    with_settings url channel = record t {
      smtp_setting = setting_of channel;
      settings =
          updated codec url form.slack_client_secret (writer.format_bool is_managed) is_managed
            (writes is_managed) t.settings;
    }

    with_settings-Stored :
        (url : String) (id : ℤ) (channel : NotificationChannel)
        → install_url writer form ≡ some url
        → channel_id form ≡ some id
        → Chosen codec id t channel
        → (not (channel.id == 0) && not (channel.kind == "smtp")) ≡ false
        → Stored codec writer form t (with_settings url channel)
    unfolding with_settings is_managed get_alert_settings
    with_settings-Stored url id channel is_url is_id is_channel is_smtp = record {
      url = url;
      id = id;
      channel = channel;
      is_url = is_url;
      is_id = is_id;
      is_channel = is_channel;
      is_smtp = is_smtp;
      reads = ap (or_error fault (with_settings url channel)) (
          read_settings-updated codec url form.slack_client_secret (writer.format_bool is_managed)
            is_managed (writes is_managed) t.settings);
      smtp = refl;
      rest = (refl, refl);
    }

    put_setting-next :
        (name value : String) (u : NotificationTables)
        → Triple {M = Unit {0}} t
            (λ s. s ≡ u)
            (exec env (put_setting name value))
            (λ _ s. s ≡ record u { settings = upsert_setting name value u.settings })
    unfolding put_setting
    put_setting-next name value u = Triple-exec env _ λ s h.
        ap
          (λ (x : NotificationTables). record x { settings = upsert_setting name value x.settings })
          h

    update_alert_settings-with :
        (url : String) (channel : NotificationChannel)
        → Triple t
            (λ s. s ≡ with_smtp (setting_of channel))
            (update_alert_settings env writer url form.slack_client_secret is_managed)
            (λ _ s. s ≡ with_settings url channel)
    unfolding update_alert_settings with_settings with_smtp
    update_alert_settings-with url channel =
        Triple-bind _ _ (put_setting-next "slack-install-url" url _) λ _.
          Triple-bind _ _ (put_setting-next "slack-client-secret" form.slack_client_secret _)
            λ _. put_setting-next "managed-subscriptions" (writer.format_bool is_managed) _

    -- If ParseBool reads back what FormatBool writes, the form of the alert settings is
    -- refused and changes no table, or its values are what getAlertSettings then reads and
    -- the email channel set is the form's, an SMTP channel, or none where the form names
    -- none or one that is missing; alerts and channels stay. So whatever database calls
    -- fail.
    pub post_alert_notifications-Stored :
        (config_file : Bool)
        → Outcome
            (λ _ t'. Stored codec writer form t t')
            t
            (serve (post_alert_notifications env config_file codec writer form) t tt)
    unfolding post_alert_notifications is_managed FoundRow
    post_alert_notifications-Stored config_file =
        Serves-serve (λ _ t'. Stored codec writer form t t') _ t tt
          (Serves-bind _ _ (Triple-refuse_if {Q = λ _ s. s ≡ t} _ _ (omega arith) λ _ s h. h) λ _.
            Serves-bind _ _
              (Triple-demand {Q = λ url s. install_url writer form ≡ some url} _ _ (omega arith)
                λ url e s h. e)
              λ url.
                Serves-given (λ s e. e)
                  λ is_url.
                    Serves-bind _ _
                      (Triple-demand {Q = λ id s. channel_id form ≡ some id} _ _ (omega arith)
                        λ id e s h. e)
                      λ id.
                        Serves-given (λ s e. e)
                          λ is_id. Serves-bind _ _ (Triple-begin env) λ _.
                            Serves-bind _ _
                              (Triple-attempt {Q = FoundRow id} env _ λ s h. (answers id s h, tt))
                              λ row. Serves-bind _ _ (found_channel-Chosen id row) λ channel.
                                Serves-given (λ s h. h.1)
                                  λ is_channel.
                                    Serves-bind _ _
                                      (Triple-refuse_if
                                        {Q = λ _ s.
                                          (s ≡ t)
                                          × ((not (channel.id == 0) && not (channel.kind == "smtp"))
                                              ≡ false)}
                                        _ _ (omega arith) λ e s h. (h.0, e))
                                      λ _.
                                        Serves-given (λ s h. h.1)
                                          λ is_smtp.
                                            Serves-bind _ _
                                              (Triple-weaken (update_smtp_setting-with channel)
                                                λ s h. h.0)
                                              λ _.
                                                Serves-bind _ _
                                                  (update_alert_settings-with url channel)
                                                  λ _. Serves-commit env _ λ s h.
                                                    subst (Stored codec writer form t) (sym h) (
                                                      with_settings-Stored url id channel is_url
                                                        is_id is_channel is_smtp))
