-- ===== src/Notifications/SettingsReads.antt =====
-- getAlertSettings on rows that agree on each name's value.
use statusnook.Prelude.{
  Bool, Bool-cases, List, Option, String, [], all, any, arith, eq_iff, false, if◌then◌else◌, inl,
  inr, nat_eq, refl, some, string_eq, true, ◌==◌, ◌∙◌, ◌∷◌, ◌≡◌,
}
use statusnook.Notifications.Tables.{AlertSetting, AlertSettings, Codec, no_settings, read_settings}
use statusnook.Notifications.Settings.{named, upsert_setting}
use statusnook.Notifications.SettingsLaws.{
  says, upsert_setting-named, upsert_setting-named_other, upsert_setting-says,
  upsert_setting-says_other,
}

same_settings :
    {u u' c c' : String} {b b' : Bool}
    → u ≡ u'
    → c ≡ c'
    → b ≡ b'
    → ◌≡◌ {A = Option AlertSettings}
        (some
          (record { slack_install_url = u; slack_client_secret = c; managed_subscriptions = b }))
        (some
          (record { slack_install_url = u'; slack_client_secret = c'; managed_subscriptions = b' }))
same_settings p q r = λ i.
    some
      (record { slack_install_url = p i; slack_client_secret = q i; managed_subscriptions = r i })

either : {A : Type 0} {x y : A} (b : Bool) → y ≡ x → (if b then x else y) ≡ x
either true e = refl
either false e = e

-- A row has one name.
one_name :
    (r : AlertSetting) (name other : String)
    → (r.name == name) ≡ true
    → (name == other) ≡ false
    → (r.name == other) ≡ false
one_name r name other e apart =
    ground (arith, e, apart, eq_iff r.name name, eq_iff r.name other, eq_iff name other)

said :
    (name value : String) (r : AlertSetting) (rows : List AlertSetting)
    → all (says name value) (r ∷ rows) ≡ true
    → (r.name == name) ≡ true
    → r.value ≡ value
unfolding says
said name value r rows h e = ground (arith, h, e, eq_iff r.value value)

module _ (codec : Codec) (url secret text : String) (managed : Bool)
    (reads : codec.parse_bool text ≡ some managed) where
  -- The rows give each setting that they name, and leave the others.
  overlaid : List AlertSetting → AlertSettings → AlertSettings
  overlaid rows s = record {
    slack_install_url = if any (named "slack-install-url") rows then url else s.slack_install_url;
    slack_client_secret =
        if any (named "slack-client-secret") rows then secret else s.slack_client_secret;
    managed_subscriptions =
        if any (named "managed-subscriptions") rows then managed else s.managed_subscriptions;
  }

  pub record Agree (rows : List AlertSetting) : Type 0 where
    pub urls : all (says "slack-install-url" url) rows ≡ true
    pub secrets : all (says "slack-client-secret" secret) rows ≡ true
    pub texts : all (says "managed-subscriptions" text) rows ≡ true

  read_settings-overlaid :
      (rows : List AlertSetting) (s : AlertSettings)
      → Agree rows
      → read_settings codec rows s ≡ some (overlaid rows s)
  unfolding read_settings overlaid says
  read_settings-overlaid [] s agree = refl
  read_settings-overlaid (r ∷ rows) s agree = elim (Bool-cases (r.name == "slack-install-url")) [
    | inl e ↦
        rw
          (
            e,
            one_name r "slack-install-url" "slack-client-secret" e refl,
            one_name r "slack-install-url" "managed-subscriptions" e refl,
          )
          (read_settings-overlaid rows (record s { slack_install_url = r.value }) rest
            ∙ same_settings
                (either (any (named "slack-install-url") rows)
                  (said "slack-install-url" url r rows agree.urls e))
                refl refl)
    | inr e ↦ elim (Bool-cases (r.name == "slack-client-secret")) [
      | inl f ↦
          rw (e, f, one_name r "slack-client-secret" "managed-subscriptions" f refl)
            (read_settings-overlaid rows (record s { slack_client_secret = r.value }) rest
              ∙ same_settings refl
                  (either (any (named "slack-client-secret") rows)
                    (said "slack-client-secret" secret r rows agree.secrets f))
                  refl)
      | inr f ↦ elim (Bool-cases (r.name == "managed-subscriptions")) [
        | inl g ↦
            rw (e, f, g, said "managed-subscriptions" text r rows agree.texts g, reads)
              (read_settings-overlaid rows (record s { managed_subscriptions = managed }) rest
                ∙ same_settings refl refl (either (any (named "managed-subscriptions") rows) refl))
        | inr g ↦ rw (e, f, g) (read_settings-overlaid rows s rest)
      ]
    ]
  ]
    where
      rest : Agree rows
      rest = record {
        urls = ground (arith, agree.urls);
        secrets = ground (arith, agree.secrets);
        texts = ground (arith, agree.texts);
      }

  -- The rows after updateAlertSettings.
  abbrev pub updated : List AlertSetting → List AlertSetting
  updated rows =
      upsert_setting "managed-subscriptions" text
        (upsert_setting "slack-client-secret" secret (upsert_setting "slack-install-url" url rows))

  pub read_settings-updated :
      (rows : List AlertSetting)
      → read_settings codec (updated rows) no_settings
        ≡ some (record {
          slack_install_url = url;
          slack_client_secret = secret;
          managed_subscriptions = managed;
        })
  unfolding overlaid
  read_settings-updated rows =
      read_settings-overlaid (updated rows) no_settings agree
      ∙ same_settings (yes "" urls_named) (yes "" secrets_named)
          (yes false (upsert_setting-named _ _ _))
    where
      yes : {A : Type 0} {x : A} {b : Bool} (y : A) → b ≡ true → (if b then x else y) ≡ x
      yes y e = rw (e) refl

      urls_named : any (named "slack-install-url") (updated rows) ≡ true
      urls_named =
          upsert_setting-named_other _ _ _ _
            (upsert_setting-named_other _ _ _ _ (upsert_setting-named _ _ _))

      secrets_named : any (named "slack-client-secret") (updated rows) ≡ true
      secrets_named = upsert_setting-named_other _ _ _ _ (upsert_setting-named _ _ _)

      agree : Agree (updated rows)
      agree = record {
        urls =
            upsert_setting-says_other _ _ _ _ refl _
              (upsert_setting-says_other _ _ _ _ refl _ (upsert_setting-says _ _ _));
        secrets = upsert_setting-says_other _ _ _ _ refl _ (upsert_setting-says _ _ _);
        texts = upsert_setting-says _ _ _;
      }
