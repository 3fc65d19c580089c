-- ===== src/Notifications/SettingsLaws.antt =====
-- The round trip of the alert settings: what postAlertNotifications stores, getAlertSettings reads.
use statusnook.Prelude.{
  Bool, Bool-cases, List, String, [], all, any, any-append, arith, eq_iff, false, inl, inr, nat_eq,
  not, refl, rewrite, string_eq, true, ◌++◌, ◌==◌, ◌||◌, ◌∷◌, ◌≡◌,
}
use statusnook.Notifications.Tables.{AlertSetting}
use statusnook.Notifications.Settings.{named, upsert_setting}

-- Every row of the name has the value.
unfoldable pub says : String → String → AlertSetting → Bool
says name value r = not (r.name == name) || r.value == value

module _ (name value : String) where
  rewritten-says :
      (rows : List AlertSetting)
      → all (says name value) (rewrite (named name) (λ r. record r { value = value }) rows) ≡ true
  unfolding says
  rewritten-says [] = refl
  rewritten-says (r ∷ rows) = ground (arith, rewritten-says rows, eq_iff value value)

  unnamed-says :
      (rows : List AlertSetting)
      → any (named name) rows ≡ false
      → all (says name value) (rows ++ record { name = name; value = value } ∷ []) ≡ true
  unfolding says
  unnamed-says [] h = ground (arith, eq_iff value value)
  unnamed-says (r ∷ rows) h = ground (arith, h, unnamed-says rows)

  pub upsert_setting-says :
      (rows : List AlertSetting) → all (says name value) (upsert_setting name value rows) ≡ true
  unfolding upsert_setting
  upsert_setting-says rows = elim (Bool-cases (any (named name) rows)) [
    | inl e ↦ rw (e) (rewritten-says rows)
    | inr e ↦ rw (e) (unnamed-says rows e)
  ]

module _ (name value other value' : String) (apart : (name == other) ≡ false) where
  pub upsert_setting-says_other :
      (rows : List AlertSetting)
      → all (says other value') rows ≡ true
      → all (says other value') (upsert_setting name value rows) ≡ true
  unfolding upsert_setting says
  upsert_setting-says_other rows h = elim (Bool-cases (any (named name) rows)) [
    | inl e ↦ rw (e) (rewritten rows h)
    | inr e ↦ rw (e) (appended rows h)
  ]
    where
      rewritten :
          (rs : List AlertSetting)
          → all (says other value') rs ≡ true
          → all (says other value') (rewrite (named name) (λ r. record r { value = value }) rs)
            ≡ true
      rewritten [] h = refl
      rewritten (r ∷ rs) h =
          ground (arith, h, rewritten rs, apart, eq_iff r.name name, eq_iff name other)

      appended :
          (rs : List AlertSetting)
          → all (says other value') rs ≡ true
          → all (says other value') (rs ++ record { name = name; value = value } ∷ []) ≡ true
      appended [] h = ground (arith, apart)
      appended (r ∷ rs) h = ground (arith, h, appended rs)

any-rewrite_value :
    (name other value : String) (rows : List AlertSetting)
    → any (named other) rows ≡ true
    → any (named other) (rewrite (named name) (λ r. record r { value = value }) rows) ≡ true
any-rewrite_value name other value [] h = h
any-rewrite_value name other value (r ∷ rows) h =
    ground (arith, h, any-rewrite_value name other value rows)

pub upsert_setting-named :
    (name value : String) (rows : List AlertSetting)
    → any (named name) (upsert_setting name value rows) ≡ true
unfolding upsert_setting
upsert_setting-named name value rows = elim (Bool-cases (any (named name) rows)) [
  | inl e ↦ rw (e) (any-rewrite_value name name value rows e)
  | inr e ↦ rw (e, any-append (named name) rows) ground (arith, eq_iff name name)
]

pub upsert_setting-named_other :
    (name value other : String) (rows : List AlertSetting)
    → any (named other) rows ≡ true
    → any (named other) (upsert_setting name value rows) ≡ true
unfolding upsert_setting
upsert_setting-named_other name value other rows h = elim (Bool-cases (any (named name) rows)) [
  | inl e ↦ rw (e) (any-rewrite_value name other value rows h)
  | inr e ↦ rw (e, any-append (named other) rows) ground (arith, h)
]
