-- ===== src/Setup/Mirrors.antt =====
-- The order of the wizard's steps, and the memory that mirrors the table after each of its writes.
use statusnook.Prelude.{
  Bool, String, ap, false, if◌then◌else◌, inl, inr, nat_eq, refl, some, string_eq, sym, true, ◌==◌,
  ◌∙◌, ◌≡◌, ◌⊎◌,
}
use statusnook.Setup.Meta.{
  MetaState, SetupTables, meta_text, set_meta, text_or_empty, value_of, value_of-upsert,
}

-- The atomics hold what the table says.
pub record Mirrors (t : SetupTables) (m : MetaState) : Type 0 where
  pub setup : m.setup ≡ meta_text "setup" t
  pub name : m.name ≡ meta_text "name" t
  pub domain : m.domain ≡ meta_text "domain" t
  pub unconfirmed : m.unconfirmed_domain ≡ meta_text "unconfirmedDomain" t

abbrev pub setup_of : SetupTables → String
setup_of t = meta_text "setup" t

-- The wizard's order.
pub data SetupStep : String → String → Type 0 where
  to_account : SetupStep "domain" "account"
  to_name : SetupStep "account" "name"
  to_done : SetupStep "name" "done"

-- What a request to the wizard leaves: the memory mirrors the table, and the step is the same, or
-- the next one; and users change only in the step that makes the account.
pub record Advances (t : SetupTables) (s : SetupTables) (m : MetaState) : Type 0 where
  pub mirrors : Mirrors s m
  pub step : (setup_of s ≡ setup_of t) ⊎ SetupStep (setup_of t) (setup_of s)
  pub users : (s.auth ≡ t.auth) ⊎ ((setup_of t ≡ "account") × (setup_of s ≡ "name"))

meta_text-set :
    (name other value : String) (t : SetupTables)
    → meta_text other (set_meta name value t) ≡ (if name == other then value else meta_text other t)
meta_text-set name other value t =
    ap text_or_empty (value_of-upsert name other value t.meta) ∙ go (name == other)
  where
    go :
        (b : Bool)
        → text_or_empty (if b then some value else value_of other t.meta)
          ≡ (if b then value else meta_text other t)
    go true = refl
    go false = refl

meta_text-set_twice :
    (other name value name' value' : String) (t : SetupTables)
    → meta_text other (set_meta name value (set_meta name' value' t))
      ≡ (if name == other then value else if name' == other then value' else meta_text other t)
meta_text-set_twice other name value name' value' t =
    meta_text-set name other value (set_meta name' value' t)
    ∙ ap (λ x. if name == other then value else x) (meta_text-set name' other value' t)

module _ (t : SetupTables) (m : MetaState) (mirrors : Mirrors t m) where
  pub same : Advances t t m
  same = record { mirrors = mirrors; step = inl refl; users = inl refl }

  pub name-Advances :
      (name : String)
      → setup_of t ≡ "name"
      → Advances t
          (set_meta "setup" "done" (set_meta "name" name t))
          (record m { name = name; setup = "done" })
  name-Advances name at_name = record {
    mirrors = record {
      setup = sym (now "setup");
      name = sym (now "name");
      domain = mirrors.domain ∙ sym (now "domain");
      unconfirmed = mirrors.unconfirmed ∙ sym (now "unconfirmedDomain");
    };
    step = inr (rw (at_name, now "setup") to_done);
    users = inl refl;
  }
    where
      now :
          (other : String)
          → meta_text other (set_meta "setup" "done" (set_meta "name" name t)) ≡ (
              if "setup" == other
              then "done"
              else if "name" == other
              then name
              else meta_text other t)
      now other = meta_text-set_twice other "setup" "done" "name" name t

  pub domain-Advances :
      (domain : String)
      → setup_of t ≡ "domain"
      → Advances t
          (set_meta "setup" "account" (set_meta "domain" domain t))
          (record m { setup = "account"; domain = domain })
  domain-Advances domain at_domain = record {
    mirrors = record {
      setup = sym (now "setup");
      name = mirrors.name ∙ sym (now "name");
      domain = sym (now "domain");
      unconfirmed = mirrors.unconfirmed ∙ sym (now "unconfirmedDomain");
    };
    step = inr (rw (at_domain, now "setup") to_account);
    users = inl refl;
  }
    where
      now :
          (other : String)
          → meta_text other (set_meta "setup" "account" (set_meta "domain" domain t)) ≡ (
              if "setup" == other
              then "account"
              else if "domain" == other
              then domain
              else meta_text other t)
      now other = meta_text-set_twice other "setup" "account" "domain" domain t

  pub skip-Advances :
      (domain : String)
      → setup_of t ≡ "domain"
      → Advances t
          (set_meta "setup" "account" (set_meta "unconfirmedDomain" domain t))
          (record m { setup = "account"; unconfirmed_domain = domain })
  skip-Advances domain at_domain = record {
    mirrors = record {
      setup = sym (now "setup");
      name = mirrors.name ∙ sym (now "name");
      domain = mirrors.domain ∙ sym (now "domain");
      unconfirmed = sym (now "unconfirmedDomain");
    };
    step = inr (rw (at_domain, now "setup") to_account);
    users = inl refl;
  }
    where
      now :
          (other : String)
          → meta_text other (set_meta "setup" "account" (set_meta "unconfirmedDomain" domain t)) ≡ (
              if "setup" == other
              then "account"
              else if "unconfirmedDomain" == other
              then domain
              else meta_text other t)
      now other = meta_text-set_twice other "setup" "account" "unconfirmedDomain" domain t

  pub account-Advances :
      (s : SetupTables)
      → setup_of t ≡ "account"
      → s.meta ≡ t.meta
      → Advances t (set_meta "setup" "name" s) (record m { setup = "name" })
  account-Advances s at_account e = record {
    mirrors = record {
      setup = sym (now "setup");
      name = mirrors.name ∙ sym (now "name");
      domain = mirrors.domain ∙ sym (now "domain");
      unconfirmed = mirrors.unconfirmed ∙ sym (now "unconfirmedDomain");
    };
    step = inr (rw (at_account, now "setup") to_name);
    users = inr (at_account, now "setup");
  }
    where
      now :
          (other : String)
          → meta_text other (set_meta "setup" "name" s)
            ≡ (if "setup" == other then "name" else meta_text other t)
      now other =
          meta_text-set "setup" other "name" s
          ∙ ap (λ rows. if "setup" == other then "name" else text_or_empty (value_of other rows)) e
