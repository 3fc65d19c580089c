-- ===== src/Setup/LoadLaws.antt =====
-- What a started process holds.
use statusnook.Prelude.{
  Bool, List, Option, String, [], ap, arith, eq_iff, false, if◌then◌else◌, nat_eq, none, refl, some,
  string_eq, sym, true, ◌==◌, ◌∙◌, ◌∷◌, ◌≡◌,
}
use statusnook.Setup.Meta.{
  MetaState, SetupTables, meta_text, set_meta, text_or_empty, value_of, value_of-upsert,
}
use statusnook.Setup.Load.{
  MetaField, StartEnv, and_then, load_fields, load_key, load_meta_state, load_ssl, meta_fields,
  read_meta, write_meta,
}

-- What a function establishes when it returns no error.
abbrev pub Loads : {A : Type 0} → (A → Type 0) → Option A → Type 0
Loads Q none = Unit
Loads Q (some a) = Q a

Loads-and_then :
    {A B : Type 0} {P : A → Type 0} (Q : B → Type 0) (o : Option A) (f : A → Option B)
    → Loads P o
    → ((a : A) → P a → Loads Q (f a))
    → Loads Q (and_then o f)
Loads-and_then Q none f h k = tt
Loads-and_then Q (some a) f h k = k a h

Loads-weaken :
    {A : Type 0} {P Q : A → Type 0} (o : Option A) → Loads P o → ((a : A) → P a → Q a) → Loads Q o
Loads-weaken none h k = tt
Loads-weaken (some a) h k = k a h

Loads-any : {A : Type 0} (o : Option A) → Loads (λ _. Unit {0}) o
Loads-any none = tt
Loads-any (some a) = tt

abbrev pub has_value : String → SetupTables → Bool
has_value key t = elim (value_of key t.meta) [ none ↦ false | some _ ↦ true ]

-- The tables with a value for the key, which has changed only where there was none.
record Settled (key : String) (t t' : SetupTables) : Type 0 where
  pub held : has_value key t' ≡ true
  pub kept :
      (other : String) → has_value other t ≡ true → value_of other t'.meta ≡ value_of other t.meta
  pub others :
      (other : String) → (key == other) ≡ false → value_of other t'.meta ≡ value_of other t.meta
  pub auth : t'.auth ≡ t.auth

value_of-set_meta :
    (key value : String) (t : SetupTables) → value_of key (set_meta key value t).meta ≡ some value
value_of-set_meta key value t =
    value_of-upsert key key value t.meta
    ∙ ap (λ b. if b then some value else value_of key t.meta) (same key)
  where
    same : (k : String) → (k == k) ≡ true
    same k = ground (arith, eq_iff k k)

none-Settled :
    (key value : String) (t : SetupTables)
    → value_of key t.meta ≡ none
    → Settled key t (set_meta key value t)
none-Settled key value t none_held = record {
  held = rw (has_value, value_of-set_meta key value t) refl;
  kept = λ other h. value_of-upsert key other value t.meta ∙ go other h (key == other) refl;
  others = λ other e. value_of-upsert key other value t.meta ∙ rw (e) refl;
  auth = refl;
}
  where
    go :
        (other : String)
        → has_value other t ≡ true
        → (b : Bool) → (key == other) ≡ b
        → (if b then some value else value_of other t.meta) ≡ value_of other t.meta
    go other h true e = ground (arith, e, h, none_held, eq_iff key other)
    go other h false e = refl

some-Settled :
    (key value : String) (t : SetupTables) → value_of key t.meta ≡ some value → Settled key t t
some-Settled key value t e = record {
  held = rw (has_value, e) refl;
  kept = λ other h. refl;
  others = λ other h. refl;
  auth = refl;
}

-- What loadMetaState leaves in the atomics.
abbrev pub memory_of : SetupTables → MetaState
memory_of t = record {
  setup = meta_text "setup" t;
  name = meta_text "name" t;
  domain = meta_text "domain" t;
  unconfirmed_domain = meta_text "unconfirmedDomain" t;
  unconfirmed_domain_problem = meta_text "unconfirmedDomainProblem" t;
  config_file_enabled = meta_text "configFileEnabled" t == "true";
  ssl = meta_text "ssl" t;
}

-- A started process: its memory is the table's, which has the two generated values; a value that
-- was there before is still the same.
pub record Started (t t' : SetupTables) (m : MetaState) : Type 0 where
  pub memory : m ≡ memory_of t'
  pub has_ssl : has_value "ssl" t' ≡ true
  pub has_key : has_value "secretKey" t' ≡ true
  pub kept : (key : String) → has_value key t ≡ true → value_of key t'.meta ≡ value_of key t.meta
  pub auth : t'.auth ≡ t.auth

unfoldable pub store_all : List MetaField → SetupTables → MetaState → MetaState
store_all [] t m = m
store_all (field ∷ fields) t m = store_all fields t (field.1 (meta_text field.0 t) m)

-- The three parts of loadMetaState, put together.
Settled-Started :
    (t t₁ t' : SetupTables) (m m' m₁ : MetaState)
    → m' ≡ store_all meta_fields t m
    → Settled "ssl" t t₁
    → m₁ ≡ record m' { ssl = meta_text "ssl" t₁ }
    → Settled "secretKey" t₁ t'
    → Started t t' m₁
unfolding store_all
Settled-Started t t₁ t' m m' m₁ stored ssl loaded key = record {
  memory = loaded ∙ ap (λ (x : MetaState). record x { ssl = meta_text "ssl" t₁ }) stored ∙ λ i.
      record {
        setup = carried "setup" refl refl i;
        name = carried "name" refl refl i;
        domain = carried "domain" refl refl i;
        unconfirmed_domain = carried "unconfirmedDomain" refl refl i;
        unconfirmed_domain_problem = carried "unconfirmedDomainProblem" refl refl i;
        config_file_enabled = carried "configFileEnabled" refl refl i == "true";
        ssl = text_or_empty (sym (key.others "ssl" refl) i);
      };
  has_ssl = rw (has_value, key.others "ssl" refl) ssl.held;
  has_key = key.held;
  kept = λ other h. key.kept other (rw (has_value, ssl.kept other h) h) ∙ ssl.kept other h;
  auth = key.auth ∙ ssl.auth;
}
  where
    carried :
        (name : String)
        → ("ssl" == name) ≡ false
        → ("secretKey" == name) ≡ false
        → meta_text name t ≡ meta_text name t'
    carried name p q = ap text_or_empty (sym (key.others name q ∙ ssl.others name p))

module _ (env : StartEnv) where
  read_meta-reads :
      (key : String) (t : SetupTables)
      → Loads (λ value. value ≡ value_of key t.meta) (read_meta env key t)
  unfolding read_meta
  read_meta-reads key t = go (env.read_fails key)
    where
      go :
          (b : Bool)
          → Loads
              (λ value. value ≡ value_of key t.meta)
              (if b then none else some (value_of key t.meta))
      go true = tt
      go false = refl

  write_meta-Settled :
      (key value : String) (t : SetupTables)
      → value_of key t.meta ≡ none
      → Loads
          (λ t'. Settled key t t' × (value_of key t'.meta ≡ some value))
          (write_meta env key value t)
  unfolding write_meta
  write_meta-Settled key value t e = go (env.write_fails key)
    where
      go :
          (b : Bool)
          → Loads
              (λ t'. Settled key t t' × (value_of key t'.meta ≡ some value))
              (if b then none else some (set_meta key value t))
      go true = tt
      go false = (none-Settled key value t e, value_of-set_meta key value t)

  load_fields-stores :
      (fields : List MetaField) (t : SetupTables) (m : MetaState)
      → Loads (λ m'. m' ≡ store_all fields t m) (load_fields env fields t m)
  unfolding load_fields store_all
  load_fields-stores [] t m = refl
  load_fields-stores (field ∷ fields) t m =
      Loads-and_then _ (read_meta env field.0 t) _ (read_meta-reads field.0 t)
        λ value e. rw (e) (load_fields-stores fields t (field.1 (meta_text field.0 t) m))

  load_key-Settled : (t : SetupTables) → Loads (Settled "secretKey" t) (load_key env t)
  unfolding load_key
  load_key-Settled t =
      Loads-and_then _ (read_meta env "secretKey" t) _ (read_meta-reads "secretKey" t) go
    where
      go :
          (value : Option String)
          → value ≡ value_of "secretKey" t.meta
          → Loads (Settled "secretKey" t) (elim value [
            | none ↦ and_then env.random λ key. write_meta env "secretKey" key t
            | some _ ↦ some t
          ])
      go none e = Loads-and_then {P = λ _. Unit} _ env.random _ (Loads-any env.random) λ key _.
          Loads-weaken (write_meta env "secretKey" key t)
            (write_meta-Settled "secretKey" key t (sym e)) λ t' h. h.0
      go (some value) e = some-Settled "secretKey" value t (sym e)

  load_ssl-Settled :
      (ssl_default : String) (t : SetupTables) (m : MetaState)
      → Loads
          (λ (x : SetupTables × MetaState).
            Settled "ssl" t x.0 × (x.1 ≡ record m { ssl = meta_text "ssl" x.0 }))
          (load_ssl env ssl_default t m)
  unfolding load_ssl
  load_ssl-Settled ssl_default t m =
      Loads-and_then _ (read_meta env "ssl" t) _ (read_meta-reads "ssl" t) go
    where
      go :
          (value : Option String)
          → value ≡ value_of "ssl" t.meta
          → Loads {A = SetupTables × MetaState}
              (λ x. Settled "ssl" t x.0 × (x.1 ≡ record m { ssl = meta_text "ssl" x.0 }))
              (elim value [
                | none ↦
                    and_then
                      (write_meta env "ssl" ssl_default t)
                      λ t'. some (t', record m { ssl = ssl_default })
                | some ssl ↦ some (t, record m { ssl = ssl })
              ])
      go none e =
          Loads-and_then _ (write_meta env "ssl" ssl_default t) _
            (write_meta-Settled "ssl" ssl_default t (sym e))
            λ t' h. (h.0, ap (λ v. record m { ssl = text_or_empty v }) (sym h.1))
      go (some value) e =
          (some-Settled "ssl" value t (sym e), ap (λ v. record m { ssl = text_or_empty v }) e)

  pub load_meta_state-Loads :
      (ssl_default : String) (t : SetupTables) (m : MetaState)
      → Loads
          (λ (x : SetupTables × MetaState). Started t x.0 x.1)
          (load_meta_state env ssl_default t m)
  unfolding load_meta_state
  load_meta_state-Loads ssl_default t m =
      Loads-and_then _ (load_fields env meta_fields t m) _ (load_fields-stores meta_fields t m)
        λ m' stored.
          Loads-and_then _ (load_ssl env ssl_default t m') _ (load_ssl-Settled ssl_default t m')
            λ loaded ssl.
              Loads-and_then _ (load_key env loaded.0) _ (load_key-Settled loaded.0)
                λ t' key. Settled-Started t loaded.0 t' m m' loaded.1 stored ssl.0 ssl.1 key
