-- ===== src/Setup/Load.antt =====
-- loadMetaState of metastate.go: the start of a process fills its atomics from the meta table.
use statusnook.Prelude.{
  Bool, List, Option, String, [], if◌then◌else◌, nat_eq, none, some, string_eq, ◌==◌, ◌∷◌,
}
use statusnook.Setup.Meta.{MetaState, SetupTables, set_meta, text_or_empty, upsert, value_of}

-- Which reads and writes of a key fail, and rand.Read's bytes, base64 encoded.
pub record StartEnv : Type 0 where
  pub read_fails : String → Bool
  pub write_fails : String → Bool
  pub random : Option String

-- The rest of a function that has returned its error, or goes on.
abbrev pub and_then : {A B : Type 0} → Option A → (A → Option B) → Option B
and_then none f = none
and_then (some a) f = f a

abbrev pub MetaField : Type 0
MetaField = String × (String → MetaState → MetaState)

-- The table of loadMetaState's loop.
abbrev pub meta_fields : List MetaField
meta_fields =
    ("setup", λ v m. record m { setup = v })
    ∷ ("name", λ v m. record m { name = v })
    ∷ ("domain", λ v m. record m { domain = v })
    ∷ ("unconfirmedDomain", λ v m. record m { unconfirmed_domain = v })
    ∷ ("unconfirmedDomainProblem", λ v m. record m { unconfirmed_domain_problem = v })
    ∷ ("configFileEnabled", λ v m. record m { config_file_enabled = v == "true" })
    ∷ []

module _ (env : StartEnv) where
  unfoldable pub read_meta : String → SetupTables → Option (Option String)
  unfolding value_of
  read_meta key t = if env.read_fails key then none else some (value_of key t.meta)

  unfoldable pub write_meta : String → String → SetupTables → Option SetupTables
  unfolding upsert
  write_meta key value t = if env.write_fails key then none else some (set_meta key value t)

  unfoldable pub load_fields : List MetaField → SetupTables → MetaState → Option MetaState
  unfolding read_meta
  load_fields [] t m = some m
  load_fields (field ∷ fields) t m =
      and_then (read_meta field.0 t)
        (λ value. load_fields fields t (field.1 (text_or_empty value) m))

  unfoldable pub load_ssl : String → SetupTables → MetaState → Option (SetupTables × MetaState)
  unfolding read_meta write_meta
  load_ssl ssl_default t m = and_then (read_meta "ssl" t) (λ value. elim value [
    | none ↦
        and_then (write_meta "ssl" ssl_default t) λ t'. some (t', record m { ssl = ssl_default })
    | some ssl ↦ some (t, record m { ssl = ssl })
  ])

  -- The key that signs what the instance hands out is generated once.
  unfoldable pub load_key : SetupTables → Option SetupTables
  unfolding read_meta write_meta
  load_key t = and_then (read_meta "secretKey" t) (λ value. elim value [
    | none ↦ and_then env.random λ key. write_meta "secretKey" key t
    | some _ ↦ some t
  ])

  unfoldable pub load_meta_state :
      String → SetupTables → MetaState → Option (SetupTables × MetaState)
  unfolding load_fields load_ssl load_key
  load_meta_state ssl_default t m = and_then (load_fields meta_fields t m) λ m'.
      and_then (load_ssl ssl_default t m')
        λ loaded. and_then (load_key loaded.0) λ t'. some (t', loaded.1)
