-- ===== src/Setup/Restart.antt =====
-- What a second start of the process finds, and that a start without failures gives a process.
use mathlib.Core.Path.{subst}
use statusnook.Prelude.{
  Bool, List, Option, String, [], ap, arith, false, none, refl, some, sym, true, ◌∙◌, ◌∷◌, ◌≡◌,
}
use statusnook.Setup.Meta.{MetaState, SetupTables, meta_text, text_or_empty, value_of}
use statusnook.Setup.Load.{
  MetaField, StartEnv, and_then, load_fields, load_key, load_meta_state, load_ssl, meta_fields,
  read_meta, write_meta,
}
use statusnook.Setup.LoadLaws.{
  Loads, Started, has_value, load_meta_state-Loads, memory_of, store_all,
}

module _ (env : StartEnv) (reads : (key : String) → env.read_fails key ≡ false) where
  load_fields-run :
      (fields : List MetaField) (t : SetupTables) (m : MetaState)
      → load_fields env fields t m ≡ some (store_all fields t m)
  unfolding load_fields store_all read_meta
  load_fields-run [] t m = refl
  load_fields-run (field ∷ fields) t m =
      rw (reads field.0) (load_fields-run fields t (field.1 (meta_text field.0 t) m))

  load_ssl-run :
      (ssl_default : String) (t : SetupTables) (m : MetaState)
      → has_value "ssl" t ≡ true
      → load_ssl env ssl_default t m ≡ some (t, record m { ssl = meta_text "ssl" t })
  unfolding load_ssl read_meta
  load_ssl-run ssl_default t m h = rw (reads "ssl") (go (value_of "ssl" t.meta) h)
    where
      go :
          (value : Option String)
          → elim value [ none ↦ false | some _ ↦ true ] ≡ true
          → ◌≡◌ {A = Option (SetupTables × MetaState)}
              (elim value [
                | none ↦
                    and_then
                      (write_meta env "ssl" ssl_default t)
                      λ t'. some (t', record m { ssl = ssl_default })
                | some ssl ↦ some (t, record m { ssl = ssl })
              ])
              (some (t, record m { ssl = text_or_empty value }))
      go none e = ground (arith, e)
      go (some value) e = refl

  load_key-run : (t : SetupTables) → has_value "secretKey" t ≡ true → load_key env t ≡ some t
  unfolding load_key read_meta
  load_key-run t h = rw (reads "secretKey") (go (value_of "secretKey" t.meta) h)
    where
      go :
          (value : Option String)
          → elim value [ none ↦ false | some _ ↦ true ] ≡ true
          → ◌≡◌ {A = Option SetupTables}
              (elim value [
                | none ↦ and_then env.random λ key. write_meta env "secretKey" key t
                | some _ ↦ some t
              ])
              (some t)
      go none e = ground (arith, e)
      go (some value) e = refl

  load_meta_state-run :
      (ssl_default : String) (t : SetupTables) (m : MetaState)
      → has_value "ssl" t ≡ true
      → has_value "secretKey" t ≡ true
      → load_meta_state env ssl_default t m ≡ some (t, memory_of t)
  unfolding load_meta_state store_all
  load_meta_state-run ssl_default t m has_ssl has_key = rw (load_fields-run meta_fields t m) (
      rw (load_ssl-run ssl_default t (store_all meta_fields t m) has_ssl)
        (rw (load_key-run t has_key) refl))

-- When loadMetaState returns no error, the atomics hold what the table then says, the table
-- has a value of ssl and a secret key, and no value that was there before has changed; and a
-- later start on that table whose reads do not fail finds the same table and the same values,
-- whatever memory, ssl default and random bytes it has.
pub load_meta_state-restart :
    (env env' : StartEnv) (ssl_default ssl_default' : String) (t t' : SetupTables)
    (m m' m₀ : MetaState)
    → load_meta_state env ssl_default t m ≡ some (t', m')
    → ((key : String) → env'.read_fails key ≡ false)
    → Started t t' m' × (load_meta_state env' ssl_default' t' m₀ ≡ some (t', m'))
load_meta_state-restart env env' ssl_default ssl_default' t t' m m' m₀ loaded reads = (
  started,
  load_meta_state-run env' reads ssl_default' t' m₀ started.has_ssl started.has_key
      ∙ ap (λ x. some (t', x)) (sym started.memory),
)
  where
    started : Started t t' m'
    started =
        subst (Loads (λ (x : SetupTables × MetaState). Started t x.0 x.1)) loaded
          (load_meta_state-Loads env ssl_default t m)

abbrev pub succeeds : {A : Type 0} → Option A → Bool
succeeds none = false
succeeds (some a) = true

and_then-succeeds :
    {A B : Type 0} (o : Option A) (f : A → Option B)
    → succeeds o ≡ true
    → ((a : A) → succeeds (f a) ≡ true)
    → succeeds (and_then o f) ≡ true
and_then-succeeds none f h k = ground (arith, h)
and_then-succeeds (some a) f h k = k a

module _ (env : StartEnv) (reads : (key : String) → env.read_fails key ≡ false)
    (writes : (key : String) → env.write_fails key ≡ false)
    (given : succeeds env.random ≡ true) where
  write_meta-succeeds :
      (key value : String) (t : SetupTables) → succeeds (write_meta env key value t) ≡ true
  unfolding write_meta
  write_meta-succeeds key value t = rw (writes key) refl

  load_ssl-succeeds :
      (ssl_default : String) (t : SetupTables) (m : MetaState)
      → succeeds (load_ssl env ssl_default t m) ≡ true
  unfolding load_ssl read_meta
  load_ssl-succeeds ssl_default t m = rw (reads "ssl") (go (value_of "ssl" t.meta))
    where
      go :
          (value : Option String)
          → succeeds {A = SetupTables × MetaState} (elim value [
            | none ↦
                and_then
                  (write_meta env "ssl" ssl_default t)
                  λ t'. some (t', record m { ssl = ssl_default })
            | some ssl ↦ some (t, record m { ssl = ssl })
          ])
            ≡ true
      go none = and_then-succeeds _ _ (write_meta-succeeds "ssl" ssl_default t) λ _. refl
      go (some value) = refl

  load_key-succeeds : (t : SetupTables) → succeeds (load_key env t) ≡ true
  unfolding load_key read_meta
  load_key-succeeds t = rw (reads "secretKey") (go (value_of "secretKey" t.meta))
    where
      go :
          (value : Option String)
          → succeeds (elim value [
            | none ↦ and_then env.random λ key. write_meta env "secretKey" key t
            | some _ ↦ some t
          ])
            ≡ true
      go none = and_then-succeeds env.random _ given λ key. write_meta-succeeds "secretKey" key t
      go (some value) = refl

  succeeds_at :
      (ssl_default : String) (t : SetupTables) (m : MetaState)
      → succeeds (load_meta_state env ssl_default t m) ≡ true
  unfolding load_meta_state
  succeeds_at ssl_default t m = rw (load_fields-run env reads meta_fields t m) (
      and_then-succeeds _ _ (load_ssl-succeeds ssl_default t (store_all meta_fields t m))
        λ loaded. and_then-succeeds _ _ (load_key-succeeds loaded.0) λ _. refl)

  -- When no read and no write fails and rand.Read gives bytes, loadMetaState returns no
  -- error, on any table, and the process it starts holds what the table then says, with a
  -- value of ssl and a secret key.
  pub load_meta_state-starts :
      (ssl_default : String) (t : SetupTables) (m : MetaState)
      → (succeeds (load_meta_state env ssl_default t m) ≡ true)
        × Loads
            (λ (x : SetupTables × MetaState). Started t x.0 x.1)
            (load_meta_state env ssl_default t m)
  load_meta_state-starts ssl_default t m =
      (succeeds_at ssl_default t m, load_meta_state-Loads env ssl_default t m)
