-- ===== src/Setup/Meta.antt =====
-- The meta table and its two statements, and the atomics of metastate.go that a process fills from
-- it. The wizard also creates the first user, so the tables of users stand beside it.
use statusnook.Prelude.{
  Bool, List, Option, String, [], arith, eq_iff, if◌then◌else◌, nat_eq, none, refl, some, string_eq,
  ◌==◌, ◌∷◌, ◌≡◌,
}
use statusnook.World.{Answer, err, no_rows, ok, or_error}
use statusnook.Auth.Tables.{AuthTables}

pub record MetaRow : Type 0 where
  pub name : String
  pub value : String

pub record SetupTables : Type 0 where
  pub meta : List MetaRow
  pub auth : AuthTables

pub record MetaState : Type 0 where
  pub setup : String
  pub name : String
  pub domain : String
  pub unconfirmed_domain : String
  pub unconfirmed_domain_problem : String
  pub config_file_enabled : Bool
  pub ssl : String

-- `on conflict(name) do update set value = excluded.value`
unfoldable pub upsert : String → String → List MetaRow → List MetaRow
upsert name value [] = record { name = name; value = value } ∷ []
upsert name value (r ∷ rows) =
    let rest = upsert name value rows in
    if r.name == name then record r { value = value } ∷ rows else r ∷ rest

unfoldable pub value_of : String → List MetaRow → Option String
value_of name [] = none
value_of name (r ∷ rows) =
    let rest = value_of name rows in if r.name == name then some r.value else rest

abbrev pub set_meta : String → String → SetupTables → SetupTables
set_meta name value t = record t { meta = upsert name value t.meta }

-- UpdateMetaValue
unfoldable pub update_meta_value : String → String → SetupTables → Answer SetupTables (Unit {0})
unfolding upsert
update_meta_value name value t = ok tt (set_meta name value t)

abbrev pub text_or_empty : Option String → String
text_or_empty none = ""
text_or_empty (some s) = s

-- A missing row reads as the empty text.
abbrev pub meta_text : String → SetupTables → String
meta_text name t = text_or_empty (value_of name t.meta)

-- GetMetaValue
unfoldable pub get_meta_value : String → SetupTables → Answer SetupTables String
unfolding value_of
get_meta_value name t = or_error no_rows t (value_of name t.meta)

abbrev pub with_auth : {A : Type 0} → SetupTables → Answer AuthTables A → Answer SetupTables A
with_auth t (ok a s) = ok a (record t { auth = s })
with_auth t (err e) = err e

-- A statement on the tables of users.
unfoldable pub on_auth :
    {A : Type 0} → (AuthTables → Answer AuthTables A) → SetupTables → Answer SetupTables A
on_auth statement t = with_auth t (statement t.auth)

pub value_of-upsert :
    (name other value : String) (rows : List MetaRow)
    → value_of other (upsert name value rows)
      ≡ (if name == other then some value else value_of other rows)
unfolding value_of upsert
value_of-upsert name other value [] = refl
value_of-upsert name other value (r ∷ rows) = ground (
  arith,
  eq_iff name other,
  eq_iff r.name name,
  eq_iff r.name other,
  value_of-upsert name other value rows,
)
