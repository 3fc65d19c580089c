-- ===== src/Engine.antt =====
-- What the program takes from SQLite without implementing it: the row id that an insert into an
-- `integer primary key` column chooses, and the comparison of `collate nocase` columns.
use statusnook.Prelude.{Bool, List, String, any, false, nat_eq, string_eq, true, ℕ, ◌==◌, ◌≡◌}

-- `fresh ids` is the id of a row inserted into a table that holds `ids`: SQLite documents that it
-- is not in use. `nocase` is documented to hold of equal texts, and to be symmetric.
pub record Engine : Type 0 where
  pub fresh : List ℕ → ℕ
  pub fresh_unused : (ids : List ℕ) → any (λ i. i == fresh ids) ids ≡ false
  pub nocase : String → String → Bool
  pub nocase_refl : (s : String) → nocase s s ≡ true
  pub nocase_sym : (s t : String) → nocase s t ≡ nocase t s
