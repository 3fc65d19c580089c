-- ===== src/Retention/PruneLaws.antt =====
-- What the batches leave, and that they end.
use statusnook.Prelude.{
  Bool, List, [], arith, false, keep, length, not, refl, suc, true, zero, ℕ, ◌+◌, ◌-◌, ◌<◌, ◌∷◌,
  ◌≡◌, ◌≤◌,
}
use statusnook.Retention.Prune.{delete_batch, prune, retention_batch_size}

module _ {A : Type 0} (is_old : A → Bool) where
  abbrev pub is_recent : A → Bool
  is_recent x = not (is_old x)

  delete_batch-keep_recent :
      (limit : ℕ) (xs : List A) → keep is_recent (delete_batch is_old limit xs) ≡ keep is_recent xs
  unfolding delete_batch
  delete_batch-keep_recent limit [] = refl
  delete_batch-keep_recent limit (x ∷ xs) =
      ground (arith, delete_batch-keep_recent limit xs, delete_batch-keep_recent (limit - 1) xs)

  delete_batch-length :
      (limit : ℕ) (xs : List A) → length (delete_batch is_old limit xs) ≤ length xs
  unfolding delete_batch
  delete_batch-length limit [] = omega arith
  delete_batch-length limit (x ∷ xs) =
      ground (arith, delete_batch-length limit xs, delete_batch-length (limit - 1) xs)

  -- A batch that is not full has deleted every old row.
  delete_batch-last :
      (limit : ℕ) (xs : List A)
      → length xs - length (delete_batch is_old limit xs) < limit
      → delete_batch is_old limit xs ≡ keep is_recent xs
  unfolding delete_batch
  delete_batch-last limit [] h = refl
  delete_batch-last limit (x ∷ xs) h = ground (
    arith,
    delete_batch-last limit xs,
    delete_batch-last (limit - 1) xs,
    delete_batch-length limit xs,
    delete_batch-length (limit - 1) xs,
  )

  -- Pruning a table never deletes a row that is not old, whichever database calls fail and however
  -- many turns it takes: the rows that are not old are the same ones before and after, in order.
  pub prune-keeps_recent :
      (fails : ℕ → Bool) (fuel calls : ℕ) (rows : List A)
      → keep is_recent (prune is_old fails fuel calls rows).rows ≡ keep is_recent rows
  unfolding prune
  prune-keeps_recent fails zero calls rows = refl
  prune-keeps_recent fails (suc fuel) calls rows = ground (
    arith,
    delete_batch-keep_recent retention_batch_size rows,
    prune-keeps_recent fails fuel (calls + 3) (delete_batch is_old retention_batch_size rows),
  )

  prune-ended :
      (fails : ℕ → Bool) (fuel calls : ℕ) (rows : List A)
      → length rows < fuel
      → (prune is_old fails fuel calls rows).ended ≡ true
  unfolding prune
  prune-ended fails zero calls rows h = ground arith
  prune-ended fails (suc fuel) calls rows h =
      let left = delete_batch is_old retention_batch_size rows in
      ground (
        arith,
        delete_batch-length retention_batch_size rows,
        prune-ended fails fuel (calls + 3) left,
      )

  prune-keep :
      (fails : ℕ → Bool) (fuel calls : ℕ) (rows : List A)
      → ((n : ℕ) → fails n ≡ false)
      → length rows < fuel
      → (prune is_old fails fuel calls rows).rows ≡ keep is_recent rows
  unfolding prune
  prune-keep fails zero calls rows ok_calls h = ground arith
  prune-keep fails (suc fuel) calls rows ok_calls h =
      let left = delete_batch is_old retention_batch_size rows in
      ground (
        arith,
        ok_calls calls,
        ok_calls (calls + 1),
        ok_calls (calls + 2),
        delete_batch-keep_recent retention_batch_size rows,
        delete_batch-last retention_batch_size rows,
        delete_batch-length retention_batch_size rows,
        prune-keep fails fuel (calls + 3) left ok_calls,
      )

  -- The loop of a table returns within one turn more than the table has rows, whichever database
  -- calls fail; and when none fails it leaves the rows that are not old and no other.
  pub prune-ends :
      (fails : ℕ → Bool) (fuel calls : ℕ) (rows : List A)
      → length rows < fuel
      → ((prune is_old fails fuel calls rows).ended ≡ true)
        × (((n : ℕ) → fails n ≡ false)
            → (prune is_old fails fuel calls rows).rows ≡ keep is_recent rows)
  prune-ends fails fuel calls rows h =
      (prune-ended fails fuel calls rows h, λ quiet. prune-keep fails fuel calls rows quiet h)
