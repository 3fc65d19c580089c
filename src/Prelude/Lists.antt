-- ===== src/Prelude/Lists.antt =====
-- Lists over the native numbers: tests, filters and updates by clauses, and their laws.
use Prim.Native.Nat.{ℕ, zero, suc, ◌+◌, ◌≤◌}
use mathlib.Core.Path.{◌≡◌, refl}
use mathlib.Core.Bool.{Bool, true, false, ◌&&◌, ◌||◌}
use mathlib.Core.Option.{Option, none, some}
use mathlib.Core.List.{List, [], ◌∷◌, ◌++◌}
use native.Mathlib.Omega.{arith}
use statusnook.Prelude.Tests.{if◌then◌else◌}

module _ {ℓ} {A : Type ℓ} where
  abbrev pub length : List A → ℕ
  length [] = 0
  length (x ∷ xs) = suc (length xs)

  abbrev pub take : ℕ → List A → List A
  take zero xs = []
  take (suc n) [] = []
  take (suc n) (x ∷ xs) = x ∷ take n xs

  abbrev pub any : (A → Bool) → List A → Bool
  any p [] = false
  any p (x ∷ xs) = p x || any p xs

  abbrev pub all : (A → Bool) → List A → Bool
  all p [] = true
  all p (x ∷ xs) = p x && all p xs

  -- The rows that pass a test (`where`), and the first of them.
  abbrev pub keep : (A → Bool) → List A → List A
  keep p [] = []
  keep p (x ∷ xs) = if p x then x ∷ keep p xs else keep p xs

  abbrev pub find : (A → Bool) → List A → Option A
  find p [] = none
  find p (x ∷ xs) = if p x then some x else find p xs

  -- `update … set … where …`: the rows that pass the test are rewritten in place.
  abbrev pub rewrite : (A → Bool) → (A → A) → List A → List A
  rewrite p f [] = []
  rewrite p f (x ∷ xs) = (if p x then f x else x) ∷ rewrite p f xs

  -- A predicate on every element, by recursion.
  abbrev pub All {κ} : (A → Type κ) → List A → Type κ
  All P [] = Unit
  All P (x ∷ xs) = P x × All P xs

  pub length-append : (xs ys : List A) → length (xs ++ ys) ≡ length xs + length ys
  length-append [] ys = omega arith
  length-append (x ∷ xs) ys = omega (arith, length-append xs ys)

  pub any-append : (p : A → Bool) (xs ys : List A) → any p (xs ++ ys) ≡ (any p xs || any p ys)
  any-append p [] ys = refl
  any-append p (x ∷ xs) ys = ground (arith, any-append p xs ys)

  pub any-keep_not :
      (p q : A → Bool)
      → ((x : A) → q x ≡ true → p x ≡ false)
      → (xs : List A) → any p (keep q xs) ≡ false
  any-keep_not p q h [] = refl
  any-keep_not p q h (x ∷ xs) = ground (arith, h x, any-keep_not p q h xs)

  pub length-keep_le : (p : A → Bool) (xs : List A) → length (keep p xs) ≤ length xs
  length-keep_le p [] = omega arith
  length-keep_le p (x ∷ xs) = ground (arith, length-keep_le p xs)

  -- Dropping elements that a test does not look for.
  pub find-keep :
      (p q : A → Bool)
      → ((x : A) → p x ≡ true → q x ≡ true)
      → (xs : List A) → find p (keep q xs) ≡ find p xs
  find-keep p q h [] = refl
  find-keep p q h (x ∷ xs) = ground (arith, h x, find-keep p q h xs)

  pub keep-keep :
      (p q : A → Bool)
      → ((x : A) → p x ≡ true → q x ≡ true)
      → (xs : List A) → keep p (keep q xs) ≡ keep p xs
  keep-keep p q h [] = refl
  keep-keep p q h (x ∷ xs) = ground (arith, h x, keep-keep p q h xs)

  -- An update of rows that the filter drops, before and after.
  pub keep-rewrite :
      (p q : A → Bool) (f : A → A)
      → ((x : A) → q x ≡ true → (p x ≡ false) × (p (f x) ≡ false))
      → (xs : List A) → keep p (rewrite q f xs) ≡ keep p xs
  keep-rewrite p q f h [] = refl
  keep-rewrite p q f h (x ∷ xs) = ground (arith, h x, keep-rewrite p q f h xs)

  pub keep-snoc :
      (p : A → Bool) (x : A) → p x ≡ false → (xs : List A) → keep p (xs ++ x ∷ []) ≡ keep p xs
  keep-snoc p x e [] = ground (arith, e)
  keep-snoc p x e (y ∷ xs) = ground (arith, keep-snoc p x e xs)

  pub find-snoc :
      (p : A → Bool) (x : A)
      → p x ≡ true
      → (xs : List A) → any p xs ≡ false
      → find p (xs ++ x ∷ []) ≡ some x
  find-snoc p x e [] h = ground (arith, e)
  find-snoc p x e (y ∷ xs) h = ground (arith, h, find-snoc p x e xs)

  -- The first of the rows that an update wrote.
  abbrev pub found : (A → Bool) → Option A → Bool
  found g none = false
  found g (some x) = g x

  pub found-find-rewrite :
      (p g : A → Bool) (f : A → A)
      → ((x : A) → p (f x) ≡ p x)
      → ((x : A) → g (f x) ≡ true)
      → (xs : List A) → any p xs ≡ true
      → found g (find p (rewrite p f xs)) ≡ true
  found-find-rewrite p g f same h [] e = ground (arith, e)
  found-find-rewrite p g f same h (x ∷ xs) e = go (p x) refl (found-find-rewrite p g f same h xs)
    where
      go :
          (b : Bool)
          → p x ≡ b
          → (any p xs ≡ true → found g (find p (rewrite p f xs)) ≡ true)
          → found g (find p ((if b then f x else x) ∷ rewrite p f xs)) ≡ true
      go true a k = ground (arith, a, same x, h x)
      go false a k = ground (arith, a, e, k)

  -- An update after which a test finds nothing.
  pub find-rewrite-none :
      (q p : A → Bool) (f : A → A)
      → ((x : A) → q x ≡ true → p x ≡ true)
      → ((x : A) → q (f x) ≡ false)
      → (xs : List A) → find q (rewrite p f xs) ≡ none
  find-rewrite-none q p f h gone [] = refl
  find-rewrite-none q p f h gone (x ∷ xs) =
      ground (arith, h x, gone x, find-rewrite-none q p f h gone xs)
