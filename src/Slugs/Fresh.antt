-- ===== src/Slugs/Fresh.antt =====
-- generateSlug ends, and with a slug that is not in use.
use text.Mathlib.TextLemmas.{append-nil, append_cancel_left, length-append as count-append}
use Prim.Native.String.{count}
use mathlib.Core.Path.{subst}
use statusnook.Prelude.{
  Bool, Bool-cases, List, Option, String, [], all, ap, arith, eq_iff, false, inl, inr, keep, length,
  length-keep_le, ltb, nat_eq, not, refl, some, string_eq, suc, sym, true, zero, ℕ, ◌&&◌, ◌+◌, ◌<◌,
  ◌==◌, ◌∙◌, ◌∷◌, ◌≡◌, ◌≤◌, ◌⊎◌,
}
use statusnook.Slugs.Generate.{
  Unicode, candidate, generate_slug, has, is_empty, search_slug, slug_base,
}
use statusnook.Text.{codes, concat}
use statusnook.Slugs.Decimal.{itoa, itoa-injective}

unfoldable pub has_all : List String → List String → Bool
has_all slugs xs = all (λ x. has slugs x) xs

unfoldable pub distinct : List String → Bool
distinct [] = true
distinct (x ∷ xs) = not (has xs x) && distinct xs

length-keep_lt :
    (x : String) (ys : List String)
    → has ys x ≡ true
    → length (keep (λ y. not (y == x)) ys) < length ys
length-keep_lt x [] h = ground (arith, h)
length-keep_lt x (y ∷ ys) h =
    ground (arith, h, length-keep_lt x ys, length-keep_le (λ y. not (y == x)) ys)

has-keep :
    (x z : String) (ys : List String)
    → has ys z ≡ true
    → (x == z) ≡ false
    → has (keep (λ y. not (y == x)) ys) z ≡ true
has-keep x z [] h e = ground (arith, h)
has-keep x z (y ∷ ys) h e =
    ground (arith, h, e, has-keep x z ys, eq_iff x z, eq_iff y x, eq_iff y z)

has_all-keep :
    (x : String) (ys xs : List String)
    → has_all ys xs ≡ true
    → has xs x ≡ false
    → has_all (keep (λ y. not (y == x)) ys) xs ≡ true
unfolding has_all
has_all-keep x ys [] h e = refl
has_all-keep x ys (z ∷ xs) h e =
    ground (arith, h, e, has-keep x z ys, has_all-keep x ys xs, eq_iff x z, eq_iff z x)

-- Distinct texts of a list are no more than the list has.
length-distinct :
    (xs ys : List String) → distinct xs ≡ true → has_all ys xs ≡ true → length xs ≤ length ys
unfolding distinct has_all
length-distinct [] ys d h = omega arith
length-distinct (x ∷ xs) ys d h = ground (
  arith,
  d,
  h,
  length-keep_lt x ys,
  has_all-keep x ys xs,
  length-distinct xs (keep (λ y. not (y == x)) ys),
)

concat_cancel : (s t u : String) → concat s t ≡ concat s u → t ≡ u
concat_cancel = append_cancel_left

-- Two attempts never try one slug.
candidate-injective : (base : String) (a b : ℕ) → candidate base a ≡ candidate base b → a ≡ b
unfolding candidate
candidate-injective base a b =
    go (Bool-cases (is_empty base)) (Bool-cases (ltb 0 a)) (Bool-cases (ltb 0 b))
  where
    longer : (n : ℕ) → base ≡ concat base (concat "-" (itoa n)) → ⊥
    longer n e = absurd (omega (arith, ap count nothing, count-append "-" (itoa n)))
      where
        nothing : "" ≡ concat "-" (itoa n)
        nothing = append_cancel_left base "" (concat "-" (itoa n)) (append-nil base ∙ e)

    suffixed : concat base (concat "-" (itoa a)) ≡ concat base (concat "-" (itoa b)) → a ≡ b
    suffixed e =
        itoa-injective a b
          (ap codes (concat_cancel "-" (itoa a) (itoa b) (concat_cancel base _ _ e)))

    Goal : Type 0
    Goal = candidate base a ≡ candidate base b → a ≡ b

    go :
        (is_empty base ≡ true) ⊎ (is_empty base ≡ false)
        → (ltb 0 a ≡ true) ⊎ (ltb 0 a ≡ false)
        → (ltb 0 b ≡ true) ⊎ (ltb 0 b ≡ false)
        → Goal
    go (inl e) x y = rw (e) (λ h. itoa-injective a b (ap codes h))
    go (inr e) (inl x) (inl y) = rw (e, x, y) suffixed
    go (inr e) (inl x) (inr y) = rw (e, x, y) (λ h. absurd (longer a (sym h)))
    go (inr e) (inr x) (inl y) = rw (e, x, y) (λ h. absurd (longer b h))
    go (inr e) (inr x) (inr y) = λ h. ground (arith, x, y)

-- The slugs of `n` attempts.
abbrev pub tried : String → ℕ → ℕ → List String
tried base attempt zero = []
tried base attempt (suc n) = candidate base attempt ∷ tried base (suc attempt) n

length-tried : (base : String) (a n : ℕ) → length (tried base a n) ≡ n
length-tried base a zero = refl
length-tried base a (suc n) = omega (arith, length-tried base (suc a) n)

has-tried : (base : String) (a b n : ℕ) → a < b → has (tried base b n) (candidate base a) ≡ false
has-tried base a b zero h = refl
has-tried base a b (suc n) h = ground (
  arith,
  h,
  has-tried base a (suc b) n,
  eq_iff (candidate base b) (candidate base a),
  candidate-injective base a b,
  candidate-injective base b a,
)

distinct-tried : (base : String) (a n : ℕ) → distinct (tried base a n) ≡ true
unfolding distinct
distinct-tried base a zero = refl
distinct-tried base a (suc n) =
    ground (arith, has-tried base a (suc a) n, distinct-tried base (suc a) n)

-- The slug that the loop ends with: the first attempt that is not in use.
pub record FirstFree (base : String) (slugs : List String) (from fuel : ℕ) (found : Option String)
    : Type 0 where
  pub attempts : ℕ
  pub bound : attempts < fuel
  pub is_found : found ≡ some (candidate base (from + attempts))
  pub unused : has slugs (candidate base (from + attempts)) ≡ false
  pub earlier : has_all slugs (tried base from attempts) ≡ true

search_slug-FirstFree :
    (base : String) (slugs : List String) (fuel from : ℕ)
    → FirstFree base slugs from fuel (search_slug fuel base slugs from)
      ⊎ (has_all slugs (tried base from fuel) ≡ true)
unfolding search_slug has_all
search_slug-FirstFree base slugs zero from = inr refl
search_slug-FirstFree base slugs (suc fuel) from =
    go (Bool-cases (has slugs (candidate base from)))
      (search_slug-FirstFree base slugs fuel (from + 1))
  where
    zero_more : from + 0 ≡ from
    zero_more = omega arith

    one_more : (n : ℕ) → from + 1 + n ≡ from + suc n
    one_more n = omega arith

    shift :
        (n : ℕ)
        → has_all slugs (tried base (from + 1) n) ≡ true
        → has_all slugs (tried base (suc from) n) ≡ true
    shift n h = subst (λ m. has_all slugs (tried base m n) ≡ true) (omega arith) h

    go :
        (has slugs (candidate base from) ≡ true) ⊎ (has slugs (candidate base from) ≡ false)
        → FirstFree base slugs (from + 1) fuel (search_slug fuel base slugs (from + 1))
          ⊎ (has_all slugs (tried base (from + 1) fuel) ≡ true)
        → FirstFree base slugs from (suc fuel) (search_slug (suc fuel) base slugs from)
          ⊎ (has_all slugs (tried base from (suc fuel)) ≡ true)
    go (inr e) k = rw (e) (
        inl (record {
          attempts = 0;
          bound = omega arith;
          is_found = ap (λ n. some (candidate base n)) (sym zero_more);
          unused = ap (λ n. has slugs (candidate base n)) zero_more ∙ e;
          earlier = refl;
        }))
    go (inl e) (inl f) = rw (e) (
        inl (record {
          attempts = suc f.attempts;
          bound = omega (arith, f.bound);
          is_found = f.is_found ∙ ap (λ n. some (candidate base n)) (one_more f.attempts);
          unused = ap (λ n. has slugs (candidate base n)) (sym (one_more f.attempts)) ∙ f.unused;
          earlier = ground (arith, e, shift f.attempts f.earlier);
        }))
    go (inl e) (inr h) = rw (e) (inr (shift fuel h))

-- The loop of generateSlug ends after at most one attempt more than there are slugs in use,
-- with the first of its candidates that is not in use.
pub generate_slug-FirstFree :
    (unicode : Unicode) (name : String) (slugs : List String)
    → FirstFree
        (slug_base unicode name)
        slugs
        0
        (suc (length slugs))
        (generate_slug unicode name slugs)
unfolding generate_slug
generate_slug-FirstFree unicode name slugs =
    go (search_slug-FirstFree base slugs (suc (length slugs)) 0)
  where
    base : String
    base = slug_base unicode name

    go :
        FirstFree base slugs 0 (suc (length slugs)) (search_slug (suc (length slugs)) base slugs 0)
          ⊎ (has_all slugs (tried base 0 (suc (length slugs))) ≡ true)
        → FirstFree base slugs 0
            (suc (length slugs))
            (search_slug (suc (length slugs)) base slugs 0)
    go (inl f) = f
    go (inr h) = absurd (
        omega (
          arith,
          length-tried base 0 (suc (length slugs)),
          length-distinct (tried base 0 (suc (length slugs))) slugs
              (distinct-tried base 0 (suc (length slugs))) h,
        ))
