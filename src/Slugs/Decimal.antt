-- ===== src/Slugs/Decimal.antt =====
-- strconv.Itoa of a number that is not negative, and that it is read back.
use Prim.Native.Char.{Char, code}
use statusnook.Prelude.{
  Bool-cases, List, String, ap, arith, false, if◌then◌else◌, inl, inr, leb, ltb, none, refl, some,
  suc, true, zero, ℕ, ◌%◌, ◌&&◌, ◌*◌, ◌+◌, ◌-◌, ◌/◌, ◌<◌, ◌∙◌, ◌∷◌, ◌≡◌, ◌⊎◌,
}
use statusnook.Text.{codes, digits_value}

digit_char : ℕ → Char
digit_char zero = "0"
digit_char (suc zero) = "1"
digit_char (suc (suc zero)) = "2"
digit_char (suc (suc (suc zero))) = "3"
digit_char (suc (suc (suc (suc zero)))) = "4"
digit_char (suc (suc (suc (suc (suc zero))))) = "5"
digit_char (suc (suc (suc (suc (suc (suc zero)))))) = "6"
digit_char (suc (suc (suc (suc (suc (suc (suc zero))))))) = "7"
digit_char (suc (suc (suc (suc (suc (suc (suc (suc zero)))))))) = "8"
digit_char _ = "9"

-- The digits of `n` before `tail`.
digits_before : ℕ → ℕ → String → String
unfolding digit_char
digits_before zero n tail = tail
digits_before (suc fuel) n tail =
    let longer = digits_before fuel (n / 10) (String.◌∷◌ (digit_char (n % 10)) tail) in
    if ltb n 10 then String.◌∷◌ (digit_char n) tail else longer

unfoldable pub itoa : ℕ → String
unfolding digits_before
itoa n = digits_before (suc n) n ""

code-digit_char : (d : ℕ) → d < 10 → code (digit_char d) ≡ 48 + d
unfolding digit_char
code-digit_char zero h = refl
code-digit_char (suc zero) h = refl
code-digit_char (suc (suc zero)) h = refl
code-digit_char (suc (suc (suc zero))) h = refl
code-digit_char (suc (suc (suc (suc zero)))) h = refl
code-digit_char (suc (suc (suc (suc (suc zero))))) h = refl
code-digit_char (suc (suc (suc (suc (suc (suc zero)))))) h = refl
code-digit_char (suc (suc (suc (suc (suc (suc (suc zero))))))) h = refl
code-digit_char (suc (suc (suc (suc (suc (suc (suc (suc zero)))))))) h = refl
code-digit_char (suc (suc (suc (suc (suc (suc (suc (suc (suc zero))))))))) h = refl
code-digit_char (suc (suc (suc (suc (suc (suc (suc (suc (suc (suc d)))))))))) h =
    absurd (omega (arith, h))

digits_value-digit_char :
    (acc d : ℕ) (cs : List ℕ)
    → d < 10
    → digits_value acc (code (digit_char d) ∷ cs) ≡ digits_value (acc * 10 + d) cs
unfolding digits_value
digits_value-digit_char acc d cs h =
    rw (code-digit_char d h) (go (ground (arith, h)) (omega (arith, h)))
  where
    go :
        (leb 48 (48 + d) && leb (48 + d) 57) ≡ true
        → (48 + d) - 48 ≡ d
        → (if leb 48 (48 + d) && leb (48 + d) 57
            then digits_value (acc * 10 + ((48 + d) - 48)) cs
            else none)
          ≡ digits_value (acc * 10 + d) cs
    go a b = rw (a, b) refl

digits_value-digits_before :
    (fuel n : ℕ) (tail : String)
    → n < fuel
    → digits_value 0 (codes (digits_before fuel n tail)) ≡ digits_value n (codes tail)
unfolding digits_before
digits_value-digits_before zero n tail h = absurd (omega (arith, h))
digits_value-digits_before (suc fuel) n tail h =
    go (Bool-cases (ltb n 10))
      (digits_value-digits_before fuel (n / 10) (String.◌∷◌ (digit_char (n % 10)) tail))
  where
    go :
        (ltb n 10 ≡ true) ⊎ (ltb n 10 ≡ false)
        → (n / 10 < fuel
            → digits_value 0
                (codes (digits_before fuel (n / 10) (String.◌∷◌ (digit_char (n % 10)) tail)))
              ≡ digits_value (n / 10) (codes (String.◌∷◌ (digit_char (n % 10)) tail)))
        → digits_value 0 (codes (digits_before (suc fuel) n tail)) ≡ digits_value n (codes tail)
    go (inl e) k = rw (e) (
        digits_value-digit_char 0 n (codes tail) (ground (arith, e))
        ∙ ap (λ m. digits_value m (codes tail)) (omega arith))
    go (inr e) k = rw (e) (
        k (ground (arith, e, h))
        ∙ digits_value-digit_char (n / 10) (n % 10) (codes tail) (omega arith)
        ∙ ap (λ m. digits_value m (codes tail)) (omega arith))

pub digits_value-itoa : (n : ℕ) → digits_value 0 (codes (itoa n)) ≡ some n
unfolding itoa digits_value
digits_value-itoa n = digits_value-digits_before (suc n) n "" (omega arith)

-- Itoa tells numbers apart.
pub itoa-injective : (m n : ℕ) → codes (itoa m) ≡ codes (itoa n) → m ≡ n
itoa-injective m n e = ground (arith, digits_value-itoa m, digits_value-itoa n, e)
