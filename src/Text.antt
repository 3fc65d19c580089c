-- ===== src/Text.antt =====
-- What the source uses of strconv and strings: Atoi, over the code points of a text, and the
-- integers that it returns.
use Prim.Native.Char.{code}
use Prim.Native.String
use statusnook.Prelude.{
  Bool, List, Option, String, [], arith, false, if◌then◌else◌, leb, ltb, nat_eq, none, some,
  string_eq, true, ℕ, ◌&&◌, ◌*◌, ◌+◌, ◌-◌, ◌==◌, ◌∷◌, ◌≡◌,
}

abbrev pub codes : String → List ℕ
codes String.[] = []
codes (String.◌∷◌ c s) = code c ∷ codes s

-- s + t
abbrev pub concat : String → String → String
concat s t = String.◌++◌ s t

-- `negsuc n` is -(n + 1).
pub data ℤ : Type 0 where
  pos : ℕ → ℤ
  negsuc : ℕ → ℤ

-- A parsed id names a row exactly when the two numbers are equal; row ids are positive.
abbrev pub names_row : ℤ → ℕ → Bool
names_row (pos n) id = n == id
names_row (negsuc n) id = false

pub names_row-other :
    (id : ℤ) (a b : ℕ) → names_row id a ≡ true → names_row id b ≡ false → (a == b) ≡ false
names_row-other (pos n) a b h k = ground (arith, h, k)
names_row-other (negsuc n) a b h k = ground (arith, h)

abbrev max_int64 : ℕ
max_int64 = 9223372036854775807

unfoldable pub digits_value : ℕ → List ℕ → Option ℕ
digits_value acc [] = some acc
digits_value acc (c ∷ cs) =
    let rest = digits_value (acc * 10 + (c - b'0')) cs in
    if leb b'0' c && leb c b'9' then rest else none

unsigned : List ℕ → Option ℕ
unsigned [] = none
unsigned (c ∷ cs) = digits_value 0 (c ∷ cs)

positive : Option ℕ → Option ℤ
positive none = none
positive (some n) = if leb n max_int64 then some (pos n) else none

negative : Option ℕ → Option ℤ
negative none = none
negative (some n) =
    if n == 0 then some (pos 0) else if leb n (max_int64 + 1) then some (negsuc (n - 1)) else none

-- strconv.Atoi: an optional sign, decimal digits, and a value of 64 bits.
unfoldable pub atoi : String → Option ℤ
unfolding digits_value unsigned positive negative
atoi s = elim (codes s) [
  | [] ↦ none
  | c ∷ cs ↦
      if c == b'-'
      then negative (unsigned cs)
      else if c == b'+'
      then positive (unsigned cs)
      else positive (unsigned (c ∷ cs))
]

-- The bytes of a code point in UTF-8.
unfoldable pub utf8_width : ℕ → ℕ
utf8_width c = if ltb c 128 then 1 else if ltb c 2048 then 2 else if ltb c 65536 then 3 else 4

total_width : List ℕ → ℕ
unfolding utf8_width
total_width [] = 0
total_width (c ∷ cs) = utf8_width c + total_width cs

-- len(s)
unfoldable pub byte_length : String → ℕ
unfolding total_width
byte_length s = total_width (codes s)
