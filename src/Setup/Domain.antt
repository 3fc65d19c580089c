-- ===== src/Setup/Domain.antt =====
-- The pattern ^[a-z0-9]+(?:[\-.][a-z0-9]+)*\.[a-z]+$ of setup.go, over code points.
use statusnook.Prelude.{
  Bool, List, String, [], false, if◌then◌else◌, leb, nat_eq, string_eq, true, ℕ, ◌&&◌, ◌==◌, ◌||◌,
  ◌∷◌,
}
use statusnook.Text.{codes}

abbrev is_lower : ℕ → Bool
is_lower c = leb b'a' c && leb c b'z'

abbrev is_label : ℕ → Bool
is_label c = is_lower c || leb b'0' c && leb c b'9'

-- `in_label`: the last one was a letter or digit; `dotted`: the last separator was a dot;
-- `letters`: only letters since.
labels : Bool → Bool → Bool → List ℕ → Bool
labels in_label dotted letters [] = in_label && (dotted && letters)
labels in_label dotted letters (c ∷ cs) =
    let longer = labels true dotted (letters && is_lower c) cs in
    let next = labels false (c == b'.') true cs in
    if is_label c then longer else (c == b'-' || c == b'.') && (in_label && next)

unfoldable pub is_domain : String → Bool
unfolding labels
is_domain s = labels false false true (codes s)
