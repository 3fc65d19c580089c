-- ===== src/Slugs/Generate.antt =====
-- generateSlug of db.go. `Unicode` stands for the tables of Go's unicode package, `slugs` for the
-- keys of the map that the caller fills.
use Prim.Native.Char.{Char, code}
use statusnook.Prelude.{
  Bool, List, Option, String, any, false, if◌then◌else◌, leb, length, ltb, nat_eq, none, some,
  string_eq, suc, true, zero, ℕ, ◌&&◌, ◌+◌, ◌==◌, ◌||◌,
}
use statusnook.Text.{concat}
use statusnook.Slugs.Decimal.{itoa}

-- strings.ToLower, and whether a code point is in \p{L}.
pub record Unicode : Type 0 where
  pub to_lower : String → String
  pub is_letter : ℕ → Bool

abbrev pub has : List String → String → Bool
has slugs slug = any (λ (s : String). s == slug) slugs

abbrev pub is_empty : String → Bool
is_empty String.[] = true
is_empty (String.◌∷◌ _ _) = false

module _ (unicode : Unicode) where
  -- The complement of the pattern's class: \d is the ASCII digits.
  unfoldable pub in_slug : Char → Bool
  in_slug c = unicode.is_letter (code c) || leb b'0' (code c) && leb (code c) b'9'

  -- pattern.ReplaceAllString(s, "-"): `in_run` says that the character before was replaced.
  unfoldable pub dashed : Bool → String → String
  unfolding in_slug
  dashed in_run String.[] = String.[]
  dashed in_run (String.◌∷◌ c s) =
      let kept = String.◌∷◌ c (dashed false s) in
      let run = dashed true s in
      if in_slug c then kept else if in_run then run else String.◌∷◌ "-" run

-- strings.Trim(s, "-")
unfoldable pub trim_left : String → String
trim_left String.[] = String.[]
trim_left (String.◌∷◌ c s) =
    let rest = trim_left s in if code c == b'-' then rest else String.◌∷◌ c s

unfoldable pub trim_right : String → String
trim_right String.[] = String.[]
trim_right (String.◌∷◌ c s) =
    let rest = trim_right s in
    if code c == b'-' && is_empty rest then String.[] else String.◌∷◌ c rest

unfoldable pub slug_base : Unicode → String → String
unfolding dashed trim_left trim_right
slug_base unicode name = trim_right (trim_left (dashed unicode false (unicode.to_lower name)))

-- The slug tried at an attempt.
unfoldable pub candidate : String → ℕ → String
unfolding itoa
candidate base attempt =
    if is_empty base
    then itoa attempt
    else if ltb 0 attempt
    then concat base (concat "-" (itoa attempt))
    else base

-- The loop, for `fuel` attempts.
unfoldable pub search_slug : ℕ → String → List String → ℕ → Option String
unfolding candidate
search_slug zero base slugs attempt = none
search_slug (suc fuel) base slugs attempt =
    let rest = search_slug fuel base slugs (attempt + 1) in
    let slug = candidate base attempt in if has slugs slug then rest else some slug

-- One attempt more than there are slugs.
unfoldable pub generate_slug : Unicode → String → List String → Option String
unfolding slug_base search_slug
generate_slug unicode name slugs = search_slug (suc (length slugs)) (slug_base unicode name) slugs 0
