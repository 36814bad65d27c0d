-- ===== src/Strings.antt =====
-- The functions of Go's `strings`, `strconv` and `unicode` packages that the program calls, over
-- text as code points. Case and letter tables beyond ASCII are those of Go's `unicode` package and
-- enter as an instance of `Unicode`; `is_space` is complete.
pub mod Trim
pub mod Split
pub mod Numbers
use go_rflink.Prelude.{
  ℕ, zero, suc, ◌+◌, ◌-◌, ◌*◌, Bool, true, false, ◌&&◌, ◌||◌, Option, none, some, List, [], ◌∷◌,
  ◌++◌, map, ltb, leb, ◌==◌, if◌then◌else◌, all,
}
use go_rflink.Prelude.Text.{Text, text_eq, is_empty, has_prefix}

-- What `unicode` says of a code point from 128 on; `fold` gives one code point for each class of
-- those that simple case folding takes to be equal.
pub record Unicode : Type 0 where
  pub upper : ℕ → ℕ
  pub lower : ℕ → ℕ
  pub fold : ℕ → ℕ
  pub is_letter : ℕ → Bool
  pub is_digit : ℕ → Bool

abbrev pub within : ℕ → ℕ → ℕ → Bool
within lo hi c = leb lo c && leb c hi

abbrev pub ascii_letter : ℕ → Bool
ascii_letter c = within b'a' b'z' c || within b'A' b'Z' c

abbrev pub ascii_digit : ℕ → Bool
ascii_digit = within b'0' b'9'

-- `unicode.IsSpace`
abbrev pub is_space : ℕ → Bool
is_space c =
    within 9 13 c
    || c == 0x20
    || c == 0x85
    || c == 0xa0
    || c == 0x1680
    || within 0x2000 0x200a c
    || c == 0x2028
    || c == 0x2029
    || c == 0x202f
    || c == 0x205f
    || c == 0x3000

-- `strings.TrimLeftFunc` and `strings.TrimRightFunc`
unfoldable pub trim_left : (ℕ → Bool) → Text → Text
trim_left p [] = []
trim_left p (c ∷ s) = if p c then trim_left p s else c ∷ s

unfoldable pub trim_right : (ℕ → Bool) → Text → Text
trim_right p [] = []
trim_right p (c ∷ s) = let rest = trim_right p s in if p c && is_empty rest then [] else c ∷ rest

-- `strings.TrimSpace`
unfoldable pub trim_space : Text → Text
unfolding trim_left trim_right
trim_space s = trim_right is_space (trim_left is_space s)

-- `strings.HasSuffix(s, ";")` and the like, for one ASCII character
abbrev pub ends_with : ℕ → Text → Bool
ends_with c [] = false
ends_with c (x ∷ []) = x == c
ends_with c (x ∷ y ∷ s) = ends_with c (y ∷ s)

-- `strings.HasSuffix`
abbrev pub has_suffix : Text → Text → Bool
has_suffix [] suffix = is_empty suffix
has_suffix (c ∷ s) suffix =
    (has_prefix (c ∷ s) suffix && has_prefix suffix (c ∷ s)) || has_suffix s suffix

-- `strings.Contains`
abbrev pub contains : Text → Text → Bool
contains [] part = is_empty part
contains (c ∷ s) part = has_prefix (c ∷ s) part || contains s part

-- `strings.TrimSuffix(s, ";")` and the like, for one ASCII character
unfoldable pub trim_suffix : ℕ → Text → Text
trim_suffix c [] = []
trim_suffix c (x ∷ []) = if x == c then [] else x ∷ []
trim_suffix c (x ∷ y ∷ s) = x ∷ trim_suffix c (y ∷ s)

abbrev pub push_head : ℕ → List Text → List Text
push_head c [] = (c ∷ []) ∷ []
push_head c (w ∷ ws) = (c ∷ w) ∷ ws

-- `strings.Split` by one ASCII character
unfoldable pub split : ℕ → Text → List Text
split sep [] = [] ∷ []
split sep (c ∷ s) = let rest = split sep s in if c == sep then [] ∷ rest else push_head c rest

abbrev pub cons_first : ℕ → Option (Text × Text) → Option (Text × Text)
cons_first c none = none
cons_first c (some (a, b)) = some (c ∷ a, b)

-- `strings.SplitN(s, sep, 2)`, which has two parts or else one; none stands for one part
unfoldable pub cut : ℕ → Text → Option (Text × Text)
cut sep [] = none
cut sep (c ∷ s) = let rest = cut sep s in if c == sep then some ([], s) else cons_first c rest

-- `strings.Join`
unfoldable pub join : ℕ → List Text → Text
join sep [] = []
join sep (w ∷ []) = w
join sep (w ∷ v ∷ ws) = w ++ sep ∷ join sep (v ∷ ws)

-- `strings.ReplaceAll` of one character by another
abbrev pub replace_all : ℕ → ℕ → Text → Text
replace_all from to = map (λ c. if c == from then to else c)

module _ ⦃u : Unicode⦄ where
  abbrev pub upper_rune : ℕ → ℕ
  upper_rune c = if ltb c 128 then (if within b'a' b'z' c then c - 32 else c) else u.upper c

  abbrev pub lower_rune : ℕ → ℕ
  lower_rune c = if ltb c 128 then (if within b'A' b'Z' c then c + 32 else c) else u.lower c

  -- `strings.ToUpper` and `strings.ToLower`
  abbrev pub to_upper : Text → Text
  to_upper = map upper_rune

  abbrev pub to_lower : Text → Text
  to_lower = map lower_rune

  -- `unicode.IsLetter` and `unicode.IsDigit`
  abbrev pub letter : ℕ → Bool
  letter c = if ltb c 128 then ascii_letter c else u.is_letter c

  abbrev pub digit : ℕ → Bool
  digit c = if ltb c 128 then ascii_digit c else u.is_digit c

  -- The representative of a code point under simple case folding.
  abbrev pub fold_rune : ℕ → ℕ
  fold_rune c = if ltb c 128 then (if within b'A' b'Z' c then c + 32 else c) else u.fold c

  -- `strings.EqualFold`
  abbrev pub equal_fold : Text → Text → Bool
  equal_fold s t = text_eq (map fold_rune s) (map fold_rune t)

-- `strings.SplitN` for a number of parts from 1 on
unfoldable pub split_n : ℕ → ℕ → Text → List Text
unfolding cut
split_n sep zero s = s ∷ []
split_n sep (suc zero) s = s ∷ []
split_n sep (suc (suc n)) s = elim (cut sep s) [
  | none ↦ s ∷ []
  | some (a, b) ↦ a ∷ split_n sep (suc n) b
]
