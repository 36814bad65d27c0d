-- ===== src/Strings/Numbers.antt =====
-- `strconv.ParseUint` for the bases that the program gives it, and its meaning as a number.
use go_rflink.Prelude.{
  ℕ, ◌+◌, ◌-◌, ◌*◌, ◌^◌, ◌≤◌, ◌<◌, ◌≡◌, ◌↔◌, inl, inr, refl, false, Option, none, some, [], ◌∷◌,
  ltb, leb, if◌then◌else◌, arith, Bool-cases,
}
use go_rflink.Prelude.Text.{Text, is_empty}
use go_rflink.Strings.{within}

-- The value of a digit, letters in either case; 36 for what is none.
abbrev pub digit_value : ℕ → ℕ
digit_value c =
    if within b'0' b'9' c
    then c - b'0'
    else if within b'a' b'z' c
    then c - b'a' + 10
    else if within b'A' b'Z' c
    then c - b'A' + 10
    else 36

-- The loop over the digits: none for a character that is no digit of the base, or once the value
-- is above `limit`.
unfoldable pub parse_digits : ℕ → ℕ → ℕ → Text → Option ℕ
parse_digits base limit n [] = some n
parse_digits base limit n (c ∷ s) =
    let next = n * base + digit_value c in
    let rest = parse_digits base limit next s in
    if leb base (digit_value c) then none else if ltb limit next then none else rest

-- `strconv.ParseUint(s, base, 16)`
unfoldable pub parse_uint16 : Text → ℕ → Option ℕ
parse_uint16 s base = if is_empty s then none else parse_digits base 65535 0 s

-- The number that the digits stand for, after `n`.
abbrev pub value_from : ℕ → ℕ → Text → ℕ
value_from base n [] = n
value_from base n (c ∷ s) = value_from base (n * base + digit_value c) s

abbrev pub IsDigits : ℕ → Text → Type 0
IsDigits base [] = Unit
IsDigits base (c ∷ s) = (digit_value c < base) × IsDigits base s

value_from-le : (base n : ℕ) (s : Text) → 1 ≤ base → n ≤ value_from base n s
value_from-le base n [] h = omega arith
value_from-le base n (c ∷ s) h =
    let ih = value_from-le base (n * base + digit_value c) s h in
    let grows : n * 1 ≤ n * base = grind arith in omega (arith, ih, grows)

parse_digits_sound :
    (base limit n : ℕ) (s : Text) (v : ℕ)
    → n ≤ limit
    → parse_digits base limit n s ≡ some v
    → IsDigits base s × (value_from base n s ≡ v) × (v ≤ limit)
unfolding parse_digits
parse_digits_sound base limit n [] v b h = ground arith
parse_digits_sound base limit n (c ∷ s) v b h = elim (Bool-cases (leb base (digit_value c))) [
  | inl bad ↦ ground arith
  | inr good ↦ elim (Bool-cases (ltb limit (n * base + digit_value c))) [
    | inl over ↦ ground arith
    | inr fits ↦
        let ih =
          parse_digits_sound base limit (n * base + digit_value c) s v (ground arith)
            (ground arith) in
        ((ground arith, ih.0), ih.1, ih.2)
  ]
]

parse_digits_complete :
    (base limit n : ℕ) (s : Text)
    → 1 ≤ base
    → IsDigits base s
    → value_from base n s ≤ limit
    → parse_digits base limit n s ≡ some (value_from base n s)
unfolding parse_digits
parse_digits_complete base limit n [] b d h = refl
parse_digits_complete base limit n (c ∷ s) b d h = ground (
  arith,
  value_from-le base (n * base + digit_value c) s b,
  parse_digits_complete base limit (n * base + digit_value c) s b d.1 h,
)

-- `strToUint16` gives a number, for a base above 0, exactly when the text is a non-empty row of
-- digits of the base whose value fits 16 bits, and then it gives that value.
pub parse_uint16_iff :
    (s : Text) (base v : ℕ)
    → 1 ≤ base
    → (parse_uint16 s base ≡ some v)
      ↔ ((is_empty s ≡ false) × IsDigits base s × (value_from base 0 s ≡ v) × (v < 2 ^ 16))
unfolding parse_uint16
parse_uint16_iff s base v b = (
  λ h. ground (arith, parse_digits_sound base 65535 0 s v),
  λ h. ground (arith, parse_digits_complete base 65535 0 s b),
)
