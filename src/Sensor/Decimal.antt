-- ===== src/Sensor/Decimal.antt =====
-- `strconv.FormatUint(n, 10)`, which rflink/sensor_data.go prints the humidity with, and the
-- numbers with one decimal of its `strconv.FormatFloat(f, 'f', 1, 32)`.
use go_rflink.Prelude.{
  ℕ, zero, suc, ◌+◌, ◌/◌, ◌%◌, ◌^◌, ◌<◌, ◌≡◌, refl, ap, ◌∙◌, inl, inr, false, some, [], ◌∷◌, ◌++◌,
  ltb, if◌then◌else◌, arith, Bool-cases,
}
use go_rflink.Prelude.Text.{Text, is_empty}
use go_rflink.Strings.Numbers.{digit_value, value_from, IsDigits, parse_uint16, parse_uint16_iff}

-- The digits of `n` in front of `acc`, on fuel.
decimal_from : ℕ → ℕ → Text → Text
decimal_from zero n acc = acc
decimal_from (suc fuel) n acc =
    let rest = decimal_from fuel (n / 10) ((n % 10 + b'0') ∷ acc) in
    if ltb n 10 then (n + b'0') ∷ acc else rest

unfoldable pub decimal : ℕ → Text
unfolding decimal_from
decimal n = decimal_from (suc n) n []

-- A number of tenths with one decimal.
unfoldable pub tenths : ℕ → Text
unfolding decimal
tenths t = decimal (t / 10) ++ b'.' ∷ decimal (t % 10)

digit_value-add : (d : ℕ) → d < 10 → digit_value (d + b'0') ≡ d
digit_value-add d h = ground arith

decimal_from-value :
    (fuel n : ℕ) (acc : Text)
    → n < fuel
    → value_from 10 0 (decimal_from fuel n acc) ≡ value_from 10 n acc
unfolding decimal_from
decimal_from-value zero n acc h = absurd (omega arith)
decimal_from-value (suc fuel) n acc h = elim (Bool-cases (ltb n 10)) [
  | inl small ↦
      rw (small, decimal_from)
        (ap (λ m. value_from 10 m acc) (omega (arith, digit_value-add n (ground arith))))
  | inr large ↦
      rw (large, decimal_from)
        (decimal_from-value fuel (n / 10) ((n % 10 + b'0') ∷ acc) (ground arith)
          ∙ ap (λ m. value_from 10 m acc) (omega (arith, digit_value-add (n % 10) (omega arith))))
]

last-IsDigit : (n : ℕ) → digit_value (n % 10 + b'0') < 10
last-IsDigit n = let d : n % 10 < 10 = omega arith in omega (arith, digit_value-add (n % 10) d, d)

decimal_from-IsDigits :
    (fuel n : ℕ) (acc : Text) → IsDigits 10 acc → IsDigits 10 (decimal_from fuel n acc)
unfolding decimal_from
decimal_from-IsDigits zero n acc h = h
decimal_from-IsDigits (suc fuel) n acc h = elim (Bool-cases (ltb n 10)) [
  | inl small ↦
      let d : n < 10 = ground arith in
      rw (small, decimal_from) (omega (arith, digit_value-add n d, d), h)
  | inr large ↦
      rw (large, decimal_from)
        (decimal_from-IsDigits fuel (n / 10) ((n % 10 + b'0') ∷ acc) (last-IsDigit n, h))
]

decimal_from-filled :
    (fuel n : ℕ) (acc : Text) → is_empty acc ≡ false → is_empty (decimal_from fuel n acc) ≡ false
unfolding decimal_from
decimal_from-filled zero n acc h = h
decimal_from-filled (suc fuel) n acc h =
    ground (arith, decimal_from-filled fuel (n / 10) ((n % 10 + b'0') ∷ acc))

pub decimal-filled : (n : ℕ) → is_empty (decimal n) ≡ false
unfolding decimal
decimal-filled n = ground (arith, decimal_from-filled n (n / 10) ((n % 10 + b'0') ∷ []) refl)

-- What is printed parses back to the same number.
pub parse_uint16-decimal : (n : ℕ) → n < 2 ^ 16 → parse_uint16 (decimal n) 10 ≡ some n
unfolding decimal
parse_uint16-decimal n h = (parse_uint16_iff (decimal n) 10 n (omega arith)).1 (
  decimal-filled n,
  decimal_from-IsDigits (suc n) n [] tt,
  decimal_from-value (suc n) n [] (omega arith),
  h,
)

-- The digits that are printed have the value of the number.
pub decimal-value : (n : ℕ) → value_from 10 0 (decimal n) ≡ n
unfolding decimal
decimal-value n = decimal_from-value (suc n) n [] (omega arith)
