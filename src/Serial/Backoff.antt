-- ===== src/Serial/Backoff.antt =====
-- rflink/reconnect.go: the delay between attempts to open the serial port. Delays are nanoseconds
-- below 2^62 (146 years), where doubling a `time.Duration` does not wrap.
use native.Mathlib.Nat.{pow-suc}
use go_rflink.Prelude.{
  ℕ, zero, suc, ◌*◌, ◌^◌, ◌≤◌, ◌≡◌, refl, inl, inr, Bool-cases, ltb, if◌then◌else◌, min, arith,
}

-- `nextBackoff(current, min, max)`
unfoldable pub next_backoff : ℕ → ℕ → ℕ → ℕ
next_backoff current lo hi =
    if ltb current lo then lo else (let next = current * 2 in if ltb hi next then hi else next)

-- The delay after `n` failures in a row, from the one that the loop starts with.
unfoldable pub delay_after : ℕ → ℕ → ℕ → ℕ → ℕ
delay_after zero current lo hi = current
delay_after (suc n) current lo hi = delay_after n (next_backoff current lo hi) lo hi

pub next_backoff_bounds :
    (current lo hi : ℕ)
    → lo ≤ hi
    → (lo ≤ next_backoff current lo hi) × (next_backoff current lo hi ≤ hi)
unfolding next_backoff
next_backoff_bounds current lo hi h = ground arith

pow_pos : (n : ℕ) → 1 ≤ 2 ^ n
pow_pos zero = omega arith
pow_pos (suc n) = rw pow-suc (omega (arith, pow_pos n))

delay_after-hi : (n lo hi : ℕ) → lo ≤ hi → delay_after n hi lo hi ≡ hi
unfolding delay_after next_backoff
delay_after-hi zero lo hi h = refl
delay_after-hi (suc n) lo hi h = elim (Bool-cases (ltb hi (hi * 2))) [
  | inl more ↦ ground (arith, delay_after-hi n lo hi h)
  | inr zero_ ↦ ground (arith, delay_after-hi n lo hi h)
]

-- Starting between the minimum and the maximum, the delay after n failures to open the port is the
-- first one doubled n times, up to the maximum.
pub delay_after_lem :
    (n current lo hi : ℕ)
    → lo ≤ current
    → current ≤ hi
    → delay_after n current lo hi ≡ min hi (current * 2 ^ n)
unfolding delay_after next_backoff
delay_after_lem zero current lo hi h h' = omega arith
delay_after_lem (suc n) current lo hi h h' =
    let doubled : current * 2 * 2 ^ n ≡ current * 2 ^ suc n = rw pow-suc (omega arith) in
    elim (Bool-cases (ltb hi (current * 2))) [
      | inl over ↦
          let big : current * 2 * 1 ≤ current * 2 * 2 ^ n = grind (arith, pow_pos n) in
          ground (arith, delay_after-hi n lo hi, doubled, big)
      | inr fits ↦ ground (arith, delay_after_lem n (current * 2) lo hi, doubled)
    ]
