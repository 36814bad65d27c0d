-- ===== src/RateLimit.antt =====
-- The token bucket for actuator commands in rflink/app.go: `refillCmdTokensLocked`,
-- `allowCommand` and `CommandRateStatus`. The source counts tokens in a float64 and time in
-- seconds; here both are scaled by 10^9: times are nanoseconds, and one token is `token` units, so
-- that `elapsed.Seconds() * limit` tokens are `elapsed * limit` units with no rounding.
pub mod Bound
use go_rflink.Prelude.{ℕ, ◌+◌, ◌-◌, ◌*◌, Bool, true, false, ltb, ◌==◌, if◌then◌else◌}

abbrev pub token : ℕ
token = 1000000000

-- `cmdTokens` and `cmdLastFill`
pub record Bucket : Type 0 where
  pub tokens : ℕ
  pub last_fill : ℕ

-- The bucket of `Init`: full.
abbrev pub full : ℕ → ℕ → Bucket
full limit now = record { tokens = limit * token; last_fill = now }

unfoldable pub refill : ℕ → ℕ → Bucket → Bucket
refill now limit b =
    let elapsed = now - b.last_fill in
    let tokens = b.tokens + elapsed * limit in
    record {
      tokens = if ltb (limit * token) tokens then limit * token else tokens;
      last_fill = now;
    }

unfoldable pub allow_command : ℕ → ℕ → Bucket → Bool × Bucket
unfolding refill
allow_command limit now b =
    if limit == 0
    then (true, b)
    else (let b' = refill now limit b in
        if ltb b'.tokens token
        then (false, b')
        else (true, record b' { tokens = b'.tokens - token }))

-- The limit, the tokens that remain, whether there is no limit, and the state.
unfoldable pub command_rate_status : ℕ → ℕ → Bucket → (ℕ × ℕ × Bool) × Bucket
unfolding refill
command_rate_status limit now b =
    if limit == 0
    then ((0, 0, true), b)
    else (let b' = refill now limit b in ((limit, b'.tokens, false), b'))
