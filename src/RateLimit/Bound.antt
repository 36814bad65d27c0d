-- ===== src/RateLimit/Bound.antt =====
-- How many commands the token bucket of rflink/app.go lets through, and when it lets one through.
use go_rflink.Prelude.{
  ℕ, suc, ◌+◌, ◌-◌, ◌*◌, ◌≤◌, ◌≡◌, ◌≢◌, ◌↔◌, sym, ap, ◌∙◌, ◌⊎◌, Bool, true, false, List, [], ◌∷◌,
  if◌then◌else◌, arith,
}
use native.Mathlib.Nat.{add-mul}
use go_rflink.RateLimit.{Bucket, token, refill, allow_command, command_rate_status}

-- What callers do to the bucket: ask for a command, or read its status.
pub data Event : Type 0 where
  asks reads : Event

unfoldable pub react : ℕ → ℕ → Event → Bucket → Bool × Bucket
react limit now asks b = allow_command limit now b
react limit now reads b = (false, (command_rate_status limit now b).1)

-- The number of commands admitted by a history of events, and the bucket after it.
unfoldable pub admitted : ℕ → List (ℕ × Event) → Bucket → ℕ × Bucket
admitted limit [] b = (0, b)
admitted limit ((now, e) ∷ es) b =
    let (ok, b') = react limit now e b in
    let (n, b'') = admitted limit es b' in ((if ok then suc n else n), b'')

-- The clock does not run backwards, and the last event is no later than `until`.
abbrev pub Ordered : ℕ → ℕ → List (ℕ × Event) → Type 0
Ordered start until [] = start ≤ until
Ordered start until ((now, e) ∷ es) = (start ≤ now) × Ordered now until es

refill_bounds :
    (now limit : ℕ) (b : Bucket)
    → ((refill now limit b).tokens ≤ limit * token)
      × ((refill now limit b).tokens ≤ b.tokens + (now - b.last_fill) * limit)
      × ((refill now limit b).last_fill ≡ now)
unfolding refill
refill_bounds now limit b = ground arith

-- One event pays for the command that it admits.
pub react-pays :
    (limit now : ℕ) (e : Event) (b : Bucket)
    → limit ≢ 0
    → ((react limit now e b).1.last_fill ≡ now)
      × ((react limit now e b).1.tokens + (if (react limit now e b).0 then token else 0)
          ≤ b.tokens + (now - b.last_fill) * limit)
unfolding react allow_command command_rate_status
react-pays limit now asks b h = ground (arith, refill_bounds now limit b)
react-pays limit now reads b h = ground (arith, refill_bounds now limit b)

split_at : (a b c : ℕ) → a ≤ b → b ≤ c → c - a ≡ (b - a) + (c - b)
split_at a b c h h' = omega arith

pub spans : (a b c k : ℕ) → a ≤ b → b ≤ c → (b - a) * k + (c - b) * k ≡ (c - a) * k
spans a b c k h h' = sym (ap (λ (t : ℕ). t * k) (split_at a b c h h') ∙ add-mul (b - a) (c - b) k)

Ordered-le : (start until : ℕ) (es : List (ℕ × Event)) → Ordered start until es → start ≤ until
Ordered-le start until [] o = o
Ordered-le start until ((now, e) ∷ es) o = omega (arith, Ordered-le now until es o.1)

admitted-pays :
    (limit until : ℕ) (es : List (ℕ × Event)) (b : Bucket)
    → limit ≢ 0
    → Ordered b.last_fill until es
    → (admitted limit es b).0 * token ≤ b.tokens + (until - b.last_fill) * limit
unfolding admitted
admitted-pays limit until [] b h o = omega arith
admitted-pays limit until ((now, e) ∷ es) b h o =
    let pays = react-pays limit now e b h in
    let ih = admitted-pays limit until es (react limit now e b).1 h (rw pays.0 o.1) in
    let whole = spans b.last_fill now until limit o.0 (Ordered-le now until es o.1) in
    ground (arith, pays.1, rw pays.0 at ih, whole)

-- With a limit that is not 0, a clock that does not run backwards and a bucket that is not over
-- full: over any history of commands and status reads, the tokens of the admitted commands are at
-- most a full bucket and those that came in until the end.
pub admitted-le :
    (limit until : ℕ) (es : List (ℕ × Event)) (b : Bucket)
    → limit ≢ 0
    → Ordered b.last_fill until es
    → b.tokens ≤ limit * token
    → (admitted limit es b).0 * token ≤ limit * token + (until - b.last_fill) * limit
admitted-le limit until es b h o f = omega (arith, admitted-pays limit until es b h o)

-- The bucket never holds more than `limit` tokens after an event.
pub react-tokens :
    (limit now : ℕ) (e : Event) (b : Bucket)
    → limit ≢ 0
    → (react limit now e b).1.tokens ≤ limit * token
unfolding react allow_command command_rate_status
react-tokens limit now asks b h = ground (arith, refill_bounds now limit b)
react-tokens limit now reads b h = ground (arith, refill_bounds now limit b)

-- A command is let through exactly when there is no limit, or the tokens in the bucket and those
-- that came in since the last fill make at least one whole token.
pub allow_command_iff :
    (limit now : ℕ) (b : Bucket)
    → ((allow_command limit now b).0 ≡ true)
      ↔ ((limit ≡ 0) ⊎ (token ≤ b.tokens + (now - b.last_fill) * limit))
unfolding allow_command refill
allow_command_iff limit now b = (λ h. ground arith, λ h. ground arith)
