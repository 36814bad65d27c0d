-- ===== src/Login.antt =====
-- rflink/login_limit.go: the limiter for session logins, per client address. Times are
-- nanoseconds. `t.After(now.Add(-loginWindow))` is written `now < t + login_window`.
pub mod Laws
pub mod Bound
use go_rflink.Prelude.{
  ℕ, ◌+◌, ◌-◌, ◌*◌, Bool, true, false, none, some, List, [], ◌∷◌, ◌++◌, ltb, leb, if◌then◌else◌,
  length, keep,
}
use go_rflink.Prelude.Text.{Text, codes, is_empty}
use go_rflink.Prelude.Maps.{lookup, insert, delete}

-- `loginWindow`, `loginMaxAttempts`, `loginLockout`.
abbrev pub login_window : ℕ
login_window = 5 * 60 * 1000000000

abbrev pub login_max_attempts : ℕ
login_max_attempts = 5

abbrev pub login_lockout : ℕ
login_lockout = 15 * 60 * 1000000000

pub record Limiter : Type 0 where
  pub attempts : List (Text × List ℕ)
  pub locked : List (Text × ℕ)

abbrev pub new_limiter : Limiter
new_limiter = record { attempts = []; locked = [] }

-- The first lines of each method: no address counts as "unknown".
abbrev pub key : Text → Text
key ip = if is_empty ip then codes "unknown" else ip

-- `l.attempts[ip]`, which is the empty slice for an address that has none.
abbrev pub attempts_of : Text → Limiter → List ℕ
attempts_of k l = elim (lookup k l.attempts) [ none ↦ [] | some arr ↦ arr ]

abbrev pub recent : ℕ → List ℕ → List ℕ
recent now = keep (λ t. ltb now (t + login_window))

abbrev pub clear : Text → Limiter → Limiter
clear k l = record { attempts = delete k l.attempts; locked = delete k l.locked }

-- `allow` from the comment "prune window" on.
unfoldable pub admit : Text → ℕ → Limiter → (Bool × ℕ) × Limiter
admit k now l =
    let arr = recent now (attempts_of k l) in
    let pruned : Limiter = record l { attempts = insert k arr l.attempts } in
    if leb login_max_attempts (length arr)
    then (
      (false, login_lockout),
      record pruned { locked = insert k (now + login_lockout) pruned.locked },
    )
    else ((true, 0), pruned)

unfoldable pub allow : Text → ℕ → Limiter → (Bool × ℕ) × Limiter
allow ip now l = elim (lookup (key ip) l.locked) [
  | none ↦ admit (key ip) now l
  | some until ↦
      if ltb now until then ((false, until - now), l) else admit (key ip) now (clear (key ip) l)
]

-- `fail` reads the clock for the attempt, and once more for the lock.
unfoldable pub fail : Text → ℕ → ℕ → Limiter → Limiter
fail ip now later l =
    let arr = attempts_of (key ip) l ++ now ∷ [] in
    let noted : Limiter = record l { attempts = insert (key ip) arr l.attempts } in
    if leb login_max_attempts (length arr)
    then record noted { locked = insert (key ip) (later + login_lockout) noted.locked }
    else noted

unfoldable pub success : Text → Limiter → Limiter
success ip l = clear (key ip) l
