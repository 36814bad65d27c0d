-- ===== src/Login/Laws.antt =====
-- What one call of the login limiter in rflink/login_limit.go does.
use go_rflink.Prelude.{
  ℕ, ◌+◌, ◌-◌, ◌≤◌, ◌<◌, ◌≡◌, true, false, none, some, [], ◌∷◌, ◌++◌, length, length-append, arith,
}
use go_rflink.Prelude.Text.{Text, text_eq, text_eq_refl}
use go_rflink.Prelude.Maps.{lookup, lookup-insert, lookup-delete}
use go_rflink.Login.{
  Limiter, key, attempts_of, recent, clear, admit, allow, fail, success, login_max_attempts,
  login_lockout,
}

-- With four failures on record, another one locks the address: until the lock ends a login from it
-- is refused with the time that is left, and the limiter stays as it is.
pub allow-fail_locked :
    (ip : Text) (now later at : ℕ) (l : Limiter)
    → login_max_attempts ≤ length (attempts_of (key ip) l) + 1
    → at < later + login_lockout
    → allow ip at (fail ip now later l) ≡ ((false, later + login_lockout - at), fail ip now later l)
unfolding allow fail
allow-fail_locked ip now later at l h before = ground (
  arith,
  length-append (attempts_of (key ip) l) (now ∷ []),
  lookup-insert (key ip) (key ip) (later + login_lockout) l.locked,
  text_eq_refl (key ip),
)

-- When the lock of an address has ended, the next login from it is admitted, and both the lock and
-- the failures are forgotten.
pub allow_lock_over :
    (ip : Text) (now until : ℕ) (l : Limiter)
    → lookup (key ip) l.locked ≡ some until
    → until ≤ now
    → ((allow ip now l).0 ≡ (true, 0))
      × (lookup (key ip) (allow ip now l).1.locked ≡ none)
      × (attempts_of (key ip) (allow ip now l).1 ≡ [])
unfolding allow admit
allow_lock_over ip now until l h over = ground (
  arith,
  lookup-delete (key ip) (key ip) l.locked,
  lookup-delete (key ip) (key ip) l.attempts,
  lookup-insert (key ip) (key ip) [] (clear (key ip) l).attempts,
  text_eq_refl (key ip),
)

-- A successful login forgets the failures and the lock, and the next login is admitted.
pub allow-success :
    (ip : Text) (now : ℕ) (l : Limiter) → (allow ip now (success ip l)).0 ≡ (true, 0)
unfolding allow admit success
allow-success ip now l = ground (
  arith,
  lookup-delete (key ip) (key ip) l.locked,
  lookup-delete (key ip) (key ip) l.attempts,
  text_eq_refl (key ip),
)

-- Two limiters hold the same of an address.
abbrev pub SameAt : Text → Limiter → Limiter → Type 0
SameAt k l l' =
    (lookup k l.locked ≡ lookup k l'.locked) × (lookup k l.attempts ≡ lookup k l'.attempts)

admit-SameAt :
    (k j : Text) (now : ℕ) (l : Limiter) → text_eq k j ≡ false → SameAt j (admit k now l).1 l
unfolding admit
admit-SameAt k j now l h = ground (
  arith,
  lookup-insert k j (recent now (attempts_of k l)) l.attempts,
  lookup-insert k j (now + login_lockout) l.locked,
)

pub allow-SameAt :
    (ip j : Text) (now : ℕ) (l : Limiter)
    → text_eq (key ip) j ≡ false
    → SameAt j (allow ip now l).1 l
unfolding allow
allow-SameAt ip j now l h = ground (
  arith,
  admit-SameAt (key ip) j now l,
  admit-SameAt (key ip) j now (clear (key ip) l),
  lookup-delete (key ip) j l.locked,
  lookup-delete (key ip) j l.attempts,
)

pub fail-SameAt :
    (ip j : Text) (now later : ℕ) (l : Limiter)
    → text_eq (key ip) j ≡ false
    → SameAt j (fail ip now later l) l
unfolding fail
fail-SameAt ip j now later l h = ground (
  arith,
  lookup-insert (key ip) j (attempts_of (key ip) l ++ now ∷ []) l.attempts,
  lookup-insert (key ip) j (later + login_lockout) l.locked,
)

pub success-SameAt :
    (ip j : Text) (l : Limiter) → text_eq (key ip) j ≡ false → SameAt j (success ip l) l
unfolding success
success-SameAt ip j l h =
    ground (arith, lookup-delete (key ip) j l.locked, lookup-delete (key ip) j l.attempts)
