-- ===== src/Login/Bound.antt =====
-- What the login limiter in rflink/login_limit.go keeps of the failures of one address, call by call.
use go_rflink.Prelude.{
  ℕ, suc, ◌+◌, ◌≤◌, ◌<◌, ◌≡◌, refl, ◌⊎◌, inl, inr, true, none, some, List, [], ◌∷◌, ◌++◌, ltb, leb,
  length, length-append, arith, Bool-cases, Option-cases, keep,
}
use go_rflink.Prelude.Text.{Text, text_eq_refl}
use go_rflink.Prelude.Maps.{lookup, lookup-insert, lookup-delete}
use go_rflink.Login.{
  Limiter, key, attempts_of, recent, clear, admit, allow, fail, success, login_max_attempts,
  login_window, login_lockout,
}
use go_rflink.Login.Laws.{SameAt}

-- The failures recorded at or after `start`.
abbrev since : ℕ → List ℕ → ℕ
since start ts = length (keep (leb start) ts)

since-append :
    (start : ℕ) (xs ys : List ℕ) → since start (xs ++ ys) ≡ since start xs + since start ys
since-append start [] ys = omega arith
since-append start (x ∷ xs) ys = ground (arith, since-append start xs ys)

since-le-length : (start : ℕ) (xs : List ℕ) → since start xs ≤ length xs
since-le-length start [] = omega arith
since-le-length start (x ∷ xs) = ground (arith, since-le-length start xs)

-- Pruning loses none of them while the window is open.
since-recent :
    (start now : ℕ) (ts : List ℕ)
    → now < start + login_window
    → since start (recent now ts) ≡ since start ts
since-recent start now [] h = refl
since-recent start now (t ∷ ts) h = ground (arith, since-recent start now ts h)

-- A locked address has as many failures on record as lock it.
abbrev pub IsConsistent : Text → Limiter → Type 0
IsConsistent k l = elim (lookup k l.locked) [
  | none ↦ Unit
  | some until ↦ login_max_attempts ≤ length (attempts_of k l)
]

-- With `n` failures since `start`: they are on record, or the address is locked past the window.
abbrev pub Records : Text → ℕ → ℕ → Limiter → Type 0
Records k start n l = elim (lookup k l.locked) [
  | none ↦ n ≤ since start (attempts_of k l)
  | some until ↦
      (login_max_attempts ≤ length (attempts_of k l)) × ((n ≡ 0) ⊎ (start + login_window ≤ until))
]

pub IsConsistent-Records :
    (k : Text) (start : ℕ) (l : Limiter) → IsConsistent k l → Records k start 0 l
IsConsistent-Records k start l h = ground arith

admit-Records :
    (k : Text) (start now n : ℕ) (l : Limiter)
    → start ≤ now
    → now < start + login_window
    → lookup k l.locked ≡ none
    → n ≤ since start (attempts_of k l)
    → Records k start n (admit k now l).1
      × ((admit k now l).0.0 ≡ true → suc n ≤ login_max_attempts)
unfolding admit
admit-Records k start now n l h h' e c = ground (
  arith,
  since-recent start now (attempts_of k l) h',
  since-le-length start (recent now (attempts_of k l)),
  text_eq_refl k,
  lookup-insert k k (now + login_lockout) l.locked,
  lookup-insert k k (recent now (attempts_of k l)) l.attempts,
)

pub allow-Records :
    (ip : Text) (start now n : ℕ) (l : Limiter)
    → start ≤ now
    → now < start + login_window
    → Records (key ip) start n l
    → Records (key ip) start n (allow ip now l).1
      × ((allow ip now l).0.0 ≡ true → suc n ≤ login_max_attempts)
unfolding allow
allow-Records ip start now n l h h' v = elim (Option-cases (lookup (key ip) l.locked)) [
  | inl open_ ↦
      rw (open_, allow) (admit-Records (key ip) start now n l h h' open_ (rw (open_, Records) at v))
  | inr (until, shut) ↦ elim (Bool-cases (ltb now until)) [
    | inl held ↦ ground arith
    | inr over ↦
        let fresh = lookup-delete (key ip) (key ip) l.locked in
        let none_left : n ≡ 0 = ground arith in
        rw (shut, over, allow)
          (admit-Records (key ip) start now n (clear (key ip) l) h h'
            (ground (arith, text_eq_refl (key ip))) (omega arith))
  ]
]

pub fail-Records :
    (ip : Text) (start now later n : ℕ) (l : Limiter)
    → start ≤ now
    → start ≤ later
    → Records (key ip) start n l
    → Records (key ip) start (suc n) (fail ip now later l)
unfolding fail
fail-Records ip start now later n l h h' v = ground (
  arith,
  since-append start (attempts_of (key ip) l) (now ∷ []),
  length-append (attempts_of (key ip) l) (now ∷ []),
  text_eq_refl (key ip),
  lookup-insert (key ip) (key ip) (later + login_lockout) l.locked,
  lookup-insert (key ip) (key ip) (attempts_of (key ip) l ++ now ∷ []) l.attempts,
)

pub SameAt-Records :
    (k : Text) (start n : ℕ) (l l' : Limiter)
    → SameAt k l' l
    → Records k start n l
    → Records k start n l'
SameAt-Records k start n l l' e v = ground arith

pub SameAt-IsConsistent :
    (k : Text) (l l' : Limiter) → SameAt k l' l → IsConsistent k l → IsConsistent k l'
SameAt-IsConsistent k l l' e v = ground arith

admit-IsConsistent :
    (k : Text) (now : ℕ) (l : Limiter) → lookup k l.locked ≡ none → IsConsistent k (admit k now l).1
unfolding admit
admit-IsConsistent k now l e = ground (
  arith,
  text_eq_refl k,
  lookup-insert k k (now + login_lockout) l.locked,
  lookup-insert k k (recent now (attempts_of k l)) l.attempts,
)

pub allow-IsConsistent :
    (ip : Text) (now : ℕ) (l : Limiter)
    → IsConsistent (key ip) l
    → IsConsistent (key ip) (allow ip now l).1
unfolding allow
allow-IsConsistent ip now l v = elim (Option-cases (lookup (key ip) l.locked)) [
  | inl open_ ↦ rw (open_, allow) (admit-IsConsistent (key ip) now l open_)
  | inr (until, shut) ↦ elim (Bool-cases (ltb now until)) [
    | inl held ↦ ground arith
    | inr over ↦
        let fresh = lookup-delete (key ip) (key ip) l.locked in
        rw (shut, over, allow)
          (admit-IsConsistent (key ip) now (clear (key ip) l)
            (ground (arith, text_eq_refl (key ip))))
  ]
]

pub fail-IsConsistent :
    (ip : Text) (now later : ℕ) (l : Limiter)
    → IsConsistent (key ip) l
    → IsConsistent (key ip) (fail ip now later l)
unfolding fail
fail-IsConsistent ip now later l v = ground (
  arith,
  length-append (attempts_of (key ip) l) (now ∷ []),
  text_eq_refl (key ip),
  lookup-insert (key ip) (key ip) (later + login_lockout) l.locked,
  lookup-insert (key ip) (key ip) (attempts_of (key ip) l ++ now ∷ []) l.attempts,
)

pub success-IsConsistent : (ip : Text) (l : Limiter) → IsConsistent (key ip) (success ip l)
unfolding success
success-IsConsistent ip l =
    ground (arith, text_eq_refl (key ip), lookup-delete (key ip) (key ip) l.locked)
