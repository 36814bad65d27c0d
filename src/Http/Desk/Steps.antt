-- ===== src/Http/Desk/Steps.antt =====
-- What one step of a login does, case by case.
use go_rflink.Prelude.{
  ℕ, ◌≡◌, ◌↔◌, ◌⊎◌, refl, inl, inr, true, false, Option, none, some, ◌∷◌, Bool-cases, arith,
}
use go_rflink.Prelude.Text.{Text}
use go_rflink.Options.{mem}
use go_rflink.Session.{Session, create}
use go_rflink.Login.{Limiter, key, allow, fail, success}
use go_rflink.Tokens.{gui_token_ok}
use go_rflink.Http.{Request, Access}
use go_rflink.Http.Auth.{gui_locked}
use go_rflink.Http.Login.{
  Gate, login_csrf_failed, too_many_attempts, gui_auth_not_configured, retry_after,
  login_unauthorized, logged_in, login_csrf_ok, login_token, Readings, login_arrives, check_login,
  open_session, session_login,
}
use go_rflink.Http.Desk.{Desk, arrives, compares, without_one, login_step}

-- A login that runs alone makes a session exactly when it passes the CSRF check, the limiter lets
-- its address in, it brings the GUI token, and a session can be created; it is then that session.
pub session_login_iff :
    (decode : Text → Text) (c : Access) (t : Readings) (fresh : Option Text) (r : Request)
    (ip body : Text) (g : Gate) (sess : Session)
    → ((session_login decode c t fresh r ip body g).0 ≡ logged_in sess) ↔ (
        (login_csrf_ok r ≡ true)
        × ((allow ip t.arrived g.limiter).0.0 ≡ true)
        × (gui_token_ok c.auth_token (login_token decode body) ≡ true)
        × ((create fresh ip t.created g.sessions).0 ≡ some sess))
unfolding session_login login_arrives check_login open_session gui_token_ok
session_login_iff decode c t fresh r ip body g sess = (λ h. ground arith, λ h. ground arith)

module _ (decode : Text → Text) (c : Access) where
  pub step_csrf :
      (now : ℕ) (r : Request) (ip : Text) (d : Desk)
      → login_csrf_ok r ≡ false
      → login_step decode c (arrives now r ip) d ≡ (some login_csrf_failed, d)
  unfolding login_step login_arrives
  step_csrf now r ip d bad = rw (bad, login_arrives) refl

  pub step_shut :
      (now : ℕ) (r : Request) (ip : Text) (d : Desk)
      → login_csrf_ok r ≡ true
      → (allow ip now d.limiter).0.0 ≡ false
      → login_step decode c (arrives now r ip) d ≡ (
        some (too_many_attempts (retry_after (allow ip now d.limiter).0.1)),
        record d { limiter = (allow ip now d.limiter).1 },
      )
  unfolding login_step login_arrives
  step_shut now r ip d good shut = rw (good, shut, login_arrives) refl

  pub step_let_in :
      (now : ℕ) (r : Request) (ip : Text) (d : Desk)
      → login_csrf_ok r ≡ true
      → (allow ip now d.limiter).0.0 ≡ true
      → login_step decode c (arrives now r ip) d
        ≡ (none, record { limiter = (allow ip now d.limiter).1; waiting = key ip ∷ d.waiting })
  unfolding login_step login_arrives
  step_let_in now r ip d good ok = rw (good, ok, login_arrives) refl

  pub step_absent :
      (now later : ℕ) (ip body : Text) (d : Desk)
      → mem (key ip) d.waiting ≡ false
      → login_step decode c (compares now later ip body) d ≡ (none, d)
  unfolding login_step
  step_absent now later ip body d absent = rw absent refl

  pub step_there :
      (now later : ℕ) (ip body : Text) (d : Desk)
      → mem (key ip) d.waiting ≡ true
      → let (answer, l) = check_login c now later ip (login_token decode body) d.limiter in
        login_step decode c (compares now later ip body) d
        ≡ (answer, record { limiter = l; waiting = without_one (key ip) d.waiting })
  unfolding login_step
  step_there now later ip body d there = rw there refl

-- A comparison refuses the token and counts a failure, or it does not, and leaves the limiter or
-- clears the address.
pub check_login_cases :
    (c : Access) (now later : ℕ) (ip token : Text) (l : Limiter)
    → (check_login c now later ip token l ≡ (some gui_auth_not_configured, l))
      ⊎ (check_login c now later ip token l ≡ (some login_unauthorized, fail ip now later l))
      ⊎ ((gui_token_ok c.auth_token token ≡ true)
          × (check_login c now later ip token l ≡ (none, success ip l)))
unfolding check_login gui_token_ok
check_login_cases c now later ip token l = elim (Bool-cases (gui_locked c)) [
  | inl locked ↦ inl (rw (locked, check_login) refl)
  | inr open_ ↦ elim (Bool-cases (gui_token_ok c.auth_token token)) [
    | inl good ↦ inr (inr (good, ground arith))
    | inr bad ↦ inr (inl (ground arith))
  ]
]
