-- ===== src/Http/Desk.antt =====
-- The logins of rflink/http_server.go that run at once: the steps of `sessionLogin` from many clients,
-- in any order, over the one limiter. The source holds no lock between them.
pub mod Steps
pub mod Consistent
use go_rflink.Prelude.{
  ℕ, zero, suc, ◌+◌, ◌≤◌, ◌<◌, ◌≡◌, ◌↔◌, ◌⊎◌, refl, sym, subst, ap, ◌∙◌, inl, inr, Bool, true,
  false, ◌&&◌, ◌||◌, Option, none, some, List, [], ◌∷◌, ltb, if◌then◌else◌, All, Bool-cases,
  Option-cases, arith,
}
use go_rflink.Prelude.Text.{Text, text_eq, text_eq_iff, text_eq_refl}
use go_rflink.Options.{mem}
use go_rflink.Session.{Session, create}
use go_rflink.Login.{
  Limiter, new_limiter, key, login_max_attempts, login_window, allow, fail, success,
}
use go_rflink.Login.Laws.{allow-SameAt, fail-SameAt, success-SameAt}
use go_rflink.Login.Bound.{
  Records, IsConsistent, IsConsistent-Records, allow-Records, fail-Records, SameAt-Records,
  SameAt-IsConsistent, allow-IsConsistent, fail-IsConsistent, success-IsConsistent,
}
use go_rflink.Tokens.{gui_token_ok}
use go_rflink.Http.{Request, Access}
use go_rflink.Http.Auth.{gui_locked}
use go_rflink.Http.Login.{
  Gate, LoginResponse, login_csrf_failed, too_many_attempts, gui_auth_not_configured, retry_after,
  login_unauthorized, logged_in, login_csrf_ok, login_token, Readings, login_arrives, check_login,
  open_session, session_login,
}

-- The limiter, and the addresses, as keys, of the logins that it has let in and whose token has not
-- been compared yet.
pub record Desk : Type 0 where
  pub limiter : Limiter
  pub waiting : List Text

-- A step of some login: the request and its clock reading, or the two readings of `fail`, the
-- address and the body.
pub data LoginStep : Type 0 where
  arrives : ℕ → Request → Text → LoginStep
  compares : ℕ → ℕ → Text → Text → LoginStep

-- Without one entry of the key.
abbrev pub without_one : Text → List Text → List Text
without_one k [] = []
without_one k (j ∷ ws) = if text_eq j k then ws else j ∷ without_one k ws

module _ (decode : Text → Text) (c : Access) where
  -- A step with its answer, if it gives one. A comparison needs a login that waits for it.
  unfoldable pub login_step : LoginStep → Desk → Option LoginResponse × Desk
  unfolding login_arrives check_login
  login_step (arrives now r ip) d =
      let (answer, l) = login_arrives now r ip d.limiter in
      let here : List Text = elim answer [ none ↦ key ip ∷ d.waiting | some a ↦ d.waiting ] in
      (answer, record { limiter = l; waiting = here })
  login_step (compares now later ip body) d =
      let (answer, l) = check_login c now later ip (login_token decode body) d.limiter in
      if mem (key ip) d.waiting
      then (answer, record { limiter = l; waiting = without_one (key ip) d.waiting })
      else (none, d)

  unfoldable pub login_steps : List LoginStep → Desk → Desk
  unfolding login_step
  login_steps [] d = d
  login_steps (e ∷ es) d = login_steps es (login_step e d).1

abbrev pub key_of : LoginStep → Text
key_of (arrives now r ip) = key ip
key_of (compares now later ip body) = key ip

abbrev pub is_refusal : Option LoginResponse → Bool
is_refusal (some login_unauthorized) = true
is_refusal _ = false

-- How many logins of the address wait.
abbrev pub under_way : Text → List Text → ℕ
under_way k [] = 0
under_way k (j ∷ ws) = if text_eq j k then suc (under_way k ws) else under_way k ws

module _ (decode : Text → Text) (c : Access) (k : Text) where
  -- How many tokens from the address are compared and refused.
  unfoldable pub refused : List LoginStep → Desk → ℕ
  unfolding login_step
  refused [] d = 0
  refused (e ∷ es) d =
      let (answer, d') = login_step decode c e d in
      let n = refused es d' in if is_refusal answer && text_eq (key_of e) k then suc n else n

  -- The largest number of its logins that wait at the same time.
  unfoldable pub most : List LoginStep → Desk → ℕ
  unfolding login_step
  most [] d = under_way k d.waiting
  most (e ∷ es) d =
      let rest = most es (login_step decode c e d).1 in
      if ltb rest (under_way k d.waiting) then under_way k d.waiting else rest

  -- The clock readings are in the window, and a token from the address is wrong.
  abbrev pub IsWrong : ℕ → LoginStep → Type 0
  IsWrong start (arrives now r ip) = (start ≤ now) × (now < start + login_window)
  IsWrong start (compares now later ip body) =
      (start ≤ now)
      × (start ≤ later)
      × (text_eq (key ip) k ≡ true → gui_token_ok c.auth_token (login_token decode body) ≡ false)

pub under_way-without_one :
    (k : Text) (ws : List Text)
    → mem k ws ≡ true
    → suc (under_way k (without_one k ws)) ≡ under_way k ws
under_way-without_one k [] h = absurd (ground arith)
under_way-without_one k (j ∷ ws) h = ground (arith, under_way-without_one k ws)

pub under_way-other :
    (k j : Text) (ws : List Text)
    → text_eq j k ≡ false
    → under_way k (without_one j ws) ≡ under_way k ws
under_way-other k j [] h = refl
under_way-other k j (i ∷ ws) h = ground (arith, under_way-other k j ws, text_eq_iff i j)
