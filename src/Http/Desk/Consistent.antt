-- ===== src/Http/Desk/Consistent.antt =====
-- A history of login steps keeps the limiter consistent at every address.
use go_rflink.Prelude.{ℕ, ◌≡◌, sym, subst, inl, inr, Option, List, [], ◌∷◌, Bool-cases}
use go_rflink.Prelude.Text.{Text, text_eq, text_eq_iff}
use go_rflink.Options.{mem}
use go_rflink.Login.{Limiter, key, allow, fail, success}
use go_rflink.Login.Laws.{allow-SameAt, fail-SameAt, success-SameAt}
use go_rflink.Login.Bound.{
  IsConsistent, SameAt-IsConsistent, allow-IsConsistent, fail-IsConsistent, success-IsConsistent,
}
use go_rflink.Http.{Access}
use go_rflink.Http.Login.{LoginResponse, login_csrf_ok, login_token, check_login}
use go_rflink.Http.Desk.{Desk, LoginStep, arrives, compares, login_step, login_steps}
use go_rflink.Http.Desk.Steps.{
  step_csrf, step_shut, step_let_in, step_absent, step_there, check_login_cases,
}

module _ (k : Text) where
  -- A step keeps the address consistent.
  step-IsConsistent :
      (decode : Text → Text) (c : Access) (e : LoginStep) (d : Desk)
      → IsConsistent k d.limiter
      → IsConsistent k (login_step decode c e d).1.limiter
  step-IsConsistent decode c (arrives now r ip) d v =
      let e = arrives now r ip in
      let goes = λ (a : Option LoginResponse × Desk). IsConsistent k a.1.limiter in
      let moved = allowed ip now d.limiter v in
      elim (Bool-cases (login_csrf_ok r)) [
        | inr bad ↦ subst goes (sym (step_csrf decode c now r ip d bad)) v
        | inl good ↦ elim (Bool-cases (allow ip now d.limiter).0.0) [
          | inr shut ↦ subst goes (sym (step_shut decode c now r ip d good shut)) moved
          | inl ok ↦ subst goes (sym (step_let_in decode c now r ip d good ok)) moved
        ]
      ]
    where
      allowed :
          (ip : Text) (now : ℕ) (l : Limiter) → IsConsistent k l → IsConsistent k (allow ip now l).1
      allowed ip now l v = elim (Bool-cases (text_eq (key ip) k)) [
        | inr other ↦ SameAt-IsConsistent k l (allow ip now l).1 (allow-SameAt ip k now l other) v
        | inl same ↦
            let e : key ip ≡ k = (text_eq_iff (key ip) k).0 same in
            subst (λ j. IsConsistent j (allow ip now l).1) e
              (allow-IsConsistent ip now l (subst (λ j. IsConsistent j l) (sym e) v))
      ]
  step-IsConsistent decode c (compares now later ip body) d v =
      let goes = λ (a : Option LoginResponse × Desk). IsConsistent k a.1.limiter in
      elim (Bool-cases (mem (key ip) d.waiting)) [
        | inr absent ↦ subst goes (sym (step_absent decode c now later ip body d absent)) v
        | inl there ↦
            subst goes (sym (step_there decode c now later ip body d there))
              (compared now later ip (login_token decode body) d.limiter v)
      ]
    where
      compared :
          (now later : ℕ) (ip token : Text) (l : Limiter)
          → IsConsistent k l
          → IsConsistent k (check_login c now later ip token l).1
      compared now later ip token l v =
          let goes = λ (a : Option LoginResponse × Limiter). IsConsistent k a.1 in
          let cases = check_login_cases c now later ip token l in
          elim (Bool-cases (text_eq (key ip) k)) [
            | inr other ↦ elim cases [
              | inl locked ↦ subst goes (sym locked) v
              | inr (inl bad) ↦ subst goes (sym bad) (
                  SameAt-IsConsistent k l (fail ip now later l) (fail-SameAt ip k now later l other)
                    v)
              | inr (inr (good, cleared)) ↦
                  subst goes (sym cleared)
                    (SameAt-IsConsistent k l (success ip l) (success-SameAt ip k l other) v)
            ]
            | inl same ↦
                let e : key ip ≡ k = (text_eq_iff (key ip) k).0 same in
                elim cases [
                  | inl locked ↦ subst goes (sym locked) v
                  | inr (inl bad) ↦ subst goes (sym bad) (
                      subst (λ j. IsConsistent j (fail ip now later l)) e
                        (fail-IsConsistent ip now later l
                          (subst (λ j. IsConsistent j l) (sym e) v)))
                  | inr (inr (good, cleared)) ↦
                      subst goes (sym cleared)
                        (subst (λ j. IsConsistent j (success ip l)) e (success-IsConsistent ip l))
                ]
          ]

  pub steps-IsConsistent :
      (decode : Text → Text) (c : Access) (es : List LoginStep) (d : Desk)
      → IsConsistent k d.limiter
      → IsConsistent k (login_steps decode c es d).limiter
  unfolding login_steps
  steps-IsConsistent decode c [] d v = v
  steps-IsConsistent decode c (e ∷ es) d v =
      steps-IsConsistent decode c es (login_step decode c e d).1 (step-IsConsistent decode c e d v)
