-- ===== src/Http/Lock.antt =====
-- How many wrong tokens the login handler of rflink/http_server.go compares for one address when the
-- logins of many clients run at once.
use go_rflink.Prelude.{
  ℕ, suc, ◌+◌, ◌≤◌, ◌<◌, ◌≡◌, ◌⊎◌, sym, subst, inl, inr, true, false, ◌&&◌, Option, List, [], ◌∷◌,
  if◌then◌else◌, All, Bool-cases, arith,
}
use go_rflink.Prelude.Text.{Text, text_eq, text_eq_iff}
use go_rflink.Options.{mem}
use go_rflink.Login.{
  Limiter, new_limiter, key, login_max_attempts, login_window, allow, fail, success,
}
use go_rflink.Login.Laws.{allow-SameAt, fail-SameAt, success-SameAt}
use go_rflink.Login.Bound.{
  Records, IsConsistent-Records, allow-Records, fail-Records, SameAt-Records,
}
use go_rflink.Http.{Request, Access}
use go_rflink.Http.Login.{LoginResponse, login_csrf_ok, login_token}
use go_rflink.Http.Desk.{
  Desk, LoginStep, arrives, compares, without_one, login_step, login_steps, key_of, is_refusal,
  under_way, refused, most, IsWrong, under_way-without_one, under_way-other,
}
use go_rflink.Http.Desk.Consistent.{steps-IsConsistent}
use go_rflink.Http.Desk.Steps.{
  step_csrf, step_shut, step_let_in, step_absent, step_there, check_login_cases,
}

module _ (k : Text) where
  allow_at :
      (ip : Text) (start now n : ℕ) (l : Limiter)
      → start ≤ now
      → now < start + login_window
      → Records k start n l
      → Records k start n (allow ip now l).1
        × (text_eq (key ip) k ≡ true → (allow ip now l).0.0 ≡ true → suc n ≤ login_max_attempts)
  allow_at ip start now n l h h' v = elim (Bool-cases (text_eq (key ip) k)) [
    | inr other ↦ (
      SameAt-Records k start n l (allow ip now l).1 (allow-SameAt ip k now l other) v,
      λ same ok. absurd (ground arith),
    )
    | inl same ↦
        let e : key ip ≡ k = (text_eq_iff (key ip) k).0 same in
        let (moved, few) =
          allow-Records ip start now n l h h' (subst (λ j. Records j start n l) (sym e) v) in
        (subst (λ j. Records j start n (allow ip now l).1) e moved, λ hit ok. few ok)
  ]

  fail_at :
      (ip : Text) (start now later n : ℕ) (l : Limiter)
      → start ≤ now
      → start ≤ later
      → Records k start n l
      → Records k start (if text_eq (key ip) k then suc n else n) (fail ip now later l)
  fail_at ip start now later n l h h' v = elim (Bool-cases (text_eq (key ip) k)) [
    | inr other ↦
        rw other
          (SameAt-Records k start n l (fail ip now later l) (fail-SameAt ip k now later l other) v)
    | inl same ↦
        let e : key ip ≡ k = (text_eq_iff (key ip) k).0 same in
        rw same (
          subst (λ j. Records j start (suc n) (fail ip now later l)) e
            (fail-Records ip start now later n l h h' (subst (λ j. Records j start n l) (sym e) v)))
  ]

  -- One login less of the address, if it is its own.
  under_way_less :
      (j : Text) (ws : List Text)
      → mem j ws ≡ true
      → (if text_eq j k
          then suc (under_way k (without_one j ws))
          else under_way k (without_one j ws))
        ≡ under_way k ws
  under_way_less j ws there = elim (Bool-cases (text_eq j k)) [
    | inr other ↦ rw other (under_way-other k j ws other)
    | inl same ↦
        let e : j ≡ k = (text_eq_iff j k).0 same in
        rw same (
          subst (λ i. suc (under_way k (without_one i ws)) ≡ under_way k ws) (sym e)
            (under_way-without_one k ws (subst (λ i. mem i ws ≡ true) e there)))
  ]

  -- The refusals counted after a step with its answer.
  abbrev counted : LoginStep → ℕ → Option LoginResponse → ℕ
  counted e n answer = if is_refusal answer && text_eq (key_of e) k then suc n else n

  -- After a step the refusals are on record; and they do not grow together with the logins that
  -- wait, unless the limiter has let one in, with few on record.
  abbrev Advances : ℕ → ℕ → LoginStep → Desk → Option LoginResponse × Desk → Type 0
  Advances start n e d (answer, d') =
      let n' = counted e n answer in
      Records k start n' d'.limiter
      × ((n' + under_way k d'.waiting ≤ n + under_way k d.waiting) ⊎ (suc n' ≤ login_max_attempts))

  arrives-Advances :
      (decode : Text → Text) (c : Access) (start n now : ℕ) (r : Request) (ip : Text) (d : Desk)
      → IsWrong decode c k start (arrives now r ip)
      → Records k start n d.limiter
      → let e = arrives now r ip in Advances start n e d (login_step decode c e d)
  arrives-Advances decode c start n now r ip d (h, h') v =
      let e = arrives now r ip in
      let (moved, few) = allow_at ip start now n d.limiter h h' v in
      elim (Bool-cases (login_csrf_ok r)) [
        | inr bad ↦
            subst (Advances start n e d) (sym (step_csrf decode c now r ip d bad))
              (v, inl (omega arith))
        | inl good ↦ elim (Bool-cases (allow ip now d.limiter).0.0) [
          | inr shut ↦
              subst (Advances start n e d) (sym (step_shut decode c now r ip d good shut))
                (moved, inl (omega arith))
          | inl ok ↦ subst (Advances start n e d) (sym (step_let_in decode c now r ip d good ok)) (
            moved,
            elim (Bool-cases (text_eq (key ip) k)) [
              | inl same ↦ inr (few same ok)
              | inr other ↦ inl (rw other (omega arith))
            ],
          )
        ]
      ]

  compares-Advances :
      (decode : Text → Text) (c : Access) (start n now later : ℕ) (ip body : Text) (d : Desk)
      → IsWrong decode c k start (compares now later ip body)
      → Records k start n d.limiter
      → let e = compares now later ip body in Advances start n e d (login_step decode c e d)
  compares-Advances decode c start n now later ip body d (h, h', wrong) v =
      let e = compares now later ip body in
      elim (Bool-cases (mem (key ip) d.waiting)) [
        | inr absent ↦
            subst (Advances start n e d) (sym (step_absent decode c now later ip body d absent))
              (v, inl (omega arith))
        | inl there ↦
            let less = under_way_less (key ip) d.waiting there in
            let rest = without_one (key ip) d.waiting in
            let goes = λ (a : Option LoginResponse × Limiter).
              Advances start n e d (a.0, record { limiter = a.1; waiting = rest }) in
            subst (Advances start n e d) (sym (step_there decode c now later ip body d there))
              (elim (check_login_cases c now later ip (login_token decode body) d.limiter) [
                | inl locked ↦ subst goes (sym locked) (v, inl (ground arith))
                | inr (inl bad) ↦
                    subst goes (sym bad)
                      (fail_at ip start now later n d.limiter h h' v, inl (ground arith))
                | inr (inr (good, cleared)) ↦
                    let other : text_eq (key ip) k ≡ false = ground arith in
                    subst goes (sym cleared) (
                      SameAt-Records k start n d.limiter (success ip d.limiter)
                          (success-SameAt ip k d.limiter other) v,
                      inl (ground arith),
                    )
              ])
      ]

  step-Advances :
      (decode : Text → Text) (c : Access) (start n : ℕ) (e : LoginStep) (d : Desk)
      → IsWrong decode c k start e
      → Records k start n d.limiter
      → Advances start n e d (login_step decode c e d)
  step-Advances decode c start n (arrives now r ip) d h v =
      arrives-Advances decode c start n now r ip d h v
  step-Advances decode c start n (compares now later ip body) d h v =
      compares-Advances decode c start n now later ip body d h v

  under_way-most :
      (decode : Text → Text) (c : Access) (es : List LoginStep) (d : Desk)
      → under_way k d.waiting ≤ most decode c k es d
  unfolding most
  under_way-most decode c [] d = omega arith
  under_way-most decode c (e ∷ es) d = ground arith

  refused-Records :
      (decode : Text → Text) (c : Access) (start n m : ℕ) (es : List LoginStep) (d : Desk)
      → All (IsWrong decode c k start) es
      → Records k start n d.limiter
      → most decode c k es d ≤ m
      → suc (n + under_way k d.waiting) ≤ login_max_attempts + m
      → suc (n + refused decode c k es d) ≤ login_max_attempts + m
  unfolding refused most
  refused-Records decode c start n m [] d h v peak fits = omega arith
  refused-Records decode c start n m (e ∷ es) d h v peak fits =
      let (answer, d') = login_step decode c e d in
      let (kept, grows) = step-Advances decode c start n e d h.0 v in
      let n' : ℕ = counted e n answer in
      let rest : most decode c k es d' ≤ m = ground arith in
      let here = under_way-most decode c es d' in
      let ih = refused-Records decode c start n' m es d' h.1 kept rest (ground arith) in
      ground arith

-- The logins of many clients run at once, their steps in any order: after any history of such
-- steps from an empty limiter, and over any further steps with no clock reading before the start
-- of a window of five minutes, with every arrival within it and every token from one address
-- wrong, the number of tokens from that address that are compared and refused is less than five
-- and the largest number of its logins that wait at the same time. With one login at a time it is
-- at most five.
pub refused-le :
    (decode : Text → Text) (c : Access) (k : Text) (start : ℕ) (before es : List LoginStep)
    → All (IsWrong decode c k start) es
    → let d = login_steps decode c before (record { limiter = new_limiter; waiting = [] }) in
      refused decode c k es d < login_max_attempts + most decode c k es d
refused-le decode c k start before es h =
    let d = login_steps decode c before (record { limiter = new_limiter; waiting = [] }) in
    let v =
      IsConsistent-Records k start d.limiter (
        steps-IsConsistent k decode c before (record { limiter = new_limiter; waiting = [] }) tt) in
    let here = under_way-most k decode c es d in
    omega (
      arith,
      refused-Records k decode c start 0 (most decode c k es d) es d h v (omega arith)
          (omega arith),
    )
