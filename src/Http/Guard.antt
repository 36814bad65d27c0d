-- ===== src/Http/Guard.antt =====
-- Who gets through `protect` and `requireGUISession` of rflink/http_server.go.
use go_rflink.Prelude.{
  ℕ, ◌≤◌, ◌≡◌, ◌↔◌, ◌≢◌, refl, sym, ap, ◌∙◌, inl, inr, Bool, true, false, not, ◌||◌, Option, none,
  some, arith, Bool-cases,
}
use go_rflink.Strings.{Unicode}
use go_rflink.Session.{Store, get}
use go_rflink.Tokens.{External, ApiToken}
use go_rflink.Http.{Request, Access, Identity, session, api, mutating}
use go_rflink.Http.Auth.{
  admitted, is_live, gui_locked, presented, token_answer, check_auth, check_scope, protect,
  gui_admitted, require_gui_session,
}
use go_rflink.Http.Checks.{
  live_at, echoes_csrf, csrf_holds, concluded, get_dead, get_store, check_auth_store,
  check_auth_live, check_auth_dead, identity_of_iff, identity_of_api, protect-concluded,
  concluded_iff, check_admitted_store,
}

module _ ⦃u : Unicode⦄ (x : External) (c : Access) where
  not_api : (t : ApiToken) → some session ≢ some (api t)
  not_api t e = ground arith

  skipped : (a b d : Bool) → b ≡ false → (not a || not b || d) ≡ true
  skipped a b d h = ground arith

  csrf_skipped :
      (now later : ℕ) (r : Request) (s : Store)
      → now ≤ later
      → live_at now r s ≡ false
      → csrf_holds later r (check_auth x c now r s).1 ≡ true
  csrf_skipped now later r s after dead =
      let s' = (get r.session_id now s).1 in
      let gone : live_at later r s' ≡ false =
        get_store r.session_id now later s (get_dead r.session_id now later s after dead) in
      ap (csrf_holds later r) (check_auth_store x c now r s)
      ∙ skipped (mutating r.method) (live_at later r s') (echoes_csrf r) gone

  -- `protect` admits a request as that of a session exactly when the session of its cookie is live
  -- and, for a method that changes state while the session is still live at the second look, the
  -- CSRF header repeats a CSRF cookie that is not empty.
  pub protect_session_iff :
      (now later : ℕ) (r : Request) (s : Store)
      → ((protect x c now later r s).0 ≡ admitted session)
        ↔ ((live_at now r s ≡ true) × (csrf_holds later r s ≡ true))
  protect_session_iff now later r s = elim (Bool-cases (live_at now r s)) [
    | inl live ↦
        let e =
          protect-concluded x c now later r s
          ∙ ap (λ a. concluded x c later r a.0 a.1) (check_auth_live x c now r s live) in
        let iff = concluded_iff x c later r (some session) s session in
        rw e (λ h. (live, (iff.0 h).0), λ h. iff.1 (h.1, unfold check_scope in refl, refl))
    | inr dead ↦
        let e = protect-concluded x c now later r s in
        let iff =
          concluded_iff x c later r (check_auth x c now r s).0 (check_auth x c now r s).1 session in
        (
          λ h. absurd (
              identity_of_api x c (token_answer x c now (presented r))
                (sym (check_auth_dead x c now r s dead) ∙ (iff.0 (ap (λ a. a.0) (sym e) ∙ h)).2)),
          λ h. absurd (ground arith),
        )
  ]

  -- On a clock that does not run backwards `protect` admits a request as that of an API token
  -- exactly when the session of its cookie is not live, the token that the headers present is
  -- valid, and the token's scopes cover the path.
  pub protect_api_iff :
      (now later : ℕ) (r : Request) (s : Store) (t : ApiToken)
      → now ≤ later
      → ((protect x c now later r s).0 ≡ admitted (api t)) ↔ (
          (live_at now r s ≡ false)
          × (token_answer x c now (presented r) ≡ (some t, true))
          × (check_scope r (api t) ≡ none))
  protect_api_iff now later r s t after = elim (Bool-cases (live_at now r s)) [
    | inl live ↦
        let e =
          protect-concluded x c now later r s
          ∙ ap (λ a. concluded x c later r a.0 a.1) (check_auth_live x c now r s live) in
        let iff = concluded_iff x c later r (some session) s (api t) in
        rw e (λ h. absurd (not_api t (iff.0 h).2), λ h. absurd (ground arith))
    | inr dead ↦
        let e = protect-concluded x c now later r s in
        let s' = (check_auth x c now r s).1 in
        let iff = concluded_iff x c later r (check_auth x c now r s).0 s' (api t) in
        let who = check_auth_dead x c now r s dead in
        let id = identity_of_iff x c (token_answer x c now (presented r)) t in
        (
          λ h.
              (let (_, scope, is) = iff.0 (ap (λ a. a.0) (sym e) ∙ h) in
                (dead, id.0 (sym who ∙ is), scope)),
          λ h. ap (λ a. a.0) e ∙ iff.1 (csrf_skipped now later r s after dead, h.2, who ∙ id.1 h.1),
        )
  ]

  concluded_dead :
      (later then_ : ℕ) (r : Request) (who : Option Identity) (s : Store)
      → is_live (get r.session_id then_ s).0 ≡ false
      → is_live (get r.session_id then_ (concluded x c later r who s).1).0 ≡ false
  concluded_dead later then_ r none s dead = dead
  concluded_dead later then_ r (some i) s dead = check_admitted_store x c later then_ r s i dead

  -- On a clock that does not run backwards, a request that `protect` admits and that
  -- `requireGUISession` then admits is that of a session, and a GUI token is set.
  pub protect-require_gui_session :
      (now later then_ : ℕ) (r : Request) (s : Store) (i : Identity)
      → now ≤ then_
      → (protect x c now later r s).0 ≡ admitted i
      → (require_gui_session c then_ r (protect x c now later r s).1).0 ≡ gui_admitted
      → (i ≡ session) × (gui_locked c ≡ false)
  unfolding require_gui_session
  protect-require_gui_session now later then_ r s i after h g =
      let e = protect-concluded x c now later r s in
      let unlocked : gui_locked c ≡ false = ground arith in
      elim (Bool-cases (live_at now r s)) [
        | inl live ↦
            let e' =
              e ∙ ap (λ a. concluded x c later r a.0 a.1) (check_auth_live x c now r s live) in
            let who =
              ((concluded_iff x c later r (some session) s i).0 (ap (λ a. a.0) (sym e') ∙ h)).2 in
            (ground arith, unlocked)
        | inr dead ↦
            let s' = (check_auth x c now r s).1 in
            let gone : live_at then_ r s' ≡ false =
              ap (live_at then_ r) (check_auth_store x c now r s)
              ∙ get_store r.session_id now then_ s (get_dead r.session_id now then_ s after dead) in
            let end_ : live_at then_ r (protect x c now later r s).1 ≡ false =
              ap (λ a. live_at then_ r a.1) e
              ∙ concluded_dead later then_ r (check_auth x c now r s).0 s' gone in
            absurd (ground arith)
      ]
