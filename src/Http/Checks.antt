-- ===== src/Http/Checks.antt =====
-- The steps of `protect` of rflink/http_server.go, one by one.
use go_rflink.Prelude.{
  ℕ, ◌≤◌, ◌≡◌, ◌↔◌, ◌≢◌, refl, sym, ap, ◌∙◌, inl, inr, Bool, true, false, not, ◌&&◌, ◌||◌, Option,
  none, some, arith, Bool-cases, Option-cases,
}
use go_rflink.Prelude.Text.{Text, text_eq, text_eq_refl, is_empty}
use go_rflink.Prelude.Maps.{lookup-delete}
use go_rflink.Strings.{Unicode}
use go_rflink.Session.{Store, get}
use go_rflink.Tokens.{External, ApiToken}
use go_rflink.Http.{Request, Access, Identity, session, api, mutating}
use go_rflink.Http.Auth.{
  Verdict, admitted, unauthorized, csrf_failed, insufficient_scope, is_live, csrf_echo, check_csrf,
  presented, token_answer, identity_of, check_auth, check_scope, check_admitted, protect,
}

-- The request has a session when it is looked up at a time.
abbrev pub live_at : ℕ → Request → Store → Bool
live_at now r s = is_live (get r.session_id now s).0

abbrev pub echoes_csrf : Request → Bool
echoes_csrf r = not (is_empty r.csrf_cookie) && text_eq (csrf_echo r) r.csrf_cookie

abbrev pub csrf_holds : ℕ → Request → Store → Bool
csrf_holds later r s = not (mutating r.method) || not (live_at later r s) || echoes_csrf r

-- A session that is not there at a time is not there later.
pub get_dead :
    (id : Text) (now later : ℕ) (s : Store)
    → now ≤ later
    → is_live (get id now s).0 ≡ false
    → is_live (get id later s).0 ≡ false
unfolding get
get_dead id now later s h dead = ground arith

-- Looking a session up does not bring one back.
pub get_store :
    (id : Text) (now later : ℕ) (s : Store)
    → is_live (get id later s).0 ≡ false
    → is_live (get id later (get id now s).1).0 ≡ false
unfolding get
get_store id now later s dead = ground (arith, lookup-delete id id s, text_eq_refl id)

module _ ⦃u : Unicode⦄ (x : External) (c : Access) where
  pub check_auth_store :
      (now : ℕ) (r : Request) (s : Store) → (check_auth x c now r s).1 ≡ (get r.session_id now s).1
  unfolding check_auth
  check_auth_store now r s = ground arith

  pub check_admitted_store :
      (later then_ : ℕ) (r : Request) (s : Store) (i : Identity)
      → is_live (get r.session_id then_ s).0 ≡ false
      → is_live (get r.session_id then_ (check_admitted later r s i).1).0 ≡ false
  unfolding check_admitted check_csrf
  check_admitted_store later then_ r s i dead = ground (arith, get_store r.session_id later then_ s)

  abbrev verdict_of : Bool → Option Text → Identity → Verdict
  verdict_of false missing i = csrf_failed
  verdict_of true none i = admitted i
  verdict_of true (some need) i = insufficient_scope need

  check_admitted-verdict_of :
      (later : ℕ) (r : Request) (s : Store) (i : Identity)
      → (check_admitted later r s i).0 ≡ verdict_of (csrf_holds later r s) (check_scope r i) i
  unfolding check_admitted check_csrf
  check_admitted-verdict_of later r s i = elim (Bool-cases (mutating r.method)) [
    | inr reads ↦
        rw (reads, check_admitted)
          (elim (Option-cases (check_scope r i)) [ inl e ↦ rw e refl | inr (need, e) ↦ rw e refl ])
    | inl writes ↦ elim (Bool-cases (live_at later r s)) [
      | inr dead ↦ elim (Option-cases (check_scope r i)) [
        | inl e ↦ rw (writes, dead, e, check_admitted, check_csrf) refl
        | inr (need, e) ↦ rw (writes, dead, e, check_admitted, check_csrf) refl
      ]
      | inl live ↦ elim (Bool-cases (echoes_csrf r)) [
        | inr bad ↦ rw (writes, live, bad, check_admitted, check_csrf) refl
        | inl good ↦ elim (Option-cases (check_scope r i)) [
          | inl e ↦ rw (writes, live, good, e, check_admitted, check_csrf) refl
          | inr (need, e) ↦ rw (writes, live, good, e, check_admitted, check_csrf) refl
        ]
      ]
    ]
  ]

  verdict_of_iff :
      (ok : Bool) (missing : Option Text) (i j : Identity)
      → (verdict_of ok missing i ≡ admitted j) ↔ ((ok ≡ true) × (missing ≡ none) × (i ≡ j))
  verdict_of_iff false missing i j = (λ h. ground arith, λ h. ground arith)
  verdict_of_iff true none i j = (λ h. ground arith, λ h. ground arith)
  verdict_of_iff true (some need) i j = (λ h. ground arith, λ h. ground arith)

  pub check_auth_live :
      (now : ℕ) (r : Request) (s : Store)
      → live_at now r s ≡ true
      → check_auth x c now r s ≡ (some session, s)
  unfolding check_auth get
  check_auth_live now r s live = ground arith

  pub check_auth_dead :
      (now : ℕ) (r : Request) (s : Store)
      → live_at now r s ≡ false
      → (check_auth x c now r s).0 ≡ identity_of (token_answer x c now (presented r))
  unfolding check_auth
  check_auth_dead now r s dead = rw (dead, check_auth) refl

  pub identity_of_iff :
      (a : Option ApiToken × Bool) (t : ApiToken)
      → (identity_of a ≡ some (api t)) ↔ (a ≡ (some t, true))
  identity_of_iff (none, b) t = (λ h. ground arith, λ h. ground arith)
  identity_of_iff (some a, true) t = (λ h. ground arith, λ h. ground arith)
  identity_of_iff (some a, false) t = (λ h. ground arith, λ h. ground arith)

  pub identity_of_api : (a : Option ApiToken × Bool) → identity_of a ≢ some session
  identity_of_api (none, b) e = ground arith
  identity_of_api (some a, true) e = ground arith
  identity_of_api (some a, false) e = ground arith

  abbrev pub concluded : ℕ → Request → Option Identity → Store → Verdict × Store
  concluded later r none s = (unauthorized, s)
  concluded later r (some i) s = check_admitted later r s i

  pub protect-concluded :
      (now later : ℕ) (r : Request) (s : Store)
      → protect x c now later r s
        ≡ concluded later r (check_auth x c now r s).0 (check_auth x c now r s).1
  unfolding protect
  protect-concluded now later r s = elim (Option-cases (check_auth x c now r s).0) [
    | inl e ↦ rw (e, protect) refl
    | inr (j, e) ↦ rw (e, protect) refl
  ]

  pub concluded_iff :
      (later : ℕ) (r : Request) (who : Option Identity) (s : Store) (i : Identity)
      → ((concluded later r who s).0 ≡ admitted i)
        ↔ ((csrf_holds later r s ≡ true) × (check_scope r i ≡ none) × (who ≡ some i))
  concluded_iff later r none s i = (λ h. ground arith, λ h. ground arith)
  concluded_iff later r (some j) s i =
      let found = check_admitted-verdict_of later r s j in
      let iff = verdict_of_iff (csrf_holds later r s) (check_scope r j) j i in
      (
        λ h.
            (let (ok, none_missing, e) = iff.0 (sym found ∙ h) in
              (ok, ap (check_scope r) (sym e) ∙ none_missing, ap some e)),
        λ (ok, none_missing, e).
            (let same = some_inj j i e in
              found ∙ iff.1 (ok, ap (check_scope r) same ∙ none_missing, same)),
      )
    where
      some_inj : (a b : Identity) → some a ≡ some b → a ≡ b
      some_inj a b e = cc
