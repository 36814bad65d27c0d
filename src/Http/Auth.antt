-- ===== src/Http/Auth.antt =====
-- `protect` of rflink/http_server.go with its three checks, `requireGUISession`, and `checkAuthWS`
-- of rflink/http_ws.go. Each looks sessions up at its own reading of the clock.
use go_rflink.Prelude.{
  ℕ, Bool, true, false, not, ◌&&◌, ◌||◌, Option, none, some, [], ◌++◌, if◌then◌else◌, take, drop,
}
use go_rflink.Prelude.Text.{Text, codes, text_eq, is_empty, has_prefix}
use go_rflink.Strings.{Unicode, trim_space, equal_fold}
use go_rflink.Session.{Session, Store, get}
use go_rflink.Tokens.{External, ApiToken, has_scope, valid_api_token}
use go_rflink.Http.{Method, Request, Access, Identity, session, api, mutating, is_get}

pub data Verdict : Type 0 where
  unauthorized csrf_failed : Verdict
  insufficient_scope : Text → Verdict
  admitted : Identity → Verdict

abbrev pub is_live : Option Session → Bool
is_live none = false
is_live (some s) = true

abbrev pub gui_locked : Access → Bool
gui_locked c = is_empty (trim_space c.auth_token)

abbrev pub effective_read_only : Access → Bool
effective_read_only c = c.read_only || gui_locked c

-- `scopeForPath`; the empty text is no scope.
unfoldable pub scope_for_path : Method → Text → Text
scope_for_path method path =
    let is = λ (p : Text). text_eq path (codes "/api/v1/" ++ p) in
    if is (codes "health")
      || is (codes "sensors")
      || is (codes "rflink/raw")
      || is (codes "rate_limit")
      || is (codes "serial")
      || is (codes "config/backups")
    then codes "read"
    else if is (codes "config")
    then (if is_get method then codes "read" else codes "admin")
    else if is (codes "config/restore")
    then codes "admin"
    else if is (codes "command") || is (codes "ha/rediscover")
    then codes "command"
    else if is (codes "tokens") || is (codes "sessions")
    then codes "admin"
    else if has_prefix path (codes "/api/v1/")
    then codes "read"
    else []

-- The header that echoes the CSRF cookie.
abbrev pub csrf_echo : Request → Text
csrf_echo r = if is_empty r.csrf_header then r.xsrf_header else r.csrf_header

unfoldable pub check_csrf : ℕ → Request → Store → Bool × Store
unfolding get
check_csrf now r s =
    let (found, s') = get r.session_id now s in
    if is_live found
    then (not (is_empty r.csrf_cookie) && text_eq (csrf_echo r) r.csrf_cookie, s')
    else (true, s')

module _ ⦃u : Unicode⦄ where
  -- The token behind "bearer "; the source compares the first seven bytes.
  unfoldable pub bearer : Text → Text
  bearer auth = if equal_fold (take 7 auth) (codes "bearer ") then trim_space (drop 7 auth) else []

  abbrev pub presented : Request → Text
  presented r = if is_empty r.x_api_token then bearer r.authorization else r.x_api_token

  abbrev pub token_answer : External → Access → ℕ → Text → Option ApiToken × Bool
  token_answer x c now got =
      if is_empty got
      then (none, false)
      else valid_api_token x c.api_token_pepper now c.api_tokens got

  abbrev pub identity_of : Option ApiToken × Bool → Option Identity
  identity_of (some t, true) = some (api t)
  identity_of _ = none

  unfoldable pub check_auth : External → Access → ℕ → Request → Store → Option Identity × Store
  unfolding get bearer valid_api_token
  check_auth x c now r s =
      let (found, s') = get r.session_id now s in
      if is_live found
      then (some session, s')
      else (identity_of (token_answer x c now (presented r)), s')

  -- `checkScope`; the scope that is missing, if one is.
  unfoldable pub check_scope : Request → Identity → Option Text
  unfolding scope_for_path
  check_scope r session = none
  check_scope r (api t) =
      let need = scope_for_path r.method r.path in
      if is_empty need || has_scope t need then none else some need

  -- The checks behind `checkAuth`.
  unfoldable pub check_admitted : ℕ → Request → Store → Identity → Verdict × Store
  unfolding check_csrf check_scope
  check_admitted later r s i =
      let (passed, s') = if mutating r.method then check_csrf later r s else (true, s) in
      if not passed then (csrf_failed, s') else (elim (check_scope r i) [
        | none ↦ (admitted i, s')
        | some need ↦ (insufficient_scope need, s')
      ])

  -- `protect`, up to the call of the handler.
  unfoldable pub protect : External → Access → ℕ → ℕ → Request → Store → Verdict × Store
  unfolding check_auth check_admitted
  protect x c now later r s =
      let (who, s') = check_auth x c now r s in
      elim who [ none ↦ (unauthorized, s') | some i ↦ check_admitted later r s' i ]

  -- `checkAuthWS`, which also takes the token from the query.
  unfoldable pub check_auth_ws : External → Access → ℕ → Request → Store → Bool × Store
  unfolding get bearer valid_api_token
  check_auth_ws x c now r s =
      let (found, s') = get r.session_id now s in
      let got = if is_empty (presented r) then trim_space r.query_token else presented r in
      if is_live found then (true, s') else ((token_answer x c now got).1, s')

-- What `requireGUISession` answers.
pub data GuiAnswer : Type 0 where
  gui_auth_not_configured gui_session_required gui_admitted : GuiAnswer

unfoldable pub require_gui_session : Access → ℕ → Request → Store → GuiAnswer × Store
unfolding get
require_gui_session c now r s =
    let (found, s') = get r.session_id now s in
    if gui_locked c
    then (gui_auth_not_configured, s)
    else if is_live found
    then (gui_admitted, s')
    else (gui_session_required, s')
