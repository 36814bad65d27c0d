-- ===== src/Http/Login.antt =====
-- The GUI login: `handleSession` and `handleSessions` of rflink/http_server.go, over the limiter and
-- the sessions. A body that is read as JSON enters as what the decoder makes of it.
use go_rflink.Prelude.{
  ℕ, ◌+◌, ◌/◌, Bool, true, false, not, Option, none, some, List, [], ◌∷◌, if◌then◌else◌,
}
use go_rflink.Prelude.Text.{Text, text_eq, is_empty}
use go_rflink.Strings.{trim_space}
use go_rflink.Session.{Session, Store, Row, get, create, revoke, revoke_all_except, list}
use go_rflink.Login.{Limiter, allow, fail, success}
use go_rflink.Tokens.{gui_token_ok}
use go_rflink.Http.{Request, Access, get_method, delete_method}
use go_rflink.Http.Auth.{
  csrf_echo, check_csrf, gui_locked, GuiAnswer, gui_admitted, require_gui_session,
}

pub record Gate : Type 0 where
  pub limiter : Limiter
  pub sessions : Store

pub data LoginResponse : Type 0 where
  login_csrf_failed gui_auth_not_configured login_unauthorized session_create_failed : LoginResponse
  too_many_attempts : ℕ → LoginResponse
  logged_in : Session → LoginResponse

abbrev pub login_csrf_ok : Request → Bool
login_csrf_ok r = if is_empty r.csrf_cookie then true else text_eq (csrf_echo r) r.csrf_cookie

-- `Retry-After`, in seconds.
abbrev pub retry_after : ℕ → ℕ
retry_after wait = wait / 1000000000 + 1

-- The token of the body: as JSON, or else the body itself.
abbrev pub login_token : (Text → Text) → Text → Text
login_token decode body = if is_empty (decode body) then trim_space body else decode body

-- `sessionLogin` up to the limiter; none goes on to the body. Between this step, the next and the
-- one after it the source holds no lock, so the steps of other requests may come in between.
unfoldable pub login_arrives : ℕ → Request → Text → Limiter → Option LoginResponse × Limiter
unfolding allow
login_arrives now r ip l =
    let ((ok, wait), l') = allow ip now l in
    if not (login_csrf_ok r)
    then (some login_csrf_failed, l)
    else if not ok
    then (some (too_many_attempts (retry_after wait)), l')
    else (none, l')

-- The test of the token, once the body is read; none goes on to the session.
unfoldable pub check_login : Access → ℕ → ℕ → Text → Text → Limiter → Option LoginResponse × Limiter
unfolding fail success gui_token_ok
check_login c now later ip token l =
    if gui_locked c
    then (some gui_auth_not_configured, l)
    else if not (gui_token_ok c.auth_token token)
    then (some login_unauthorized, fail ip now later l)
    else (none, success ip l)

-- The creation of the session; `fresh` is the id that is drawn.
unfoldable pub open_session : ℕ → Option Text → Text → Store → LoginResponse × Store
unfolding create
open_session now fresh ip s =
    let (sess, s') = create fresh ip now s in
    elim sess [ none ↦ (session_create_failed, s') | some made ↦ (logged_in made, s') ]

-- The clock readings of `sessionLogin`: in `allow`, the two in `fail`, and in `Create`.
pub record Readings : Type 0 where
  pub arrived : ℕ
  pub failed : ℕ
  pub locked : ℕ
  pub created : ℕ

-- `sessionLogin` with no other request between its steps. The cookies of a session that is made are
-- not shown.
unfoldable pub session_login :
    (Text → Text)
    → Access
    → Readings
    → Option Text
    → Request
    → Text
    → Text
    → Gate
    → LoginResponse × Gate
unfolding login_arrives check_login open_session
session_login decode c t fresh r ip body g =
    let (early, l) = login_arrives t.arrived r ip g.limiter in
    let (late, l') = check_login c t.failed t.locked ip (login_token decode body) l in
    let (opened, sessions) = open_session t.created fresh ip g.sessions in
    elim early [
      | some answer ↦ (answer, record g { limiter = l })
      | none ↦ elim late [
        | some answer ↦ (answer, record g { limiter = l' })
        | none ↦ (opened, record { limiter = l'; sessions = sessions })
      ]
    ]

-- `sessionLogout`; false is the refused CSRF check.
unfoldable pub session_logout : ℕ → Request → Store → Bool × Store
unfolding check_csrf revoke
session_logout now r s =
    let (ok, s') = check_csrf now r s in
    if not ok
    then (false, s')
    else if is_empty r.session_id
    then (true, s')
    else (true, (revoke r.session_id s').1)

-- `sessionStatus`: the expiry of the session, if there is one.
unfoldable pub session_status : ℕ → Request → Store → Option ℕ × Store
unfolding get
session_status now r s =
    let (found, s') = get r.session_id now s in
    (elim found [ none ↦ none | some sess ↦ some sess.expires_at ], s')

-- The body and the query of a DELETE of sessions, decoded.
pub record Removal : Type 0 where
  pub all : Bool
  pub id : Text
  pub query_id : Text

pub data SessionsResponse : Type 0 where
  refused : GuiAnswer → SessionsResponse
  listed : List (Row × Bool) → SessionsResponse
  id_or_all_required not_found revoked_one method_not_allowed : SessionsResponse
  revoked_others : ℕ → SessionsResponse

abbrev marked : Text → List Row → List (Row × Bool)
marked cur [] = []
marked cur (row ∷ rows) = (row, text_eq row.id cur) ∷ marked cur rows

unfoldable pub remove_sessions : Text → Removal → Store → SessionsResponse × Store
unfolding revoke revoke_all_except
remove_sessions cur q s =
    let id = if is_empty (trim_space q.id) then trim_space q.query_id else trim_space q.id in
    let (n, others) = revoke_all_except cur s in
    let (found, rest) = revoke id s in
    if q.all
    then (revoked_others n, others)
    else if is_empty id
    then (id_or_all_required, s)
    else if found
    then (revoked_one, rest)
    else (not_found, s)

-- `handleSessions`
unfoldable pub handle_sessions : Access → ℕ → Request → Removal → Store → SessionsResponse × Store
unfolding require_gui_session remove_sessions list
handle_sessions c now r q s =
    let (answer, s') = require_gui_session c now r s in
    elim answer [
      | gui_admitted ↦ elim r.method [
        | get_method ↦ (listed (marked r.session_id (list now s')), s')
        | delete_method ↦ remove_sessions r.session_id q s'
        | _ ↦ (method_not_allowed, s')
      ]
      | other ↦ (refused other, s')
    ]
