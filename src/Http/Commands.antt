-- ===== src/Http/Commands.antt =====
-- `handleAPICommand` of rflink/http_server.go: a command of an HTTP client on its way to the serial
-- port. `decode` is the command of a JSON body, or empty.
use go_rflink.Prelude.{
  ℕ, ◌≡◌, refl, inl, inr, Bool, false, not, ◌&&◌, Option, none, some, if◌then◌else◌, Bool-cases,
  arith,
}
use go_rflink.Prelude.Text.{Text, codes, is_empty, has_prefix}
use go_rflink.Strings.{trim_space}
use go_rflink.App.{
  App, Settings, CmdResult, Status, rejected, rate_limited, serial_down, error, sent,
  execute_command,
}
use go_rflink.Http.{
  Access, Method, get_method, post_method, put_method, patch_method, delete_method, options_method,
  other_method,
}
use go_rflink.Http.Auth.{effective_read_only}

pub data CommandResponse : Type 0 where
  method_not_allowed read_only read_failed empty_command : CommandResponse
  executed : ℕ → CmdResult → CommandResponse

-- The HTTP status for the status of a result.
abbrev pub http_status : Status → ℕ
http_status rejected = 400
http_status rate_limited = 400
http_status serial_down = 503
http_status error = 503
http_status sent = 200

abbrev pub command_payload : (Text → Text) → Text → Text
command_payload decode body =
    let payload = trim_space body in
    if has_prefix payload (codes "{") && not (is_empty (decode body)) then decode body else payload

-- The lines from the payload on.
unfoldable pub execute_payload : Settings → ℕ → ℕ → Bool → Text → App → CommandResponse × App
unfolding execute_command
execute_payload s now later accepted payload a =
    let (res, a') = execute_command s now later accepted payload a in
    if is_empty payload then (empty_command, a) else (executed (http_status res.status) res, a')

-- none is a body that cannot be read.
unfoldable pub handle_api_command :
    (Text → Text)
    → Access
    → Settings
    → ℕ
    → ℕ
    → Bool
    → Method
    → Option Text
    → App
    → CommandResponse × App
unfolding execute_payload
handle_api_command decode c s now later accepted post_method none a =
    ((if effective_read_only c then read_only else read_failed), a)
handle_api_command decode c s now later accepted post_method (some body) a =
    if effective_read_only c
    then (read_only, a)
    else execute_payload s now later accepted (command_payload decode body) a
handle_api_command decode c s now later accepted _ body a = (method_not_allowed, a)

execute_payload-cases :
    (s : Settings) (now later : ℕ) (accepted : Bool) (payload : Text) (a : App)
    → execute_payload s now later accepted payload a ≡ (
        if is_empty payload then (empty_command, a) else (
          executed
              (http_status (execute_command s now later accepted payload a).0.status)
              (execute_command s now later accepted payload a).0,
          (execute_command s now later accepted payload a).1,
        ))
unfolding execute_payload
execute_payload-cases s now later accepted payload a = refl

http_status-sent : (s : Status) → http_status s ≡ 200 → s ≡ sent
http_status-sent rejected h = absurd (ground arith)
http_status-sent rate_limited h = absurd (ground arith)
http_status-sent serial_down h = absurd (ground arith)
http_status-sent error h = absurd (ground arith)
http_status-sent sent h = refl

execute_payload-sent :
    (s : Settings) (now later : ℕ) (accepted : Bool) (payload : Text) (a : App) (res : CmdResult)
    → (execute_payload s now later accepted payload a).0 ≡ executed 200 res
    → (res.status ≡ sent)
      × (execute_command s now later accepted payload a
          ≡ (res, (execute_payload s now later accepted payload a).1))
execute_payload-sent s now later accepted payload a res h =
    let e = execute_payload-cases s now later accepted payload a in
    let (made, a') = execute_command s now later accepted payload a in
    elim (Bool-cases (is_empty payload)) [
      | inl blank ↦ absurd (ground arith)
      | inr full ↦
          let same : made ≡ res = ground arith in
          let code : http_status made.status ≡ 200 = ground arith in
          (http_status-sent res.status (ground arith), ground arith)
    ]

-- An answer with status 200 is that of a POST to a server that is not read-only, and it reports what
-- `ExecuteCommand` sent.
pub handle_api_command-sent :
    (decode : Text → Text) (c : Access) (s : Settings) (now later : ℕ) (accepted : Bool)
    (method : Method) (body : Text) (a : App) (res : CmdResult)
    → (handle_api_command decode c s now later accepted method (some body) a).0 ≡ executed 200 res
    → (method ≡ post_method)
      × (effective_read_only c ≡ false)
      × (res.status ≡ sent)
      × (execute_command s now later accepted (command_payload decode body) a
          ≡ (res, (handle_api_command decode c s now later accepted method (some body) a).1))
unfolding handle_api_command
handle_api_command-sent decode c s now later accepted post_method body a res h =
    elim (Bool-cases (effective_read_only c)) [
      | inl locked ↦ absurd (ground arith)
      | inr open_ ↦
          let (is_sent, same) =
            execute_payload-sent s now later accepted (command_payload decode body) a res
              (rw open_ at h) in
          (refl, open_, is_sent, rw (open_, handle_api_command) same)
    ]
handle_api_command-sent decode c s now later accepted get_method body a res h =
    absurd (ground arith)
handle_api_command-sent decode c s now later accepted put_method body a res h =
    absurd (ground arith)
handle_api_command-sent decode c s now later accepted patch_method body a res h =
    absurd (ground arith)
handle_api_command-sent decode c s now later accepted delete_method body a res h =
    absurd (ground arith)
handle_api_command-sent decode c s now later accepted options_method body a res h =
    absurd (ground arith)
handle_api_command-sent decode c s now later accepted other_method body a res h =
    absurd (ground arith)
