-- ===== src/Http.antt =====
-- rflink/http_server.go and rflink/http_ws.go: requests, who makes them, and what each is let
-- through to. A header, a cookie or a query parameter that is missing is the empty text.
pub mod Auth
pub mod Checks
pub mod Guard
pub mod Proxy
pub mod Login
pub mod Desk
pub mod Lock
pub mod Hub
pub mod Commands
pub mod Routes
use go_rflink.Prelude.{Bool, true, false, List}
use go_rflink.Prelude.Text.{Text}
use go_rflink.Tokens.{ApiToken}

pub data Method : Type 0 where
  get_method post_method put_method patch_method delete_method options_method other_method : Method

pub record Request : Type 0 where
  pub method : Method
  pub path : Text
  pub session_id : Text
  pub csrf_cookie : Text
  pub csrf_header : Text
  pub xsrf_header : Text
  pub x_api_token : Text
  pub authorization : Text
  pub query_token : Text

-- The options that decide on access.
pub record Access : Type 0 where
  pub auth_token : Text
  pub read_only : Bool
  pub api_token_pepper : Text
  pub api_tokens : List ApiToken

-- `ctxAuthKind` with `ctxAPIToken`.
pub data Identity : Type 0 where
  session : Identity
  api : ApiToken → Identity

abbrev pub mutating : Method → Bool
mutating post_method = true
mutating put_method = true
mutating patch_method = true
mutating delete_method = true
mutating _ = false

abbrev pub is_get : Method → Bool
is_get get_method = true
is_get _ = false
