-- ===== src/Http/Routes.antt =====
-- The routes of `startHTTPServer` in rflink/http_server.go, with the check that stands before each.
use go_rflink.Prelude.{
  ◌≡◌, refl, inl, inr, Bool, true, false, ◌||◌, List, [], ◌∷◌, ◌++◌, if◌then◌else◌, Bool-cases,
  arith,
}
use go_rflink.Prelude.Text.{Text, codes, text_eq, text_eq_iff, is_empty, has_prefix}
use go_rflink.Http.{Method}
use go_rflink.Http.Auth.{scope_for_path}

-- `protect`, the check of the web socket, or none. A path without a route of its own is that of the
-- page, which serves nothing but "/".
pub data Check : Type 0 where
  protected websocket open_ page : Check

abbrev protected_names : List Text
protected_names =
    codes "health"
    ∷ codes "sensors"
    ∷ codes "rflink/raw"
    ∷ codes "command"
    ∷ codes "ha/rediscover"
    ∷ codes "config"
    ∷ codes "config/restore"
    ∷ codes "config/backups"
    ∷ codes "tokens"
    ∷ codes "webhooks"
    ∷ codes "sessions"
    ∷ codes "serial"
    ∷ codes "rate_limit"
    ∷ []

unfoldable pub is_one_of : List Text → Text → Bool
is_one_of [] path = false
is_one_of (p ∷ names) path = text_eq path (codes "/api/v1/" ++ p) || is_one_of names path

unfoldable pub route : Text → Check
unfolding is_one_of
route path =
    let is = λ (p : Text). text_eq path (codes "/api/v1/" ++ p) in
    if text_eq path (codes "/healthz") || text_eq path (codes "/readyz")
    then open_
    else if is (codes "csrf") || is (codes "meta") || is (codes "session")
    then open_
    else if is (codes "rflink/raw/ws")
    then websocket
    else if is_one_of protected_names path
    then protected
    else page

has_prefix-append : (p s : Text) → has_prefix (p ++ s) p ≡ true
has_prefix-append [] s = refl
has_prefix-append (c ∷ p) s = ground (arith, has_prefix-append p s)

is_one_of-has_prefix :
    (names : List Text) (path : Text)
    → is_one_of names path ≡ true
    → has_prefix path (codes "/api/v1/") ≡ true
unfolding is_one_of
is_one_of-has_prefix [] path h = absurd (ground arith)
is_one_of-has_prefix (p ∷ names) path h =
    let full = codes "/api/v1/" ++ p in
    elim (Bool-cases (text_eq path full)) [
      | inl hit ↦ rw ((text_eq_iff path full).0 hit) (has_prefix-append (codes "/api/v1/") p)
      | inr miss ↦ is_one_of-has_prefix names path (rw miss at h)
    ]

scope_for_path_api :
    (method : Method) (path : Text)
    → has_prefix path (codes "/api/v1/") ≡ true
    → is_empty (scope_for_path method path) ≡ false
unfolding scope_for_path
scope_for_path_api method path h = ground arith

last_branch :
    (a b w d : Bool)
    → (if a
        then open_
        else if b
        then open_
        else if w
        then websocket
        else if d
        then protected
        else page)
      ≡ protected
    → d ≡ true
last_branch a b w d h = ground arith

route_protected : (path : Text) → route path ≡ protected → is_one_of protected_names path ≡ true
unfolding route
route_protected path h =
    last_branch (text_eq path (codes "/healthz") || text_eq path (codes "/readyz"))
      (text_eq path (codes "/api/v1/" ++ codes "csrf")
        || text_eq path (codes "/api/v1/" ++ codes "meta")
        || text_eq path (codes "/api/v1/" ++ codes "session"))
      (text_eq path (codes "/api/v1/" ++ codes "rflink/raw/ws")) (is_one_of protected_names path) h

-- Every path with the check `protect` needs a scope from an API token.
pub route-scope_for_path :
    (method : Method) (path : Text)
    → route path ≡ protected
    → is_empty (scope_for_path method path) ≡ false
route-scope_for_path method path h =
    scope_for_path_api method path
      (is_one_of-has_prefix protected_names path (route_protected path h))
