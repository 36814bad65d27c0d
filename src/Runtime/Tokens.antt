-- ===== src/Runtime/Tokens.antt =====
-- The administration of API tokens: `createAPIToken` and `deleteAPIToken` of rflink/http_server.go,
-- over the runtime manager. A body enters as it decodes.
pub mod Admin
use go_rflink.Prelude.{
  ℕ, ◌-◌, Bool, true, false, not, ◌&&◌, ◌||◌, Option, none, some, List, [], ◌∷◌, ◌++◌,
  if◌then◌else◌, length, drop, keep,
}
use go_rflink.Prelude.Text.{Text, codes, text_eq, is_empty}
use go_rflink.Strings.{Unicode, trim_space, to_lower, equal_fold, join}
use go_rflink.Tokens.{
  External, ApiToken, default_api_token_scopes, hash_api_token, parse_scope_list, expiry_of,
}
use go_rflink.Webhooks.{RuntimeWebhook}
use go_rflink.Http.{Access}
use go_rflink.Http.Auth.{effective_read_only}
use go_rflink.Runtime.{
  RuntimeFile, RuntimeApiToken, Environment, Source, env, runtime, empty_file, or_else,
}
use go_rflink.Runtime.Disk.{Faults}
use go_rflink.Runtime.Manager.{Manager, save_overlay}

pub record TokenRequest : Type 0 where
  pub name : Text
  pub expire : Text
  pub scopes : List Text

pub data TokenResponse : Type 0 where
  read_only name_required token_generate_failed name_already_exists save_failed : TokenResponse
  created : RuntimeApiToken → List Text → TokenResponse
  deleted : TokenResponse

-- The patch that has the one key.
abbrev pub token_patch : Option (List RuntimeApiToken) → RuntimeFile
token_patch list = record empty_file { api_tokens = list }

-- The loop that moves the tokens of the environment into the file; `format` writes RFC 3339.
unfoldable pub materialized : (ℕ → Text) → List ApiToken → List RuntimeApiToken
materialized format [] = []
materialized format (t ∷ ts) =
    record {
      name = t.name;
      token_hash = t.hash;
      token_suffix = t.suffix;
      expires_at = elim t.expires_at [ none ↦ none | some e ↦ some (format e) ];
      created_at = format t.created_at;
      scopes = t.scopes;
    }
    ∷ materialized format ts

-- The list that an operation starts from; an empty one of the environment stays nil.
unfoldable pub token_list : (ℕ → Text) → Manager → Option (List RuntimeApiToken)
unfolding materialized
token_list format m = elim m.sources.api_tokens [
  | runtime ↦ m.file.api_tokens
  | env ↦ elim m.live.api_tokens [ [] ↦ none | t ∷ ts ↦ some (materialized format (t ∷ ts)) ]
]

module _ ⦃u : Unicode⦄ where
  unfoldable pub name_taken : Text → List RuntimeApiToken → Bool
  name_taken name [] = false
  name_taken name (t ∷ ts) = text_eq (to_lower t.name) (to_lower name) || name_taken name ts

  abbrev pub requested_scopes : List Text → List Text
  requested_scopes [] = default_api_token_scopes
  requested_scopes (s ∷ scopes) = parse_scope_list (join b',' (s ∷ scopes))

  -- The loop of `deleteAPIToken`.
  unfoldable pub without : Text → List RuntimeApiToken → List RuntimeApiToken
  without name = keep (λ t. not (equal_fold t.name name))

  -- The entry for a new secret.
  unfoldable pub entry_of : External → (ℕ → Text) → Text → ℕ → Text → TokenRequest → RuntimeApiToken
  unfolding expiry_of parse_scope_list
  entry_of x format pepper now secret req = record {
    name = trim_space req.name;
    token_hash = hash_api_token x pepper secret;
    token_suffix = drop (length secret - 4) secret;
    expires_at = elim (expiry_of x now req.expire) [ none ↦ none | some t ↦ some (format t) ];
    created_at = format now;
    scopes = requested_scopes req.scopes;
  }

  module _ (x : External) (hooks_of : Text → List RuntimeWebhook) (e : Environment) where
    -- `createAPIToken`; `req` is none for a body that does not decode, and `secret` is what
    -- `generateAPITokenSecret` gives.
    unfoldable pub create_api_token :
        (ℕ → Text)
        → Access
        → Faults
        → ℕ
        → Option Text
        → Option TokenRequest
        → Manager
        → TokenResponse × Manager
    unfolding save_overlay entry_of name_taken token_list
    create_api_token format c faults now secret none m =
        ((if effective_read_only c then read_only else name_required), m)
    create_api_token format c faults now none (some req) m = (
      (if effective_read_only c
          then read_only
          else if is_empty (trim_space req.name)
          then name_required
          else token_generate_failed),
      m,
    )
    create_api_token format c faults now (some secret) (some req) m =
        let entry = entry_of x format e.api_token_pepper now secret req in
        let list = or_else [] (token_list format m) in
        let (first, m') =
          save_overlay x hooks_of e faults (format now) now
            (token_patch (some (list ++ entry ∷ []))) m in
        if effective_read_only c
        then (read_only, m)
        else if is_empty (trim_space req.name)
        then (name_required, m)
        else if name_taken entry.name list
        then (name_already_exists, m)
        else (elim first [ none ↦ (save_failed, m') | some keys ↦ (created entry keys, m') ])

    -- `filtered` is written over the list that it is made from. When that is the list of the file
    -- in memory, what stood behind the entries kept still stands there.
    abbrev pub overwritten : List RuntimeApiToken → List RuntimeApiToken → Manager → Manager
    overwritten kept ts m = elim m.sources.api_tokens [
      | runtime ↦ record m {
        file = record (m.file) { api_tokens = some (kept ++ drop (length kept) ts) };
      }
      | env ↦ m
    ]

    -- The lines of `deleteAPIToken` from the list on.
    unfoldable pub delete_named :
        (ℕ → Text)
        → Faults
        → ℕ
        → Text
        → Option (List RuntimeApiToken)
        → Manager
        → TokenResponse × Manager
    unfolding save_overlay without
    delete_named format faults now name list m =
        let kept = elim list as (λ o. Option (List RuntimeApiToken)) [
          | none ↦ none
          | some ts ↦ some (without name ts)
        ] in
        let m0 = elim list as (λ o. Manager) [
          | none ↦ m
          | some ts ↦ overwritten (without name ts) ts m
        ] in
        let (first, m') = save_overlay x hooks_of e faults (format now) now (token_patch kept) m0 in
        elim first [ none ↦ (save_failed, m') | some keys ↦ (deleted, m') ]

    -- `deleteAPIToken`, by the name in the query or else in the body.
    unfoldable pub delete_api_token :
        (ℕ → Text) → Access → Faults → ℕ → Text → Text → Manager → TokenResponse × Manager
    unfolding delete_named token_list
    delete_api_token format c faults now query_name body_name m =
        let name =
          if is_empty (trim_space query_name)
          then trim_space body_name
          else trim_space query_name in
        if effective_read_only c
        then (read_only, m)
        else if is_empty name
        then (name_required, m)
        else delete_named format faults now name (token_list format m) m
