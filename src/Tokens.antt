-- ===== src/Tokens.antt =====
-- The API tokens of machine clients: `apiToken`, its scopes and expiry, and the list of tokens in
-- `API_AUTH_TOKEN`, of rflink/runtime_config.go. Times are nanoseconds; a zero time does not occur.
-- SHA-256 and Go's readers of durations and dates are fields of `External`.
pub mod Scopes
pub mod Valid
pub mod Entries
use go_rflink.Prelude.{
  ℕ, suc, ◌+◌, ◌-◌, Bool, true, false, not, ◌&&◌, ◌||◌, Option, none, some, List, [], ◌∷◌, ◌++◌,
  ltb, if◌then◌else◌, length, drop,
}
use go_rflink.Prelude.Text.{Text, codes, text_eq, is_empty, byte_len}
use go_rflink.Strings.{
  Unicode, trim_space, to_lower, contains, equal_fold, split, split_n, replace_all,
}
use go_rflink.Options.{split_csv, collect_parts, mem}
use go_rflink.Options.Settings.{ℤ, pos, negsuc}

-- `sha256` with its hexadecimal form, `time.ParseDuration`, and `time.Parse` for RFC 3339 and for
-- a date.
pub record External : Type 0 where
  pub digest : Text → Text
  pub parse_duration : Text → Option ℤ
  pub parse_rfc3339 : Text → Option ℕ
  pub parse_date : Text → Option ℕ

pub record ApiToken : Type 0 where
  pub name : Text
  pub hash : Text
  pub suffix : Text
  pub expires_at : Option ℕ
  pub created_at : ℕ
  pub scopes : List Text

abbrev pub default_api_token_scopes : List Text
default_api_token_scopes = codes "read" ∷ codes "command" ∷ []

-- `t.Add(d)`; a sum before the origin of the clock is the origin.
abbrev pub add : ℕ → ℤ → ℕ
add t (pos n) = t + n
add t (negsuc n) = t - suc n

abbrev pub or_default : List Text → List Text
or_default [] = default_api_token_scopes
or_default (s ∷ scopes) = s ∷ scopes

abbrev pub is_admin : Text → Bool
is_admin s = text_eq s (codes "admin") || text_eq s (codes "*") || text_eq s (codes "all")

-- `hashAPIToken`
abbrev pub hash_api_token : External → Text → Text → Text
hash_api_token x pepper raw = x.digest (if is_empty pepper then raw else pepper ++ b':' ∷ raw)

-- The last four bytes, for a token of ASCII characters.
abbrev pub suffix_of : Text → Text
suffix_of tok = if ltb 4 (byte_len tok) then drop (length tok - 4) tok else tok

module _ ⦃u : Unicode⦄ where
  -- The loop of `hasScope`.
  unfoldable pub scope_among : List Text → Text → Bool
  scope_among [] scope = false
  scope_among (s ∷ rest) scope =
      let s' = to_lower (trim_space s) in
      is_admin s' || text_eq s' (to_lower scope) || scope_among rest scope

  abbrev pub has_scope : ApiToken → Text → Bool
  has_scope t scope = scope_among (or_default t.scopes) scope

  -- The loop of `parseScopeList`; `seen` and `out` hold the same scopes.
  unfoldable pub collect_scopes : List Text → List Text → List Text
  collect_scopes [] out = out
  collect_scopes (p ∷ ps) out =
      let p' = to_lower (trim_space p) in
      collect_scopes ps (if is_empty p' || mem p' out then out else out ++ p' ∷ [])

  unfoldable pub parse_scope_list : Text → List Text
  unfolding collect_scopes split
  parse_scope_list raw =
      let s = trim_space raw in
      if is_empty s
      then default_api_token_scopes
      else or_default (collect_scopes (split b',' (replace_all b'+' b',' s)) [])

  -- The part of `parseTokenExpiry` for a text that is there.
  unfoldable pub expiry_of : External → ℕ → Text → Option ℕ
  expiry_of x now raw =
      let s = trim_space raw in
      let has_unit = contains s (codes "s") || contains s (codes "m") || contains s (codes "h") in
      if is_empty s || equal_fold s (codes "never") then none else (elim (x.parse_duration s) [
        | some d ↦ some (add now d)
        | none ↦ elim (if has_unit then none else x.parse_duration (s ++ codes "h")) [
          | some h ↦ some (add now h)
          | none ↦ elim (x.parse_rfc3339 s) [ some t ↦ some t | none ↦ x.parse_date s ]
        ]
      ])

  unfoldable pub parse_token_expiry : External → ℕ → List Text → Option ℕ
  unfolding expiry_of
  parse_token_expiry x now [] = none
  parse_token_expiry x now (s ∷ rest) = expiry_of x now s

  -- The token of the pieces of an entry, split at its first three colons.
  token_of_bits : External → Text → ℕ → List Text → Option ApiToken
  unfolding parse_token_expiry parse_scope_list
  token_of_bits x pepper now (name ∷ tok ∷ rest) =
      let name' = trim_space name in
      let tok' = trim_space tok in
      if is_empty name' || is_empty tok'
      then none
      else some (record {
        name = name';
        hash = hash_api_token x pepper tok';
        suffix = suffix_of tok';
        expires_at = parse_token_expiry x now rest;
        created_at = now;
        scopes = scopes_of rest;
      })
    where
      scopes_of : List Text → List Text
      scopes_of (expire ∷ scopes ∷ _) = parse_scope_list scopes
      scopes_of _ = default_api_token_scopes
  token_of_bits x pepper now _ = none

  unfoldable pub token_of : External → Text → ℕ → Text → Option ApiToken
  unfolding token_of_bits split_n
  token_of x pepper now part = token_of_bits x pepper now (split_n b':' 4 part)

  -- The entries are the parts that `splitCSV` gives as well.
  unfoldable pub parse_api_auth_tokens : External → Text → ℕ → Text → List ApiToken
  unfolding token_of split_csv collect_parts
  parse_api_auth_tokens x pepper now raw =
      if is_empty (trim_space raw)
      then []
      else collect_parts (token_of x pepper now) (split_csv (trim_space raw))

abbrev pub is_expired : ℕ → ApiToken → Bool
is_expired now t = elim t.expires_at [ none ↦ false | some e ↦ ltb e now ]

-- The loop of `validAPIToken`: the first token of the hash decides.
unfoldable pub find_token : ℕ → Text → List ApiToken → Option ApiToken × Bool
find_token now h [] = (none, false)
find_token now h (t ∷ ts) =
    if text_eq t.hash h then (some t, not (is_expired now t)) else find_token now h ts

unfoldable pub valid_api_token : External → Text → ℕ → List ApiToken → Text → Option ApiToken × Bool
unfolding find_token
valid_api_token x pepper now tokens raw =
    let s = trim_space raw in
    if is_empty s then (none, false) else find_token now (hash_api_token x pepper s) tokens

-- `guiTokenOK`
unfoldable pub gui_token_ok : Text → Text → Bool
gui_token_ok auth_token raw =
    let want = trim_space auth_token in
    if is_empty want then false else text_eq (trim_space raw) want
