-- ===== src/Tokens/Entries.antt =====
-- What an entry of `API_AUTH_TOKEN` means to `parseAPIAuthTokens` and `validAPIToken` of
-- rflink/runtime_config.go.
use go_rflink.Prelude.{ℕ, suc, ◌≡◌, refl, ap, ◌∙◌, true, false, none, some, [], ◌∷◌, ◌++◌, arith}
use go_rflink.Prelude.Text.{Text, text_eq_refl, is_empty}
use go_rflink.Strings.{Unicode, cut, split_n}
use go_rflink.Strings.Split.{Lacks, cut-append, split_single}
use go_rflink.Strings.Trim.{IsTrimmed, trim_space_id}
use go_rflink.Options.{split_csv, collect_parts}
use go_rflink.Tokens.{
  External, ApiToken, default_api_token_scopes, hash_api_token, suffix_of, expiry_of,
  parse_scope_list, parse_token_expiry, token_of, parse_api_auth_tokens, find_token,
  valid_api_token,
}

-- A name or a secret that an entry can hold as it is.
pub record IsPlain (s : Text) : Type 0 where
  pub filled : is_empty s ≡ false
  pub trimmed : IsTrimmed s
  pub no_colon : Lacks b':' s

cut-none : (sep : ℕ) (s : Text) → Lacks sep s → cut sep s ≡ none
unfolding cut
cut-none sep [] h = refl
cut-none sep (c ∷ s) h = ground (arith, cut-none sep s h.1)

abbrev pub entry : Text → Text → Text
entry name tok = name ++ b':' ∷ tok

split_n-cut :
    (n : ℕ) (a s : Text)
    → Lacks b':' a
    → split_n b':' (suc (suc n)) (a ++ b':' ∷ s) ≡ a ∷ split_n b':' (suc n) s
unfolding split_n
split_n-cut n a s h = rw (cut-append b':' a s h, split_n) refl

split_n_last : (n : ℕ) (s : Text) → Lacks b':' s → split_n b':' (suc (suc n)) s ≡ s ∷ []
unfolding split_n
split_n_last n s h = rw (cut-none b':' s h, split_n) refl

split_n-entry :
    (name tok : Text)
    → IsPlain name
    → IsPlain tok
    → split_n b':' 4 (entry name tok) ≡ name ∷ tok ∷ []
split_n-entry name tok n t =
    split_n-cut 2 name tok n.no_colon ∙ ap (◌∷◌ name) (split_n_last 1 tok t.no_colon)

module _ ⦃u : Unicode⦄ (x : External) (pepper : Text) (now : ℕ) where
  abbrev pub plain_token : Text → Text → ApiToken
  plain_token name tok = record {
    name = name;
    hash = hash_api_token x pepper tok;
    suffix = suffix_of tok;
    expires_at = none;
    created_at = now;
    scopes = default_api_token_scopes;
  }

  token_of-entry :
      (name tok : Text)
      → IsPlain name
      → IsPlain tok
      → token_of x pepper now (entry name tok) ≡ some (plain_token name tok)
  unfolding token_of parse_token_expiry
  token_of-entry name tok n t = rw (split_n-entry name tok n t) (
      rw (trim_space_id name n.trimmed, trim_space_id tok t.trimmed) (rw (n.filled, t.filled) refl))

  -- Of an entry whose name, secret and expiry hold no colon, with the name and the secret trimmed
  -- and not empty, the text behind the third colon is the list of scopes, whatever colons it
  -- holds.
  pub token_of_cut :
      (name tok e rest : Text)
      → IsPlain name
      → IsPlain tok
      → Lacks b':' e
      → token_of x pepper now (entry name (entry tok (entry e rest)))
        ≡ some (record (plain_token name tok) {
          expires_at = expiry_of x now e;
          scopes = parse_scope_list rest;
        })
  unfolding token_of parse_token_expiry split_n
  token_of_cut name tok e rest n t h =
      let pieces : split_n b':' 4 (entry name (entry tok (entry e rest)))
          ≡ name ∷ tok ∷ e ∷ rest ∷ [] =
        split_n-cut 2 name (entry tok (entry e rest)) n.no_colon
        ∙ ap (◌∷◌ name)
            (split_n-cut 1 tok (entry e rest) t.no_colon ∙ ap (◌∷◌ tok) (split_n-cut 0 e rest h)) in
      rw pieces (
        rw (trim_space_id name n.trimmed, trim_space_id tok t.trimmed)
          (rw (n.filled, t.filled) refl))

  split_csv_single :
      (s : Text) → IsTrimmed s → is_empty s ≡ false → Lacks b',' s → split_csv s ≡ s ∷ []
  unfolding split_csv
  split_csv_single s t f h = rw (split_single b',' s h) (rw (trim_space_id s t) (rw f refl))

  is_empty-entry : (name tok : Text) → is_empty (entry name tok) ≡ false
  is_empty-entry [] tok = refl
  is_empty-entry (c ∷ name) tok = refl

  -- A setting of one entry `name:secret`, with both parts trimmed, not empty and without a colon,
  -- and the entry trimmed and without a comma, gives a token that never expires, and the secret is
  -- then valid at any time as that token.
  pub valid_api_token-entry :
      (later : ℕ) (name tok : Text)
      → IsPlain name
      → IsPlain tok
      → IsTrimmed (entry name tok)
      → Lacks b',' (entry name tok)
      → valid_api_token x pepper later (parse_api_auth_tokens x pepper now (entry name tok)) tok
        ≡ (some (plain_token name tok), true)
  unfolding valid_api_token parse_api_auth_tokens
  valid_api_token-entry later name tok n t e h =
      let parsed : parse_api_auth_tokens x pepper now (entry name tok) ≡ plain_token name tok ∷ [] =
        rw (trim_space_id (entry name tok) e, is_empty-entry name tok)
          (rw (split_csv_single (entry name tok) e (is_empty-entry name tok) h)
            (rw (token_of-entry name tok n t, collect_parts) refl)) in
      rw (trim_space_id tok t.trimmed, t.filled)
        (rw parsed (unfold find_token in (rw (text_eq_refl (hash_api_token x pepper tok)) refl)))
