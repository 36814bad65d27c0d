-- ===== src/Tokens/Valid.antt =====
-- Which API tokens `validAPIToken` of rflink/runtime_config.go lets in.
use go_rflink.Prelude.{
  ℕ, ◌≡◌, ◌↔◌, sym, ap, ◌∙◌, inl, inr, true, false, some, List, [], ◌∷◌, ◌++◌, arith, Bool-cases,
  All,
}
use go_rflink.Prelude.Text.{Text, text_eq, text_eq_iff, is_empty}
use go_rflink.Strings.{trim_space}
use go_rflink.Tokens.{External, ApiToken, hash_api_token, is_expired, find_token, valid_api_token}

-- The first token of the hash, and that it has not expired.
pub record Admits (now : ℕ) (h : Text) (tokens : List ApiToken) (t : ApiToken) : Type 0 where
  pub before : List ApiToken
  pub after : List ApiToken
  pub stands : tokens ≡ before ++ t ∷ after
  pub others : All (λ (o : ApiToken). text_eq o.hash h ≡ false) before
  pub hash_is : t.hash ≡ h
  pub lives : is_expired now t ≡ false

find_token-Admits :
    (now : ℕ) (h : Text) (tokens : List ApiToken) (t : ApiToken)
    → find_token now h tokens ≡ (some t, true)
    → Admits now h tokens t
unfolding find_token
find_token-Admits now h [] t e = absurd (ground arith)
find_token-Admits now h (x ∷ tokens) t e = elim (Bool-cases (text_eq x.hash h)) [
  | inl hit ↦
      let same : x ≡ t = ground arith in
      record {
        before = [];
        after = tokens;
        stands = ap (λ y. y ∷ tokens) same;
        others = tt;
        hash_is = ap (λ (y : ApiToken). y.hash) (sym same) ∙ (text_eq_iff x.hash h).0 hit;
        lives = ground arith;
      }
  | inr miss ↦
      let rest = find_token-Admits now h tokens t (ground arith) in
      record {
        before = x ∷ rest.before;
        after = rest.after;
        stands = ap (◌∷◌ x) rest.stands;
        others = (miss, rest.others);
        hash_is = rest.hash_is;
        lives = rest.lives;
      }
]

find_token-append :
    (now : ℕ) (h : Text) (before after : List ApiToken) (t : ApiToken)
    → All (λ (o : ApiToken). text_eq o.hash h ≡ false) before
    → t.hash ≡ h
    → is_expired now t ≡ false
    → find_token now h (before ++ t ∷ after) ≡ (some t, true)
unfolding find_token
find_token-append now h [] after t a e l = ground (arith, text_eq_iff t.hash h)
find_token-append now h (x ∷ before) after t a e l =
    rw (a.0, find_token) (find_token-append now h before after t a.1 e l)

-- A text that is not blank is let in by a token exactly when the token stands in the list with the
-- hash of the trimmed text, every token before it has another hash, and it has not expired.
pub valid_api_token_iff :
    (x : External) (pepper : Text) (now : ℕ) (tokens : List ApiToken) (raw : Text) (t : ApiToken)
    → is_empty (trim_space raw) ≡ false
    → (valid_api_token x pepper now tokens raw ≡ (some t, true))
      ↔ Admits now (hash_api_token x pepper (trim_space raw)) tokens t
unfolding valid_api_token
valid_api_token_iff x pepper now tokens raw t h =
    let key = hash_api_token x pepper (trim_space raw) in
    rw (h, valid_api_token)
      (
        find_token-Admits now key tokens t,
        λ (a : Admits now key tokens t).
            ap (find_token now key) a.stands
            ∙ find_token-append now key a.before a.after t a.others a.hash_is a.lives,
      )
