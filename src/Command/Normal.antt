-- ===== src/Command/Normal.antt =====
-- What `NormalizeCommand` and `CommandAllowed` of rflink/options.go let through, and what reaches
-- the serial line for it.
use go_rflink.Prelude.{
  ℕ, ◌≤◌, ◌≡◌, ◌↔◌, refl, sym, ap, subst, ◌∙◌, ◌⊎◌, inl, inr, Bool, true, false, ◌||◌, none, some,
  List, [], ◌∷◌, ◌++◌, ltb, ◌==◌, if◌then◌else◌, All, arith, Bool-cases,
}
use go_rflink.Prelude.Text.{Text, codes, is_empty, has_prefix, byte_len}
use go_rflink.Strings.{trim_space, ends_with, join, is_space}
use go_rflink.Strings.Split.{Lacks}
use go_rflink.Strings.Trim.{
  IsTrimmed, StartsOff, EndsOff, trim_space_id, trim_right_id, trim_space-IsTrimmed, EndsOff-append,
}
use go_rflink.Command.Grammar.{
  IsCommand, IsCommand-IsTrimmed, IsCommand-IsAscii, validate_rflink_command_sound,
  validate_rflink_command_complete, ends_with-append,
}
use go_rflink.Command.{
  CommandError, Result, ok, err, is_printable, checked, trim_crlf, with_semicolon,
  effective_max_len, normalize_command, validate_rflink_command, some_prefix, command_allowed, wire,
}

EndsOff-crlf : (s : Text) → EndsOff is_space s → EndsOff (λ c. c == b'\r' || c == b'\n') s
EndsOff-crlf [] h = tt
EndsOff-crlf (c ∷ []) h = ground arith
EndsOff-crlf (c ∷ d ∷ s) h = EndsOff-crlf (d ∷ s) h

trim_crlf_id : (s : Text) → IsTrimmed s → trim_crlf s ≡ s
trim_crlf_id s h = trim_right_id _ s (EndsOff-crlf s h.ends)

-- The three trims of `NormalizeCommand` are one.
trims : (s : Text) → trim_space (trim_crlf (trim_space s)) ≡ trim_space s
trims s =
    ap trim_space (trim_crlf_id (trim_space s) (trim_space-IsTrimmed s))
    ∙ trim_space_id (trim_space s) (trim_space-IsTrimmed s)

StartsOff-append :
    (p : ℕ → Bool) (s t : Text) → is_empty s ≡ false → StartsOff p s → StartsOff p (s ++ t)
StartsOff-append p [] t e h = cc
StartsOff-append p (c ∷ s) t e h = h

with_semicolon-IsTrimmed :
    (s : Text) → is_empty s ≡ false → IsTrimmed s → IsTrimmed (with_semicolon s)
with_semicolon-IsTrimmed s e h = elim (Bool-cases (ends_with b';' s)) [
  | inl there ↦ rw there h
  | inr missing ↦ rw missing (record {
    starts = StartsOff-append is_space s _ e h.starts;
    ends = EndsOff-append is_space s b';' refl;
  })
]

IsCommand-ends : (cmd : Text) → IsCommand cmd → ends_with b';' cmd ≡ true
IsCommand-ends cmd v =
    subst (λ c. ends_with b';' c ≡ true) (sym v.shape)
      (ends_with-append b';' (join b';' (v.node ∷ v.field ∷ v.fields)) refl)

IsCommand-empty : (cmd : Text) → IsCommand cmd → is_empty cmd ≡ false
IsCommand-empty cmd v = not_empty cmd (IsCommand-ends cmd v)
  where
    not_empty : (s : Text) → ends_with b';' s ≡ true → is_empty s ≡ false
    not_empty [] h = cc
    not_empty (c ∷ s) h = refl

-- What the body does with the trimmed payload.
core : ℕ → Text → Result Text
core max_len cmd =
    if is_empty cmd
    then err CommandError.empty_command
    else if ltb (effective_max_len max_len) (byte_len (with_semicolon cmd))
    then err CommandError.command_too_long
    else checked (with_semicolon cmd) (validate_rflink_command (with_semicolon cmd))

normalize-core :
    (max_len : ℕ) (payload : Text)
    → normalize_command max_len payload ≡ core max_len (trim_space payload)
unfolding normalize_command core
normalize-core max_len payload = rw trims

core_ok :
    (max_len : ℕ) (t cmd : Text)
    → core max_len t ≡ ok cmd
    → (cmd ≡ with_semicolon t)
      × (is_empty t ≡ false)
      × (byte_len cmd ≤ effective_max_len max_len)
      × (validate_rflink_command cmd ≡ none)
unfolding core
core_ok max_len t cmd h = ground arith

-- What `NormalizeCommand` returns is a command of the grammar, within the length limit: the
-- trimmed payload, with a final semicolon added where it has none.
pub normalize_command_sound :
    (max_len : ℕ) (payload cmd : Text)
    → normalize_command max_len payload ≡ ok cmd
    → IsCommand cmd
      × (cmd ≡ with_semicolon (trim_space payload))
      × (byte_len cmd ≤ effective_max_len max_len)
normalize_command_sound max_len payload cmd h =
    let t = trim_space payload in
    let (e, full, fits, valid) = core_ok max_len t cmd (sym (normalize-core max_len payload) ∙ h) in
    let trimmed =
      subst IsTrimmed (sym e) (with_semicolon-IsTrimmed t full (trim_space-IsTrimmed payload)) in
    (subst IsCommand (trim_space_id cmd trimmed) (validate_rflink_command_sound cmd valid), e, fits)

-- `NormalizeCommand` returns every command of the grammar within the length limit as it is.
pub normalize_command_id :
    (max_len : ℕ) (cmd : Text)
    → IsCommand cmd
    → byte_len cmd ≤ effective_max_len max_len
    → normalize_command max_len cmd ≡ ok cmd
unfolding core
normalize_command_id max_len cmd v fits =
    normalize-core max_len cmd
    ∙ ap (core max_len) (trim_space_id cmd (IsCommand-IsTrimmed cmd v))
    ∙ rw (IsCommand-empty cmd v, IsCommand-ends cmd v)
        (ground (arith, validate_rflink_command_complete cmd v))

-- A command that `NormalizeCommand` returned normalizes to itself under the same limit.
pub normalize_command_idem :
    (max_len : ℕ) (payload cmd : Text)
    → normalize_command max_len payload ≡ ok cmd
    → normalize_command max_len cmd ≡ ok cmd
normalize_command_idem max_len payload cmd h =
    let (v, e, fits) = normalize_command_sound max_len payload cmd h in
    normalize_command_id max_len cmd v fits

no_line_end : (c : ℕ) → is_printable c ≡ true → ((c == b'\r') ≡ false) × ((c == b'\n') ≡ false)
no_line_end c h = ground arith

no_line_ends : (s : Text) → All (λ c. is_printable c ≡ true) s → Lacks b'\r' s × Lacks b'\n' s
no_line_ends [] h = (tt, tt)
no_line_ends (c ∷ s) h =
    ((ground arith, (no_line_ends s h.1).0), (ground arith, (no_line_ends s h.1).1))

-- What `Write` sends for a normalized command is the command and one line end, and the command
-- itself holds no carriage return and no line feed.
pub wire-normalize_command :
    (max_len : ℕ) (payload cmd : Text)
    → normalize_command max_len payload ≡ ok cmd
    → (wire cmd ≡ some (cmd ++ codes "\r\n")) × Lacks b'\r' cmd × Lacks b'\n' cmd
unfolding wire
wire-normalize_command max_len payload cmd h =
    let v = (normalize_command_sound max_len payload cmd h).0 in
    let (r, n) = no_line_ends cmd (IsCommand-IsAscii cmd v) in
    (rw (trim_crlf_id cmd (IsCommand-IsTrimmed cmd v), IsCommand-empty cmd v), r, n)

-- An entry of the list is a prefix of the text.
abbrev pub HasPrefixIn : Text → List Text → Type 0
HasPrefixIn s [] = ⊥
HasPrefixIn s (p ∷ ps) = ((rest : Text) × (s ≡ p ++ rest)) ⊎ HasPrefixIn s ps

has_prefix_sound : (s p : Text) → has_prefix s p ≡ true → (rest : Text) × (s ≡ p ++ rest)
has_prefix_sound s [] h = (s, refl)
has_prefix_sound [] (p ∷ ps) h = cc
has_prefix_sound (c ∷ s) (p ∷ ps) h =
    let (rest, e) = has_prefix_sound s ps (ground arith) in
    let same : c ≡ p = ground arith in (rest, cc)

has_prefix_complete : (p rest : Text) → has_prefix (p ++ rest) p ≡ true
has_prefix_complete [] rest = refl
has_prefix_complete (c ∷ p) rest = ground (arith, has_prefix_complete p rest)

some_prefix_sound : (s : Text) (ps : List Text) → some_prefix s ps ≡ true → HasPrefixIn s ps
unfolding some_prefix
some_prefix_sound s [] h = cc
some_prefix_sound s (p ∷ ps) h = elim (Bool-cases (has_prefix s p)) [
  | inl hit ↦ inl (has_prefix_sound s p hit)
  | inr miss ↦ inr (some_prefix_sound s ps (ground arith))
]

some_prefix_complete : (s : Text) (ps : List Text) → HasPrefixIn s ps → some_prefix s ps ≡ true
unfolding some_prefix
some_prefix_complete s [] h = absurd h
some_prefix_complete s (p ∷ ps) (inl (rest, e)) =
    rw (subst (λ t. has_prefix t p ≡ true) (sym e) (has_prefix_complete p rest)) refl
some_prefix_complete s (p ∷ ps) (inr h) = ground (arith, some_prefix_complete s ps h)

-- A command is allowed exactly when the whitelist is empty or holds a prefix of the trimmed
-- command.
pub command_allowed_iff :
    (whitelist : List Text) (payload : Text)
    → (command_allowed whitelist payload ≡ true)
      ↔ ((whitelist ≡ []) ⊎ HasPrefixIn (trim_space payload) whitelist)
unfolding command_allowed
command_allowed_iff [] payload = (λ h. inl refl, λ h. refl)
command_allowed_iff (p ∷ ps) payload = (
  λ h. inr (some_prefix_sound (trim_space payload) (p ∷ ps) h),
  elim [ inl e ↦ cc | inr h ↦ some_prefix_complete (trim_space payload) (p ∷ ps) h ],
)
