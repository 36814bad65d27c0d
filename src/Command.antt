-- ===== src/Command.antt =====
-- Actuator commands: `ValidateRFLinkCommand` of rflink/validate.go, `NormalizeCommand` and
-- `CommandAllowed` of rflink/options.go, and the line that `Write` of rflink/serial_reader.go puts
-- on the wire.
pub mod Grammar
pub mod Normal
use go_rflink.Prelude.{
  ℕ, Bool, true, false, not, ◌&&◌, ◌||◌, Option, none, some, List, [], ◌∷◌, ◌++◌, ltb, ◌==◌,
  if◌then◌else◌, length,
}
use go_rflink.Prelude.Text.{Text, codes, is_empty, has_prefix, byte_len}
use go_rflink.Strings.{trim_space, trim_right, trim_suffix, ends_with, split, ascii_digit}

-- The errors, in the order in which the code looks for them.
pub data CommandError : Type 0 where
  empty_command no_semicolon control_characters non_printable : CommandError
  too_few_fields bad_node empty_field field_too_long command_too_long : CommandError

-- `reRFLinkNode`
abbrev pub is_node : Text → Bool
is_node [] = false
is_node (a ∷ []) = ascii_digit a
is_node (a ∷ b ∷ []) = ascii_digit a && ascii_digit b
is_node (a ∷ b ∷ c ∷ s) = false

abbrev pub is_control : ℕ → Bool
is_control c = c == 0 || c == b'\r' || c == b'\n'

abbrev pub is_printable : ℕ → Bool
is_printable c = not (ltb 0x7f c || ltb c 0x20)

-- Some character passes the test.
abbrev pub any : (ℕ → Bool) → Text → Bool
any p [] = false
any p (c ∷ s) = p c || any p s

-- The loop over the fields.
unfoldable pub check_fields : List Text → Option CommandError
check_fields [] = none
check_fields (p ∷ ps) =
    let rest = check_fields ps in
    if is_empty p
    then some empty_field
    else if ltb 96 (byte_len p)
    then some field_too_long
    else rest

unfoldable pub check_parts : List Text → Option CommandError
unfolding check_fields
check_parts [] = some too_few_fields
check_parts (node ∷ []) = some too_few_fields
check_parts (node ∷ p ∷ ps) =
    if not (is_node node) then some bad_node else check_fields (node ∷ p ∷ ps)

-- `ValidateRFLinkCommand` on the trimmed command; none is the nil error.
unfoldable pub validate_trimmed : Text → Option CommandError
unfolding trim_suffix split check_parts
validate_trimmed cmd =
    if is_empty cmd
    then some empty_command
    else if not (ends_with b';' cmd)
    then some no_semicolon
    else if any is_control cmd
    then some control_characters
    else if any (λ r. not (is_printable r)) cmd
    then some non_printable
    else check_parts (split b';' (trim_suffix b';' cmd))

unfoldable pub validate_rflink_command : Text → Option CommandError
unfolding validate_trimmed trim_space
validate_rflink_command cmd = validate_trimmed (trim_space cmd)

pub data Result {ℓ} (A : Type ℓ) : Type ℓ where
  ok : A → Result A
  err : CommandError → Result A

abbrev pub checked : Text → Option CommandError → Result Text
checked cmd none = ok cmd
checked cmd (some e) = err e

-- `TrimRight(cmd, "\r\n")`
abbrev pub trim_crlf : Text → Text
trim_crlf = trim_right (λ c. c == b'\r' || c == b'\n')

-- `if !strings.HasSuffix(cmd, ";") { cmd += ";" }`
abbrev pub with_semicolon : Text → Text
with_semicolon cmd = if ends_with b';' cmd then cmd else cmd ++ b';' ∷ []

-- `CommandMaxLen`, where 0 stands for 256.
abbrev pub effective_max_len : ℕ → ℕ
effective_max_len max_len = if max_len == 0 then 256 else max_len

unfoldable pub normalize_command : ℕ → Text → Result Text
unfolding trim_space trim_right validate_rflink_command
normalize_command max_len payload =
    let cmd = trim_space (trim_crlf (trim_space payload)) in
    if is_empty cmd
    then err empty_command
    else if ltb (effective_max_len max_len) (byte_len (with_semicolon cmd))
    then err command_too_long
    else checked (with_semicolon cmd) (validate_rflink_command (with_semicolon cmd))

some_prefix : Text → List Text → Bool
some_prefix trimmed [] = false
some_prefix trimmed (prefix ∷ ps) = has_prefix trimmed prefix || some_prefix trimmed ps

-- `CommandAllowed`: an empty whitelist allows all.
unfoldable pub command_allowed : List Text → Text → Bool
unfolding some_prefix trim_space
command_allowed [] payload = true
command_allowed (prefix ∷ ps) payload = some_prefix (trim_space payload) (prefix ∷ ps)

-- The bytes that `Write` hands to the port; none is its "empty rflink command" error.
unfoldable pub wire : Text → Option Text
unfolding trim_right
wire command =
    let payload = trim_crlf command in
    if is_empty payload then none else some (payload ++ codes "\r\n")
