-- ===== src/Options/Validate.antt =====
-- rflink/validate.go: the checks of list settings before they are taken over. True is the nil
-- error; the regular expressions are tests on the characters.
use go_rflink.Prelude.{
  ℕ, Bool, true, false, not, ◌&&◌, ◌||◌, none, some, [], ◌∷◌, ltb, leb, ◌==◌, if◌then◌else◌, length,
  all,
}
use go_rflink.Prelude.Text.{Text, is_empty, byte_len}
use go_rflink.Strings.{trim_space, ascii_letter, ascii_digit, contains}
use go_rflink.Command.{with_semicolon, validate_rflink_command}
use go_rflink.Options.{split_csv, colon_pair, colon_triple}

abbrev pub alphanumeric : ℕ → Bool
alphanumeric c = ascii_letter c || ascii_digit c

-- `^[A-Za-z0-9][…]{0,63}$`, with a test for the class of the later characters.
abbrev pub matches : (ℕ → Bool) → Text → Bool
matches later [] = false
matches later (c ∷ s) = alphanumeric c && (all later s && leb (length s) 63)

-- `reHWID` and `reIgnoreTok`
abbrev pub re_hwid : Text → Bool
re_hwid = matches (λ c. alphanumeric c || c == b'_' || c == b'.' || c == b'-')

abbrev pub re_label : Text → Bool
re_label =
    matches (λ c. alphanumeric c || c == b' ' || c == b'_' || c == b'.' || c == b'/' || c == b'-')

abbrev pub re_ha_prefix : Text → Bool
re_ha_prefix = matches (λ c. alphanumeric c || c == b'_' || c == b'/' || c == b'-')

-- `unicode.IsPrint` on ASCII is the range from the space to the tilde.
abbrev pub is_printable_name : Text → Bool
is_printable_name s =
    if is_empty s || ltb 64 (byte_len s) then false else all (λ r. leb 0x20 r && leb r 0x7e) s

abbrev pub passes : Text → Bool
passes cmd = elim (validate_rflink_command cmd) [ none ↦ true | some e ↦ false ]

unfoldable pub valid_name : Text → Bool
valid_name part = elim (colon_pair part) [
  | none ↦ false
  | some (key, val) ↦
      if is_empty key || is_empty val
      then false
      else if not (re_hwid key)
      then false
      else if not (is_printable_name val)
      then false
      else not (contains val (b',' ∷ []))
]

unfoldable pub valid_hwid_entry : Text → Bool
valid_hwid_entry part = elim (colon_pair part) [
  | none ↦ false
  | some (key, val) ↦
      if is_empty key || is_empty val
      then false
      else if not (re_hwid key)
      then false
      else re_hwid val
]

unfoldable pub valid_button : Text → Bool
valid_button part = elim (colon_pair part) [
  | none ↦ false
  | some (name, cmd) ↦
      if is_empty name || is_empty cmd
      then false
      else if not (re_label name)
      then false
      else passes (with_semicolon cmd)
]

unfoldable pub valid_switch : Text → Bool
valid_switch part = elim (colon_triple part) [
  | none ↦ false
  | some (name, on, off) ↦
      if is_empty name || is_empty on || is_empty off
      then false
      else if not (re_label name)
      then false
      else if not (passes (with_semicolon on))
      then false
      else passes (with_semicolon off)
]

-- The frame of the five validators of lists.
abbrev pub all_parts : (Text → Bool) → Text → Bool
all_parts valid raw =
    if is_empty (trim_space raw) then true else all valid (split_csv (trim_space raw))

-- A list of friendly names must hold a part.
unfoldable pub validate_friendly_names_csv : Text → Bool
unfolding valid_name
validate_friendly_names_csv raw =
    if is_empty (trim_space raw)
    then true
    else (let parts = split_csv (trim_space raw) in
        if length parts == 0 then false else all valid_name parts)

unfoldable pub validate_hwid_map_csv : Text → Bool
unfolding valid_hwid_entry
validate_hwid_map_csv raw = all_parts valid_hwid_entry raw

unfoldable pub validate_ignore_list_csv : Text → Bool
validate_ignore_list_csv raw = all_parts re_hwid raw

unfoldable pub validate_ha_buttons_csv : Text → Bool
unfolding valid_button
validate_ha_buttons_csv raw = all_parts valid_button raw

unfoldable pub validate_ha_switches_csv : Text → Bool
unfolding valid_switch
validate_ha_switches_csv raw = all_parts valid_switch raw

unfoldable pub validate_ha_discovery_prefix : Text → Bool
validate_ha_discovery_prefix pfx =
    if is_empty (trim_space pfx) then true else re_ha_prefix (trim_space pfx)
