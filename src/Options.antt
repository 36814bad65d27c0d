-- ===== src/Options.antt =====
-- rflink/options.go: the settings that are lists in one text, and what is looked up in them.
pub mod Validate
pub mod Kept
pub mod Lookup
pub mod Settings
pub mod Sound
use go_rflink.Prelude.{
  ℕ, Bool, true, false, not, ◌&&◌, ◌||◌, Option, none, some, List, [], ◌∷◌, ◌++◌, map,
  if◌then◌else◌,
}
use go_rflink.Prelude.Text.{Text, codes, text_eq, is_empty, has_prefix}
use go_rflink.Prelude.Maps.{lookup, insert}
use go_rflink.Strings.{Unicode, trim_space, split, cut, trim_suffix, to_upper}
use go_rflink.Command.{with_semicolon}

-- The parts of a list, trimmed, without the empty ones: `splitCSV` of rflink/validate.go, and the
-- first lines of the loops below.
filled_parts : List Text → List Text
filled_parts [] = []
filled_parts (p ∷ ps) =
    let rest = filled_parts ps in if is_empty (trim_space p) then rest else trim_space p ∷ rest

unfoldable pub split_csv : Text → List Text
unfolding filled_parts
split_csv raw = filled_parts (split b',' raw)

-- `SplitN(part, ":", 2)`, trimmed; none if there are not two pieces.
unfoldable pub colon_pair : Text → Option (Text × Text)
colon_pair part = elim (cut b':' part) [
  | none ↦ none
  | some (k, v) ↦ some (trim_space k, trim_space v)
]

-- `SplitN(part, ":", 3)`, trimmed; none if there are not three pieces.
unfoldable pub colon_triple : Text → Option (Text × Text × Text)
colon_triple part = elim (cut b':' part) [
  | none ↦ none
  | some (k, rest) ↦ elim (cut b':' rest) [
    | none ↦ none
    | some (a, b) ↦ some (trim_space k, trim_space a, trim_space b)
  ]
]

unfoldable pub parse_command_whitelist : Text → List Text
unfolding split_csv
parse_command_whitelist raw = if is_empty (trim_space raw) then [] else split_csv (trim_space raw)

pub record HaActuatorButton : Type 0 where
  pub name : Text
  pub command : Text

pub record HaActuatorSwitch : Type 0 where
  pub name : Text
  pub command_on : Text
  pub command_off : Text

-- The round of `parseHAButtons` for a part.
unfoldable pub button_of : Text → Option HaActuatorButton
unfolding colon_pair
button_of part = elim (colon_pair part) [
  | none ↦ none
  | some (name, cmd) ↦
      if is_empty name || is_empty cmd
      then none
      else some (record { name = name; command = with_semicolon cmd })
]

unfoldable pub switch_of : Text → Option HaActuatorSwitch
unfolding colon_triple
switch_of part = elim (colon_triple part) [
  | none ↦ none
  | some (name, on, off) ↦
      if is_empty name || is_empty on || is_empty off
      then none
      else some
          (record { name = name; command_on = with_semicolon on; command_off = with_semicolon off })
]

-- The values for the parts that have one, in order.
unfoldable pub collect_parts {ℓ} : {A : Type ℓ} → (Text → Option A) → List Text → List A
collect_parts f [] = []
collect_parts f (p ∷ ps) =
    let rest = collect_parts f ps in elim (f p) [ none ↦ rest | some a ↦ a ∷ rest ]

unfoldable pub parse_ha_buttons : Text → List HaActuatorButton
unfolding split_csv button_of collect_parts
parse_ha_buttons raw =
    if is_empty (trim_space raw) then [] else collect_parts button_of (split_csv (trim_space raw))

unfoldable pub parse_ha_switches : Text → List HaActuatorSwitch
unfolding split_csv switch_of collect_parts
parse_ha_switches raw =
    if is_empty (trim_space raw) then [] else collect_parts switch_of (split_csv (trim_space raw))

-- `validateCmdTopic`; true is the nil error.
unfoldable pub validate_cmd_topic : Text → Text → Bool
unfolding trim_suffix
validate_cmd_topic topic cmd_topic =
    let t = trim_suffix b'/' topic in
    let c = trim_suffix b'/' cmd_topic in
    if text_eq c t
    then false
    else if has_prefix (t ++ b'/' ∷ []) (c ++ b'/' ∷ [])
    then false
    else true

abbrev pub mem : Text → List Text → Bool
mem t [] = false
mem t (x ∷ xs) = text_eq x t || mem t xs

module _ ⦃u : Unicode⦄ where
  -- The loop of `parseColonMap`.
  unfoldable pub colon_entries : List Text → List (Text × Text) → List (Text × Text)
  unfolding colon_pair
  colon_entries [] out = out
  colon_entries (p ∷ ps) out = colon_entries ps (elim (colon_pair p) [
    | none ↦ out
    | some (key, val) ↦
        if not (is_empty key) && not (is_empty val) then insert (to_upper key) val out else out
  ])

  unfoldable pub parse_colon_map : Text → List (Text × Text)
  unfolding split_csv colon_entries
  parse_colon_map raw =
      if is_empty (trim_space raw) then [] else colon_entries (split_csv (trim_space raw)) []

  -- `FriendlyNameFor`; a missing map is the empty one.
  abbrev pub friendly_name_for : List (Text × Text) → Text → Text
  friendly_name_for names hwid = elim (lookup (to_upper hwid) names) [
    | none ↦ []
    | some name ↦ name
  ]

  unfoldable pub canonical_hwid : List (Text × Text) → Text → Text → Text
  canonical_hwid hwids id default_hwid = elim (lookup (to_upper default_hwid) hwids) [
    | some v ↦ v
    | none ↦ elim (lookup (to_upper id) hwids) [ some v ↦ v | none ↦ default_hwid ]
  ]

  -- The set is the list of its tokens.
  unfoldable pub parse_ignore_list : Text → List Text
  unfolding split_csv
  parse_ignore_list raw = map to_upper (split_csv raw)

  unfoldable pub sensor_ignored : List Text → Text → Text → Bool
  sensor_ignored ignored model hwid =
      mem (to_upper (trim_space hwid)) ignored || mem (to_upper (trim_space model)) ignored
