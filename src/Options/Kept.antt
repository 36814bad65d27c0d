-- ===== src/Options/Kept.antt =====
-- What the checks of rflink/validate.go promise to the parsers of rflink/options.go: of a setting
-- that passes, the parser keeps every entry, and every entry is usable.
use go_rflink.Prelude.{
  suc, ◌≡◌, refl, ap, inl, inr, Bool, true, Option, none, some, List, [], ◌∷◌, length, all, All,
  arith, Bool-cases, Option-cases,
}
use go_rflink.Prelude.Text.{Text, is_empty}
use go_rflink.Strings.{trim_space, split}
use go_rflink.Command.{with_semicolon, validate_rflink_command}
use go_rflink.Options.{
  HaActuatorButton, HaActuatorSwitch, colon_pair, colon_triple, split_csv, button_of, switch_of,
  collect_parts, parse_ha_buttons, parse_ha_switches,
}
use go_rflink.Options.Validate.{
  re_label, valid_button, valid_switch, validate_ha_buttons_csv, validate_ha_switches_csv,
}

empty_nil : (s : Text) → is_empty s ≡ true → s ≡ []
empty_nil [] h = refl
empty_nil (c ∷ s) h = cc

split_csv_nil : (s : Text) → is_empty s ≡ true → split_csv s ≡ []
unfolding split_csv split trim_space
split_csv_nil s h = rw (empty_nil s h) refl

-- A parser that gives a good value for every part that passes keeps all the parts.
collect_parts-All {ℓ} :
    {A : Type ℓ} (f : Text → Option A) (valid : Text → Bool) (P : A → Type 0)
    → ((p : Text) → valid p ≡ true → (a : A) × (f p ≡ some a) × P a)
    → (ps : List Text) → all valid ps ≡ true
    → (length (collect_parts f ps) ≡ length ps) × All P (collect_parts f ps)
unfolding collect_parts
collect_parts-All f valid P good [] h = (refl, tt)
collect_parts-All f valid P good (p ∷ ps) h =
    let (a, found, holds) = good p (ground arith) in
    let (kept, rest) = collect_parts-All f valid P good ps (ground arith) in
    (rw (found, length) (ap suc kept), rw (found, All) (holds, rest))

-- A label of 1 to 64 characters and a command that the validator accepts.
abbrev pub IsButton : HaActuatorButton → Type 0
IsButton b = (re_label b.name ≡ true) × (validate_rflink_command b.command ≡ none)

abbrev pub IsSwitch : HaActuatorSwitch → Type 0
IsSwitch s =
    (re_label s.name ≡ true)
    × (validate_rflink_command s.command_on ≡ none)
    × (validate_rflink_command s.command_off ≡ none)

button_of-IsButton :
    (p : Text)
    → valid_button p ≡ true
    → (b : HaActuatorButton) × (button_of p ≡ some b) × IsButton b
unfolding valid_button button_of
button_of-IsButton p h = elim (Option-cases (colon_pair p)) [
  | inl bad ↦ absurd (ground arith)
  | inr ((name, cmd), e) ↦ (
    record { name = name; command = with_semicolon cmd },
    ground arith,
    (ground arith, ground arith),
  )
]

switch_of-IsSwitch :
    (p : Text)
    → valid_switch p ≡ true
    → (s : HaActuatorSwitch) × (switch_of p ≡ some s) × IsSwitch s
unfolding valid_switch switch_of
switch_of-IsSwitch p h = elim (Option-cases (colon_triple p)) [
  | inl bad ↦ absurd (ground arith)
  | inr ((name, on, off), e) ↦ (
    record { name = name; command_on = with_semicolon on; command_off = with_semicolon off },
    ground arith,
    (ground arith, ground arith, ground arith),
  )
]

-- Of a button list that passes `ValidateHAButtonsCSV`, `parseHAButtons` keeps every filled part,
-- and each button has a valid label and a command that `ValidateRFLinkCommand` accepts.
pub parse_ha_buttons_kept :
    (raw : Text)
    → validate_ha_buttons_csv raw ≡ true
    → (length (parse_ha_buttons raw) ≡ length (split_csv (trim_space raw)))
      × All IsButton (parse_ha_buttons raw)
unfolding parse_ha_buttons validate_ha_buttons_csv
parse_ha_buttons_kept raw h = elim (Bool-cases (is_empty (trim_space raw))) [
  | inl blank ↦ rw (blank, split_csv_nil (trim_space raw) blank) (refl, tt)
  | inr filled ↦ rw filled (
      collect_parts-All button_of valid_button IsButton button_of-IsButton
        (split_csv (trim_space raw)) (rw filled at h))
]

-- Of a switch list that passes `ValidateHASwitchesCSV`, `parseHASwitches` keeps every filled part,
-- and each switch has a valid label and two commands that `ValidateRFLinkCommand` accepts.
pub parse_ha_switches_kept :
    (raw : Text)
    → validate_ha_switches_csv raw ≡ true
    → (length (parse_ha_switches raw) ≡ length (split_csv (trim_space raw)))
      × All IsSwitch (parse_ha_switches raw)
unfolding parse_ha_switches validate_ha_switches_csv
parse_ha_switches_kept raw h = elim (Bool-cases (is_empty (trim_space raw))) [
  | inl blank ↦ rw (blank, split_csv_nil (trim_space raw) blank) (refl, tt)
  | inr filled ↦ rw filled (
      collect_parts-All switch_of valid_switch IsSwitch switch_of-IsSwitch
        (split_csv (trim_space raw)) (rw filled at h))
]
