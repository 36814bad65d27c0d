-- ===== src/Runtime/Config.antt =====
-- `putConfig` and `handleConfigRestore` of rflink/http_server.go. A body enters as it decodes.
pub mod Fields
pub mod Applied
use go_rflink.Prelude.{
  ℕ, ◌≡◌, refl, sym, ◌∙◌, subst, inl, inr, Bool, true, false, not, ◌&&◌, Option, none, some, List,
  ltb, if◌then◌else◌, Bool-cases, Option-cases, arith,
}
use go_rflink.Prelude.Text.{Text, codes, is_empty}
use go_rflink.Strings.{Unicode, trim_left, trim_right, trim_space}
use go_rflink.Options.Validate.{
  validate_friendly_names_csv, validate_ignore_list_csv, validate_hwid_map_csv,
  validate_ha_discovery_prefix, validate_ha_buttons_csv, validate_ha_switches_csv,
}
use go_rflink.Tokens.{External}
use go_rflink.Webhooks.{RuntimeWebhook}
use go_rflink.Http.{Access, Method, post_method}
use go_rflink.Http.Auth.{effective_read_only}
use go_rflink.Runtime.{RuntimeFile, Environment, Live, empty_file, or_else, safe_prefix, apply}
use go_rflink.Runtime.Disk.{Faults}
use go_rflink.Runtime.Manager.{Manager, merged, save_overlay, restore_backup}
use go_rflink.Runtime.Laws.{save_overlay_saved}

pub record ConfigRequest : Type 0 where
  pub friendly_names : Option Text
  pub ignore_list : Option Text
  pub hwid_map : Option Text
  pub ha_discovery : Option Bool
  pub ha_discovery_prefix : Option Text
  pub ha_buttons : Option Text
  pub ha_switches : Option Text

pub data ConfigResponse : Type 0 where
  read_only invalid_json validation_failed save_failed restored restore_failed : ConfigResponse
  slot_required method_not_allowed : ConfigResponse
  saved : List Text → ConfigResponse

-- A field as it goes into the patch, and whether it has passed.
abbrev pub field_ok : (Text → Bool) → Option Text → Bool
field_ok valid none = true
field_ok valid (some v) = valid (trim_space v)

abbrev pub trimmed : Option Text → Option Text
trimmed none = none
trimmed (some v) = some (trim_space v)

-- Discovery that is to be on has a prefix.
unfoldable pub prefix_patch : ConfigRequest → Live → Option Text
prefix_patch req o =
    let discovery = or_else o.home_assistant_discovery req.ha_discovery in
    let prefix = or_else o.ha_discovery_prefix (trimmed req.ha_discovery_prefix) in
    if discovery && is_empty prefix
    then some (codes "homeassistant")
    else trimmed req.ha_discovery_prefix

module _ ⦃u : Unicode⦄ where
  unfoldable pub config_ok : ConfigRequest → Bool
  unfolding validate_friendly_names_csv validate_ignore_list_csv validate_hwid_map_csv
      validate_ha_discovery_prefix validate_ha_buttons_csv validate_ha_switches_csv
  config_ok req =
      field_ok validate_friendly_names_csv req.friendly_names
      && field_ok validate_ignore_list_csv req.ignore_list
      && field_ok validate_hwid_map_csv req.hwid_map
      && field_ok validate_ha_discovery_prefix req.ha_discovery_prefix
      && field_ok validate_ha_buttons_csv req.ha_buttons
      && field_ok validate_ha_switches_csv req.ha_switches

unfoldable pub config_patch : ConfigRequest → Live → RuntimeFile
unfolding prefix_patch
config_patch req o = record empty_file {
  friendly_names = trimmed req.friendly_names;
  ignore_list = trimmed req.ignore_list;
  hwid_map = trimmed req.hwid_map;
  ha_discovery = req.ha_discovery;
  ha_discovery_prefix = prefix_patch req o;
  ha_buttons = trimmed req.ha_buttons;
  ha_switches = trimmed req.ha_switches;
}

-- Discovery that is on has a prefix that is not blank.
abbrev pub HasPrefix : Live → Type 0
HasPrefix o = (o.home_assistant_discovery && is_empty (trim_space o.ha_discovery_prefix)) ≡ false

module _ ⦃u : Unicode⦄ (x : External) (hooks_of : Text → List RuntimeWebhook)
    (e : Environment) where
  -- `putConfig`; none is a body that is not JSON.
  unfoldable pub put_config :
      Access → Faults → Text → ℕ → Option ConfigRequest → Manager → ConfigResponse × Manager
  unfolding save_overlay config_ok config_patch
  put_config c faults stamp now none m =
      ((if effective_read_only c then read_only else invalid_json), m)
  put_config c faults stamp now (some req) m =
      let (first, m') = save_overlay x hooks_of e faults stamp now (config_patch req m.live) m in
      if effective_read_only c
      then (read_only, m)
      else if not (config_ok req)
      then (validation_failed, m)
      else (elim first [ none ↦ (save_failed, m') | some keys ↦ (saved keys, m') ])

  -- `handleConfigRestore`; none is a body without a slot.
  unfoldable pub handle_config_restore :
      Access → Faults → ℕ → Method → Option ℕ → Manager → ConfigResponse × Manager
  unfolding restore_backup
  handle_config_restore c faults now post_method none m =
      ((if effective_read_only c then read_only else slot_required), m)
  handle_config_restore c faults now post_method (some slot) m =
      let (ok, m') = restore_backup x hooks_of e faults now slot m in
      if effective_read_only c
      then (read_only, m)
      else if ltb slot 1
      then (slot_required, m)
      else if ok
      then (restored, m')
      else (restore_failed, m')
  handle_config_restore c faults now _ slot m = (method_not_allowed, m)

  safe_prefix-HasPrefix :
      (discovery : Bool) (prefix : Text)
      → (discovery && is_empty (trim_space (safe_prefix discovery prefix))) ≡ false
  unfolding trim_space trim_left trim_right
  safe_prefix-HasPrefix false prefix = refl
  safe_prefix-HasPrefix true prefix = elim (Bool-cases (is_empty (trim_space prefix))) [
    | inl blank ↦ rw blank refl
    | inr full ↦ rw (full, full) refl
  ]

  pub apply-HasPrefix :
      (now : ℕ) (f : RuntimeFile) (o : Live) → HasPrefix (apply x hooks_of e now f o)
  unfolding apply
  apply-HasPrefix now f o = safe_prefix-HasPrefix _ _
