-- ===== src/Runtime.antt =====
-- rflink/runtime_config.go: the settings that can be changed while the bridge runs. A key of the
-- runtime file, where it is there, takes the place of the environment's.
pub mod Disk
pub mod Manager
pub mod Laws
pub mod Restore
pub mod Tokens
pub mod Config
pub mod Hooks
use go_rflink.Prelude.{
  ℕ, Bool, true, false, not, ◌&&◌, ◌||◌, Option, none, some, List, [], ◌∷◌, ◌++◌, if◌then◌else◌,
}
use go_rflink.Prelude.Text.{Text, codes, is_empty}
use go_rflink.Strings.{Unicode, trim_space}
use go_rflink.Options.{
  HaActuatorButton, HaActuatorSwitch, parse_colon_map, parse_ignore_list, parse_ha_buttons,
  parse_ha_switches,
}
use go_rflink.Tokens.{
  External, ApiToken, default_api_token_scopes, or_default, parse_api_auth_tokens,
}
use go_rflink.Webhooks.{RuntimeWebhook}

-- `RuntimeAPIToken`
pub record RuntimeApiToken : Type 0 where
  pub name : Text
  pub token_hash : Text
  pub token_suffix : Text
  pub expires_at : Option Text
  pub created_at : Text
  pub scopes : List Text

-- none is a nil pointer or a nil slice: the file does not have the key.
pub record RuntimeFile : Type 0 where
  pub version : ℕ
  pub updated_at : Text
  pub friendly_names : Option Text
  pub ignore_list : Option Text
  pub hwid_map : Option Text
  pub api_tokens : Option (List RuntimeApiToken)
  pub ha_discovery : Option Bool
  pub ha_discovery_prefix : Option Text
  pub ha_buttons : Option Text
  pub ha_switches : Option Text
  pub webhooks : Option (List RuntimeWebhook)

abbrev pub runtime_file_version : ℕ
runtime_file_version = 1

abbrev pub empty_file : RuntimeFile
empty_file = record {
  version = runtime_file_version;
  updated_at = [];
  friendly_names = none;
  ignore_list = none;
  hwid_map = none;
  api_tokens = none;
  ha_discovery = none;
  ha_discovery_prefix = none;
  ha_buttons = none;
  ha_switches = none;
  webhooks = none;
}

-- "env" and "runtime".
pub data Source : Type 0 where
  env runtime : Source

pub record RuntimeSource : Type 0 where
  pub friendly_names : Source
  pub ignore_list : Source
  pub hwid_map : Source
  pub api_tokens : Source
  pub ha_discovery : Source
  pub ha_discovery_prefix : Source
  pub ha_buttons : Source
  pub ha_switches : Source
  pub webhooks : Source

abbrev pub source_of {ℓ} : {A : Type ℓ} → Option A → Source
source_of none = env
source_of (some a) = runtime

-- `defaultRuntimeSources`
abbrev pub default_runtime_sources : RuntimeSource
default_runtime_sources = record {
  friendly_names = env;
  ignore_list = env;
  hwid_map = env;
  api_tokens = env;
  ha_discovery = env;
  ha_discovery_prefix = env;
  ha_buttons = env;
  ha_switches = env;
  webhooks = env;
}

-- What the environment gives for these keys.
pub record Environment : Type 0 where
  pub friendly_names : Text
  pub ignore_list : Text
  pub hwid_map : Text
  pub api_auth_tokens : Text
  pub api_token_pepper : Text
  pub webhooks_json : Text

-- The fields of `Options` that are in effect.
pub record Live : Type 0 where
  pub friendly_name_map : List (Text × Text)
  pub ignore_set : List Text
  pub hwid_map : List (Text × Text)
  pub api_tokens : List ApiToken
  pub home_assistant_discovery : Bool
  pub ha_discovery_prefix : Text
  pub ha_buttons : Text
  pub ha_switches : Text
  pub ha_button_list : List HaActuatorButton
  pub ha_switch_list : List HaActuatorSwitch
  pub webhooks : List RuntimeWebhook

abbrev pub or_else {ℓ} : {A : Type ℓ} → A → Option A → A
or_else d none = d
or_else d (some a) = a

-- `v := strings.TrimSpace(s); if v == "" { v = "homeassistant" }`
abbrev pub prefix_or_default : Text → Text
prefix_or_default s = if is_empty (trim_space s) then codes "homeassistant" else trim_space s

-- A token of the file; `now` stands for a creation time that does not parse.
token_of_runtime : External → ℕ → RuntimeApiToken → ApiToken
token_of_runtime x now e = record {
  name = e.name;
  hash = e.token_hash;
  suffix = e.token_suffix;
  expires_at = elim e.expires_at [
    | none ↦ none
    | some t ↦ if is_empty t then none else x.parse_rfc3339 t
  ];
  created_at = if is_empty e.created_at then now else or_else now (x.parse_rfc3339 e.created_at);
  scopes = or_default e.scopes;
}

-- `apiTokensFromRuntime`
unfoldable pub api_tokens_from_runtime : External → ℕ → List RuntimeApiToken → List ApiToken
unfolding token_of_runtime
api_tokens_from_runtime x now [] = []
api_tokens_from_runtime x now (e ∷ es) =
    let rest = api_tokens_from_runtime x now es in
    if is_empty e.token_hash || is_empty e.name then rest else token_of_runtime x now e ∷ rest

-- The safety line: a discovery that is on never has an empty prefix.
abbrev pub safe_prefix : Bool → Text → Text
safe_prefix discovery prefix =
    if discovery && is_empty (trim_space prefix) then codes "homeassistant" else prefix

-- The sources that `applyLocked` leaves.
abbrev pub sources_of : RuntimeFile → RuntimeSource
sources_of f = record {
  friendly_names = source_of f.friendly_names;
  ignore_list = source_of f.ignore_list;
  hwid_map = source_of f.hwid_map;
  api_tokens = source_of f.api_tokens;
  ha_discovery = source_of f.ha_discovery;
  ha_discovery_prefix = source_of f.ha_discovery_prefix;
  ha_buttons = source_of f.ha_buttons;
  ha_switches = source_of f.ha_switches;
  webhooks = source_of f.webhooks;
}

-- `hooks_of` is `parse_webhooks_json` with the JSON decoder of the program.
module _ ⦃u : Unicode⦄ (x : External) (hooks_of : Text → List RuntimeWebhook) where
  -- `applyLocked` on the options in effect.
  unfoldable pub apply : Environment → ℕ → RuntimeFile → Live → Live
  unfolding parse_api_auth_tokens api_tokens_from_runtime
  apply e now f o =
      let discovery = or_else o.home_assistant_discovery f.ha_discovery in
      let prefix : Text = elim f.ha_discovery_prefix [
        | none ↦ o.ha_discovery_prefix
        | some p ↦ prefix_or_default p
      ] in
      record {
        friendly_name_map = parse_colon_map (or_else e.friendly_names f.friendly_names);
        ignore_set = parse_ignore_list (or_else e.ignore_list f.ignore_list);
        hwid_map = parse_colon_map (or_else e.hwid_map f.hwid_map);
        api_tokens = elim f.api_tokens [
          | none ↦ parse_api_auth_tokens x e.api_token_pepper now e.api_auth_tokens
          | some list ↦ api_tokens_from_runtime x now list
        ];
        home_assistant_discovery = discovery;
        ha_discovery_prefix = safe_prefix discovery prefix;
        ha_buttons = or_else o.ha_buttons f.ha_buttons;
        ha_switches = or_else o.ha_switches f.ha_switches;
        ha_button_list = elim f.ha_buttons [
          | none ↦ o.ha_button_list
          | some s ↦ parse_ha_buttons s
        ];
        ha_switch_list = elim f.ha_switches [
          | none ↦ o.ha_switch_list
          | some s ↦ parse_ha_switches s
        ];
        webhooks = or_else (hooks_of e.webhooks_json) f.webhooks;
      }
