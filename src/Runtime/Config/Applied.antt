-- ===== src/Runtime/Config/Applied.antt =====
-- What a `putConfig` of rflink/http_server.go that is answered as saved has done.
use go_rflink.Prelude.{
  ℕ, ◌≡◌, refl, sym, ◌∙◌, subst, inl, inr, true, false, none, some, List, if◌then◌else◌, Bool-cases,
  Option-cases, arith,
}
use go_rflink.Prelude.Text.{Text, codes, is_empty}
use go_rflink.Strings.{Unicode}
use go_rflink.Options.{parse_colon_map, parse_ignore_list, parse_ha_buttons, parse_ha_switches}
use go_rflink.Options.Validate.{
  validate_friendly_names_csv, validate_ignore_list_csv, validate_hwid_map_csv,
  validate_ha_discovery_prefix, validate_ha_buttons_csv, validate_ha_switches_csv,
}
use go_rflink.Tokens.{External}
use go_rflink.Webhooks.{RuntimeWebhook}
use go_rflink.Http.{Access}
use go_rflink.Http.Auth.{effective_read_only}
use go_rflink.Runtime.{RuntimeFile, Environment, Live, or_else, apply}
use go_rflink.Runtime.Disk.{Faults}
use go_rflink.Runtime.Manager.{Manager, patched, merged, save_overlay}
use go_rflink.Runtime.Laws.{save_overlay_saved}
use go_rflink.Runtime.Config.{
  ConfigRequest, saved, field_ok, prefix_patch, config_ok, config_patch, put_config, HasPrefix,
  apply-HasPrefix,
}
use go_rflink.Runtime.Config.Fields.{
  Setting, Toggled, parsed_setting, listed_setting, discovery_setting, prefix_setting,
}

-- Every setting of the request has passed its check and is in effect, what the request does not have
-- is in the file as it was, and discovery that is on has a prefix.
pub record IsApplied ⦃u : Unicode⦄ (req : ConfigRequest) (old new : RuntimeFile) (o : Live)
    : Type 0 where
  pub friendly_names :
      Setting req.friendly_names
        (new.friendly_names ≡ old.friendly_names)
        (λ v. (validate_friendly_names_csv v ≡ true) × (o.friendly_name_map ≡ parse_colon_map v))
  pub ignore_list :
      Setting req.ignore_list
        (new.ignore_list ≡ old.ignore_list)
        (λ v. (validate_ignore_list_csv v ≡ true) × (o.ignore_set ≡ parse_ignore_list v))
  pub hwid_map :
      Setting req.hwid_map
        (new.hwid_map ≡ old.hwid_map)
        (λ v. (validate_hwid_map_csv v ≡ true) × (o.hwid_map ≡ parse_colon_map v))
  pub discovery : Toggled req.ha_discovery o.home_assistant_discovery
  pub prefix : Setting req.ha_discovery_prefix Unit (λ v.
      (validate_ha_discovery_prefix v ≡ true)
      × (o.ha_discovery_prefix ≡ (if is_empty v then codes "homeassistant" else v)))
  pub buttons : Setting req.ha_buttons (new.ha_buttons ≡ old.ha_buttons) (λ v.
      (validate_ha_buttons_csv v ≡ true)
      × (o.ha_buttons ≡ v)
      × (o.ha_button_list ≡ parse_ha_buttons v))
  pub switches : Setting req.ha_switches (new.ha_switches ≡ old.ha_switches) (λ v.
      (validate_ha_switches_csv v ≡ true)
      × (o.ha_switches ≡ v)
      × (o.ha_switch_list ≡ parse_ha_switches v))
  pub others : (new.api_tokens ≡ old.api_tokens) × (new.webhooks ≡ old.webhooks)
  pub has_prefix : HasPrefix o

module _ ⦃u : Unicode⦄ (x : External) (hooks_of : Text → List RuntimeWebhook)
    (e : Environment) where
  fields_ok :
      (req : ConfigRequest)
      → config_ok req ≡ true
      → (field_ok validate_friendly_names_csv req.friendly_names ≡ true)
        × (field_ok validate_ignore_list_csv req.ignore_list ≡ true)
        × (field_ok validate_hwid_map_csv req.hwid_map ≡ true)
        × (field_ok validate_ha_discovery_prefix req.ha_discovery_prefix ≡ true)
        × (field_ok validate_ha_buttons_csv req.ha_buttons ≡ true)
        × (field_ok validate_ha_switches_csv req.ha_switches ≡ true)
  unfolding config_ok
  fields_ok req h = ground arith

  merged-IsApplied :
      (req : ConfigRequest) (stamp : Text) (now : ℕ) (old : RuntimeFile) (o : Live)
      → config_ok req ≡ true
      → let new = merged stamp (config_patch req o) old in
        IsApplied req old new (apply x hooks_of e now new o)
  unfolding merged config_patch prefix_patch apply
  merged-IsApplied req stamp now old o h =
      let (names, ignored, hwids, prefixed, pressed, switched) = fields_ok req h in
      record {
        friendly_names =
            parsed_setting validate_friendly_names_csv parse_colon_map e.friendly_names
              old.friendly_names req.friendly_names names;
        ignore_list =
            parsed_setting validate_ignore_list_csv parse_ignore_list e.ignore_list old.ignore_list
              req.ignore_list ignored;
        hwid_map =
            parsed_setting validate_hwid_map_csv parse_colon_map e.hwid_map old.hwid_map
              req.hwid_map hwids;
        discovery = discovery_setting o.home_assistant_discovery old.ha_discovery req.ha_discovery;
        prefix =
            prefix_setting validate_ha_discovery_prefix
              (or_else o.home_assistant_discovery req.ha_discovery)
              (or_else o.home_assistant_discovery (patched old.ha_discovery req.ha_discovery))
              o.ha_discovery_prefix old.ha_discovery_prefix req.ha_discovery_prefix prefixed;
        buttons =
            listed_setting validate_ha_buttons_csv parse_ha_buttons o.ha_buttons o.ha_button_list
              old.ha_buttons req.ha_buttons pressed;
        switches =
            listed_setting validate_ha_switches_csv parse_ha_switches o.ha_switches o.ha_switch_list
              old.ha_switches req.ha_switches switched;
        others = (refl, refl);
        has_prefix = apply-HasPrefix x hooks_of e now (merged stamp (config_patch req o) old) o;
      }

  -- When `putConfig` answers that the settings are saved, the server is not read-only. Every
  -- setting of the request, trimmed, passed the validator of its kind and is in effect as the
  -- parser of its kind reads it, with `homeassistant` for an empty prefix; every list that the
  -- request does not have is in the file as it was, and so are the tokens and the web hooks; and
  -- discovery has a prefix when it is switched on.
  pub put_config_saved :
      (c : Access) (faults : Faults) (stamp : Text) (now : ℕ) (req : ConfigRequest) (m : Manager)
      (keys : List Text)
      → (put_config x hooks_of e c faults stamp now (some req) m).0 ≡ saved keys
      → let m' = (put_config x hooks_of e c faults stamp now (some req) m).1 in
        (effective_read_only c ≡ false) × IsApplied req m.file m'.file m'.live
  unfolding put_config
  put_config_saved c faults stamp now req m keys h =
      let p = config_patch req m.live in
      let m' = (save_overlay x hooks_of e faults stamp now p m).1 in
      elim (Bool-cases (effective_read_only c)) [
        | inl locked ↦ absurd (ground arith)
        | inr open_ ↦ elim (Bool-cases (config_ok req)) [
          | inr bad ↦ absurd (ground arith)
          | inl good ↦ elim (Option-cases (save_overlay x hooks_of e faults stamp now p m).0) [
            | inl failed ↦ absurd (ground arith)
            | inr (k, ok) ↦
                let (file, _, live, _, _) =
                  save_overlay_saved x hooks_of e faults stamp now p m
                    (λ n. some-none k (sym ok ∙ n)) in
                (
                  open_,
                  rw (open_, good, ok, put_config)
                      (subst (λ f. IsApplied req m.file f m'.live) (sym file)
                        (subst (IsApplied req m.file (merged stamp p m.file)) (sym live)
                          (merged-IsApplied req stamp now m.file m.live good))),
                )
          ]
        ]
      ]
    where
      some-none : (k : List Text) → ¬ (some k ≡ none)
      some-none k e = ground arith
