-- ===== src/Runtime/Manager.antt =====
-- `runtimeManager` of rflink/runtime_config.go: loading, saving and restoring the runtime file.
use go_rflink.Prelude.{
  ℕ, ◌+◌, Bool, true, false, ◌||◌, Option, none, some, List, [], ◌∷◌, ltb, ◌==◌, if◌then◌else◌,
}
use go_rflink.Prelude.Text.{Text, codes}
use go_rflink.Strings.{Unicode}
use go_rflink.Tokens.{External}
use go_rflink.Webhooks.{RuntimeWebhook}
use go_rflink.Runtime.{
  RuntimeFile, RuntimeSource, Environment, Live, empty_file, runtime_file_version,
  default_runtime_sources, prefix_or_default, apply, sources_of,
}
use go_rflink.Runtime.Disk.{Disk, json, Faults, persist, decoded, runtime_backup_count}

-- The manager with the options in effect, and how often `onChange` was called.
pub record Manager : Type 0 where
  pub file : RuntimeFile
  pub sources : RuntimeSource
  pub live : Live
  pub disk : Disk
  pub changes : ℕ

abbrev pub patched {ℓ} : {A : Type ℓ} → Option A → Option A → Option A
patched old none = old
patched old (some a) = some a

-- The keys of a patch that the file did not have, in order.
abbrev pub mark {ℓ} : {A : Type ℓ} → Text → Option A → Option A → List Text → List Text
mark key none _ rest = rest
mark key (some a) none rest = key ∷ rest
mark key (some a) (some b) rest = rest

unfoldable pub first_time_keys : RuntimeFile → RuntimeFile → List Text
first_time_keys p f = mark (codes "friendly_names") p.friendly_names f.friendly_names (
    mark (codes "ignore_list") p.ignore_list f.ignore_list (
      mark (codes "hwid_map") p.hwid_map f.hwid_map (
        mark (codes "api_tokens") p.api_tokens f.api_tokens (
          mark (codes "ha_discovery") p.ha_discovery f.ha_discovery (
            mark (codes "ha_discovery_prefix") p.ha_discovery_prefix f.ha_discovery_prefix (
              mark (codes "ha_buttons") p.ha_buttons f.ha_buttons (
                mark (codes "ha_switches") p.ha_switches f.ha_switches
                  (mark (codes "webhooks") p.webhooks f.webhooks []))))))))

-- The file that `SaveOverlay` writes.
unfoldable pub merged : Text → RuntimeFile → RuntimeFile → RuntimeFile
merged stamp p f = record {
  version = runtime_file_version;
  updated_at = stamp;
  friendly_names = patched f.friendly_names p.friendly_names;
  ignore_list = patched f.ignore_list p.ignore_list;
  hwid_map = patched f.hwid_map p.hwid_map;
  api_tokens = patched f.api_tokens p.api_tokens;
  ha_discovery = patched f.ha_discovery p.ha_discovery;
  ha_discovery_prefix = elim p.ha_discovery_prefix [
    | none ↦ f.ha_discovery_prefix
    | some v ↦ some (prefix_or_default v)
  ];
  ha_buttons = patched f.ha_buttons p.ha_buttons;
  ha_switches = patched f.ha_switches p.ha_switches;
  webhooks = patched f.webhooks p.webhooks;
}

module _ ⦃u : Unicode⦄ (x : External) (hooks_of : Text → List RuntimeWebhook)
    (e : Environment) where
  -- `rm.file = f; rm.applyLocked()`
  unfoldable pub adopt : ℕ → RuntimeFile → Manager → Manager
  unfolding apply
  adopt now f m = record m {
    file = f;
    sources = sources_of f;
    live = apply x hooks_of e now f m.live;
  }

  -- `loadAndApply`; false for its errors. A file that is missing leaves the options as they are.
  unfoldable pub load_and_apply : ℕ → Manager → Bool × Manager
  unfolding adopt decoded
  load_and_apply now m = elim (m.disk 0) [
    | none ↦ (true, record m { file = empty_file; sources = default_runtime_sources })
    | some c ↦ elim (decoded c) [ none ↦ (false, m) | some f ↦ (true, adopt now f m) ]
  ]

  -- `SaveOverlay`; the keys that the file has for the first time, or none for an error.
  unfoldable pub save_overlay :
      Faults → Text → ℕ → RuntimeFile → Manager → Option (List Text) × Manager
  unfolding adopt persist merged first_time_keys
  save_overlay faults stamp now p m =
      let f = merged stamp p m.file in
      let (saved, disk) = persist faults f m.disk in
      let m' : Manager = record m { disk = disk } in
      if saved
      then (some (first_time_keys p m.file), record (adopt now f m') { changes = m.changes + 1 })
      else (none, m')

  -- `RestoreBackup`; false for its errors. A backup that is blank does not decode here.
  unfoldable pub restore_backup : Faults → ℕ → ℕ → Manager → Bool × Manager
  unfolding adopt persist
  restore_backup faults now slot m =
      if slot == 0 || ltb runtime_backup_count slot then (false, m) else (elim (m.disk slot) [
        | some (json f) ↦
            let (saved, disk) = persist faults f m.disk in
            let m' : Manager = record m { disk = disk } in
            if saved then (true, adopt now f m') else (false, m')
        | _ ↦ (false, m)
      ])

  -- A round of `watchLoop` that sees a changed file.
  unfoldable pub hot_reload : ℕ → Manager → Manager
  unfolding load_and_apply
  hot_reload now m =
      let (loaded, m') = load_and_apply now m in
      if loaded then record m' { changes = m'.changes + 1 } else m'
