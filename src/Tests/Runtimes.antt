-- ===== src/Tests/Runtimes.antt =====
-- The runtime settings, and their administration over HTTP.
use go_rflink.Prelude.{
  ℕ, zero, suc, ◌≡◌, ◌≢◌, refl, true, false, none, some, List, [], ◌∷◌, All, arith,
}
use go_rflink.Prelude.Text.{Text, codes}
use go_rflink.Strings.{trim_space, equal_fold}
use go_rflink.Tokens.{ApiToken, default_api_token_scopes, parse_api_auth_tokens}
use go_rflink.Webhooks.{RuntimeWebhook}
use go_rflink.Http.{Access}
use go_rflink.Http.Auth.{effective_read_only}
use go_rflink.Runtime.{RuntimeFile, RuntimeApiToken, Environment, Live, env, empty_file, sources_of}
use go_rflink.Runtime.Disk.{Disk, json, Faults, encoded}
use go_rflink.Runtime.Manager.{Manager, merged, load_and_apply, save_overlay, restore_backup}
use go_rflink.Runtime.Laws.{save_overlay_failed, load_and_apply-save_overlay}
use go_rflink.Runtime.Restore.{restore_backup-save_overlay, load_and_apply-save_overlay_emptied}
use go_rflink.Runtime.Tokens.{deleted, token_list, delete_api_token}
use go_rflink.Runtime.Tokens.Admin.{asked, delete_api_token_deleted}
use go_rflink.Runtime.Config.{ConfigRequest, saved, put_config}
use go_rflink.Runtime.Config.Applied.{IsApplied, put_config_saved}
use go_rflink.Prelude.{◌⊎◌}
use go_rflink.Tokens.{parse_api_auth_tokens}
use go_rflink.Runtime.Hooks.{IsAdded, stored, create_webhook, create_webhook-load_webhook_list}
use go_rflink.Tests.Settings.{ascii_only}
use go_rflink.Tests.Https.{external}
use go_rflink.Tests.Hooks.{resolver, hook}

abbrev environment : Environment
environment = record {
  friendly_names = [];
  ignore_list = [];
  hwid_map = [];
  api_auth_tokens = codes "panel:abc";
  api_token_pepper = [];
  webhooks_json = [];
}

abbrev no_hooks : Text → List RuntimeWebhook
no_hooks json_ = []

abbrev panel : RuntimeApiToken
panel = record {
  name = codes "panel";
  token_hash = codes "abc";
  token_suffix = codes "abc";
  expires_at = none;
  created_at = [];
  scopes = default_api_token_scopes;
}

abbrev file : RuntimeFile
file = record empty_file { api_tokens = some (panel ∷ []) }

abbrev live : Live
live = record {
  friendly_name_map = [];
  ignore_set = [];
  hwid_map = [];
  api_tokens = [];
  home_assistant_discovery = true;
  ha_discovery_prefix = codes "homeassistant";
  ha_buttons = [];
  ha_switches = [];
  ha_button_list = [];
  ha_switch_list = [];
  webhooks = [];
}

abbrev disk : Disk
disk zero = some (json file)
disk (suc n) = none

abbrev manager : Manager
manager = record { file = file; sources = sources_of file; live = live; disk = disk; changes = 0 }

abbrev fine : Faults
fine = record { dir_ok = true; copy_ok = λ n. true; left = λ n. none; written = true }

abbrev full_disk : Faults
full_disk = record fine { written = false }

abbrev patch : RuntimeFile
patch = record empty_file { ignore_list = some (codes "OREGON") }

abbrev stamp : Text
stamp = codes "2026-01-01T00:00:00Z"

some-none {ℓ} : {A : Type ℓ} (a : A) → ¬ (some a ≡ none)
some-none a e = ground arith

patch-saved :
    (save_overlay ⦃u = ascii_only⦄ external no_hooks environment fine stamp 9 patch manager).0
    ≢ none
unfolding save_overlay
patch-saved = some-none (codes "ignore_list" ∷ [])

load_and_apply-save_overlay_example :
    let m' =
      (save_overlay ⦃u = ascii_only⦄ external no_hooks environment fine stamp 9 patch manager).1 in
    load_and_apply ⦃u = ascii_only⦄ external no_hooks environment 9 m' ≡ (true, m')
load_and_apply-save_overlay_example =
    load_and_apply-save_overlay ⦃u = ascii_only⦄ external no_hooks environment fine stamp 9 patch
      manager patch-saved (unfold merged in refl)

save_overlay_failed_example :
    let m' =
      (save_overlay ⦃u = ascii_only⦄ external no_hooks environment full_disk stamp 9 patch
        manager).1 in
    (m'.file ≡ file)
    × (m'.sources ≡ sources_of file)
    × (m'.live ≡ live)
    × (m'.disk 0 ≡ some (json file))
save_overlay_failed_example =
    save_overlay_failed ⦃u = ascii_only⦄ external no_hooks environment full_disk stamp 9 patch
      manager not_saved
  where
    not_saved :
        (save_overlay ⦃u = ascii_only⦄ external no_hooks environment full_disk stamp 9 patch
          manager).0
        ≡ none
    not_saved = unfold save_overlay in refl

restore_backup-save_overlay_example :
    let m' =
      (save_overlay ⦃u = ascii_only⦄ external no_hooks environment fine stamp 9 patch manager).1 in
    let (restored, m'') =
      restore_backup ⦃u = ascii_only⦄ external no_hooks environment fine 12 1 m' in
    (restored ≡ true) × (m''.file ≡ file) × (m''.disk 0 ≡ some (json (encoded file)))
restore_backup-save_overlay_example =
    restore_backup-save_overlay ⦃u = ascii_only⦄ external no_hooks environment fine fine stamp 9 12
      patch file manager refl (refl, refl, refl) patch-saved (refl, refl)

abbrev no_tokens : RuntimeFile
no_tokens = record empty_file { api_tokens = some [] }

emptied-saved :
    (save_overlay ⦃u = ascii_only⦄ external no_hooks environment fine stamp 9 no_tokens manager).0
    ≢ none
unfolding save_overlay
emptied-saved = some-none []

load_and_apply-save_overlay_emptied_example :
    let (_, m') =
      save_overlay ⦃u = ascii_only⦄ external no_hooks environment fine stamp 9 no_tokens manager in
    let (_, m'') = load_and_apply ⦃u = ascii_only⦄ external no_hooks environment 12 m' in
    (m'.live.api_tokens ≡ [])
    × (m''.sources.api_tokens ≡ env)
    × (m''.live.api_tokens
        ≡ parse_api_auth_tokens ⦃u = ascii_only⦄ external [] 12 (codes "panel:abc"))
load_and_apply-save_overlay_emptied_example =
    load_and_apply-save_overlay_emptied ⦃u = ascii_only⦄ external no_hooks environment fine stamp 9
      12 no_tokens manager emptied-saved refl

abbrev format : ℕ → Text
format t = stamp

abbrev access : Access
access = record {
  auth_token = codes "gui token";
  read_only = false;
  api_token_pepper = [];
  api_tokens = [];
}

panel-deleted :
    (delete_api_token ⦃u = ascii_only⦄ external no_hooks environment format access fine 9
      (codes "Panel")
      []
      manager).0
    ≡ deleted
unfolding delete_api_token trim_space
panel-deleted = refl

delete_api_token_deleted_example :
    let m' =
      (delete_api_token ⦃u = ascii_only⦄ external no_hooks environment format access fine 9
        (codes "Panel")
        []
        manager).1 in
    (effective_read_only access ≡ false)
    × (All
          (λ (t : ApiToken). equal_fold ⦃u = ascii_only⦄ t.name (asked (codes "Panel") []) ≡ false)
          m'.live.api_tokens
        ⊎ ((token_list format manager ≡ none)
            × (m'.live.api_tokens
                ≡ parse_api_auth_tokens ⦃u = ascii_only⦄ external [] 9 (codes "panel:abc"))))
delete_api_token_deleted_example =
    delete_api_token_deleted ⦃u = ascii_only⦄ external no_hooks environment format access fine 9
      (codes "Panel") [] manager refl panel-deleted

abbrev config : ConfigRequest
config = record {
  friendly_names = none;
  ignore_list = some (codes "OREGON");
  hwid_map = none;
  ha_discovery = none;
  ha_discovery_prefix = none;
  ha_buttons = none;
  ha_switches = none;
}

config-saved :
    (put_config ⦃u = ascii_only⦄ external no_hooks environment access fine stamp 9
      (some config)
      manager).0
    ≡ saved (codes "ignore_list" ∷ [])
unfolding put_config trim_space
config-saved = refl

put_config_saved_example :
    let m' =
      (put_config ⦃u = ascii_only⦄ external no_hooks environment access fine stamp 9
        (some config)
        manager).1 in
    (effective_read_only access ≡ false)
    × IsApplied ⦃u = ascii_only⦄ config manager.file m'.file m'.live
put_config_saved_example =
    put_config_saved ⦃u = ascii_only⦄ external no_hooks environment access fine stamp 9 config
      manager (codes "ignore_list" ∷ []) config-saved

abbrev lamp : RuntimeWebhook
lamp = record hook { id = codes "0123456789"; created_at = stamp }

lamp-stored :
    (create_webhook ⦃u = ascii_only⦄ resolver external no_hooks environment access fine stamp 9
      (codes "0123456789")
      hook
      manager).0
    ≡ stored lamp (codes "webhooks" ∷ [])
unfolding create_webhook trim_space
lamp-stored = refl

create_webhook-load_webhook_list_example :
    let m' =
      (create_webhook ⦃u = ascii_only⦄ resolver external no_hooks environment access fine stamp 9
        (codes "0123456789")
        hook
        manager).1 in
    IsAdded ⦃u = ascii_only⦄ lamp manager m' × (effective_read_only access ≡ false)
create_webhook-load_webhook_list_example =
    create_webhook-load_webhook_list ⦃u = ascii_only⦄ resolver external no_hooks environment access
      fine stamp 9 (codes "0123456789") hook lamp manager (codes "webhooks" ∷ []) lamp-stored
