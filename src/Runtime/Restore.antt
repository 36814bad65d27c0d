-- ===== src/Runtime/Restore.antt =====
-- Undoing a save by a backup, and what an empty list of tokens comes to, in
-- rflink/runtime_config.go.
use go_rflink.Prelude.{ℕ, ◌≡◌, ◌≢◌, refl, ap, ◌∙◌, Bool, true, none, some, List, [], arith}
use go_rflink.Prelude.Text.{Text}
use go_rflink.Strings.{Unicode}
use go_rflink.Tokens.{External, parse_api_auth_tokens}
use go_rflink.Webhooks.{RuntimeWebhook}
use go_rflink.Runtime.{RuntimeFile, Environment, Live, env, apply, api_tokens_from_runtime}
use go_rflink.Runtime.Disk.{Disk, Content, json, Faults, encoded, persist}
use go_rflink.Runtime.Manager.{Manager, merged, adopt, load_and_apply, save_overlay, restore_backup}
use go_rflink.Runtime.Laws.{
  rotate_first, persist-encoded, save_overlay_saved, load_and_apply_json, merged-version,
}

-- No copy into a backup fails.
abbrev pub CopiesAll : Faults → Type 0
CopiesAll x = (x.copy_ok 1 ≡ true) × (x.copy_ok 2 ≡ true) × (x.copy_ok 3 ≡ true)

persist_first :
    (x : Faults) (f : RuntimeFile) (d : Disk) (c : Content)
    → CopiesAll x
    → (persist x f d).0 ≡ true
    → d 0 ≡ some c
    → (persist x f d).1 1 ≡ some c
unfolding persist
persist_first x f d c (a, b, g) saved h =
    let first = rotate_first x.copy_ok x.left d c a b g h in ground arith

persist_works :
    (x : Faults) (f : RuntimeFile) (d : Disk)
    → (x.dir_ok ≡ true) × (x.written ≡ true)
    → (persist x f d).0 ≡ true
unfolding persist
persist_works x f d (a, b) = rw (a, b) refl

module _ ⦃u : Unicode⦄ (x : External) (hooks_of : Text → List RuntimeWebhook)
    (e : Environment) where
  restore_backup_first :
      (faults : Faults) (now : ℕ) (m : Manager) (f : RuntimeFile)
      → m.disk 1 ≡ some (json f)
      → (persist faults f m.disk).0 ≡ true
      → ((restore_backup x hooks_of e faults now 1 m).0 ≡ true)
        × ((restore_backup x hooks_of e faults now 1 m).1.file ≡ f)
        × ((restore_backup x hooks_of e faults now 1 m).1.disk ≡ (persist faults f m.disk).1)
  unfolding restore_backup adopt
  restore_backup_first faults now m f h saved = rw (h, restore_backup) (rw saved (refl, refl, refl))

  -- With a file on the disk and every copy of a backup made, restoring the first backup after a
  -- save, with a directory and a file that can be written, succeeds and brings back the file from
  -- before the save, in memory and on the disk, there with its empty lists left out.
  pub restore_backup-save_overlay :
      (first second : Faults) (stamp : Text) (now later : ℕ) (p f : RuntimeFile) (m : Manager)
      → m.disk 0 ≡ some (json f)
      → CopiesAll first
      → (save_overlay x hooks_of e first stamp now p m).0 ≢ none
      → (second.dir_ok ≡ true) × (second.written ≡ true)
      → let m' = (save_overlay x hooks_of e first stamp now p m).1 in
        let (restored, m'') = restore_backup x hooks_of e second later 1 m' in
        (restored ≡ true) × (m''.file ≡ f) × (m''.disk 0 ≡ some (json (encoded f)))
  restore_backup-save_overlay first second stamp now later p f m h copies saved works =
      let m' = (save_overlay x hooks_of e first stamp now p m).1 in
      let (_, _, _, disk, ok) = save_overlay_saved x hooks_of e first stamp now p m saved in
      let kept : m'.disk 1 ≡ some (json f) =
        ap (λ (d : Disk). d 1) disk
        ∙ persist_first first (merged stamp p m.file) m.disk (json f) copies ok h in
      let again : (persist second f m'.disk).0 ≡ true = persist_works second f m'.disk works in
      let (restored, file, disk') = restore_backup_first second later m' f kept again in
      (restored, file, ap (λ (d : Disk). d 0) disk' ∙ persist-encoded second f m'.disk again)

  apply_none :
      (now : ℕ) (f : RuntimeFile) (o : Live)
      → f.api_tokens ≡ some []
      → (apply x hooks_of e now f o).api_tokens ≡ []
  unfolding apply api_tokens_from_runtime
  apply_none now f o h = rw h refl

  adopt-encoded :
      (now : ℕ) (f : RuntimeFile) (m : Manager)
      → f.api_tokens ≡ some []
      → let m' = adopt x hooks_of e now (encoded f) m in
        (m'.sources.api_tokens ≡ env)
        × (m'.live.api_tokens ≡ parse_api_auth_tokens x e.api_token_pepper now e.api_auth_tokens)
  unfolding adopt apply
  adopt-encoded now f m h = rw h (refl, refl)

  -- After the list of tokens was saved empty no token is in effect, but loading the file again
  -- brings back the tokens of the environment.
  pub load_and_apply-save_overlay_emptied :
      (faults : Faults) (stamp : Text) (now later : ℕ) (p : RuntimeFile) (m : Manager)
      → (save_overlay x hooks_of e faults stamp now p m).0 ≢ none
      → p.api_tokens ≡ some []
      → let (_, m') = save_overlay x hooks_of e faults stamp now p m in
        let (_, m'') = load_and_apply x hooks_of e later m' in
        (m'.live.api_tokens ≡ [])
        × (m''.sources.api_tokens ≡ env)
        × (m''.live.api_tokens ≡ parse_api_auth_tokens x e.api_token_pepper later e.api_auth_tokens)
  load_and_apply-save_overlay_emptied faults stamp now later p m saved h =
      let m' = (save_overlay x hooks_of e faults stamp now p m).1 in
      let f = merged stamp p m.file in
      let (_, _, live, disk, ok) = save_overlay_saved x hooks_of e faults stamp now p m saved in
      let emptied : f.api_tokens ≡ some [] = unfold merged in rw h refl in
      let stored : m'.disk 0 ≡ some (json (encoded f)) =
        ap (λ (d : Disk). d 0) disk ∙ persist-encoded faults f m.disk ok in
      let loaded =
        load_and_apply_json x hooks_of e later m' (encoded f) stored
          (merged-version x hooks_of e stamp p m.file) in
      let (source, tokens) = adopt-encoded later f m' emptied in
      (
        ap (λ (o : Live). o.api_tokens) live ∙ apply_none now f m.live emptied,
        ap (λ (a : Bool × Manager). a.1.sources.api_tokens) loaded ∙ source,
        ap (λ (a : Bool × Manager). a.1.live.api_tokens) loaded ∙ tokens,
      )
