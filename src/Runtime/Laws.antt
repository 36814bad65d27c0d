-- ===== src/Runtime/Laws.antt =====
-- What saving, reloading and restoring of rflink/runtime_config.go keep.
use go_rflink.Prelude.{
  ℕ, zero, suc, ◌≡◌, ◌≢◌, refl, sym, ap, ◌∙◌, inl, inr, Bool, true, false, Option, none, some, List,
  [], Bool-cases, Option-cases, arith,
}
use go_rflink.Prelude.Text.{Text, is_empty}
use go_rflink.Strings.{Unicode, trim_left, trim_right, trim_space}
use go_rflink.Tokens.{External}
use go_rflink.Webhooks.{RuntimeWebhook}
use go_rflink.Runtime.{
  RuntimeFile, RuntimeSource, Environment, Live, apply, or_else, prefix_or_default, safe_prefix,
  sources_of,
}
use go_rflink.Runtime.Disk.{
  Disk, Content, json, Faults, write_slot, encoded, rotate_from, rotate_backups, persist, decoded,
}
use go_rflink.Runtime.Manager.{Manager, merged, adopt, load_and_apply, save_overlay}

-- The backups of a disk do not touch the file.
rotate_from_file :
    (copy_ok : ℕ → Bool) (left : ℕ → Option Content) (n : ℕ) (d : Disk)
    → rotate_from copy_ok left n d 0 ≡ d 0
unfolding rotate_from
rotate_from_file copy_ok left zero d = refl
rotate_from_file copy_ok left (suc i) d = elim (Option-cases (d i)) [
  | inl e ↦ rw (e, rotate_from) (rotate_from_file copy_ok left i d)
  | inr (c, e) ↦ elim (Bool-cases (copy_ok (suc i))) [
    | inl ok ↦
        rw (e, ok, rotate_from)
          (rotate_from_file copy_ok left i (write_slot (suc i) (d i) d) ∙ ground arith)
    | inr bad ↦ rw (e, bad, rotate_from) (ground arith)
  ]
]

pub persist-encoded :
    (x : Faults) (f : RuntimeFile) (d : Disk)
    → (persist x f d).0 ≡ true
    → (persist x f d).1 0 ≡ some (json (encoded f))
unfolding persist
persist-encoded x f d h = ground arith

persist_failed :
    (x : Faults) (f : RuntimeFile) (d : Disk)
    → (persist x f d).0 ≡ false
    → (persist x f d).1 0 ≡ d 0
unfolding persist
persist_failed x f d h = ground (arith, rotate_from_file x.copy_ok x.left 3 d)

-- The first backup after a rotation in which no copy fails.
pub rotate_first :
    (copy_ok : ℕ → Bool) (left : ℕ → Option Content) (d : Disk) (c : Content)
    → copy_ok 1 ≡ true
    → copy_ok 2 ≡ true
    → copy_ok 3 ≡ true
    → d 0 ≡ some c
    → rotate_backups copy_ok left d 1 ≡ some c
unfolding rotate_from
rotate_first copy_ok left d c a b e h = ground arith

-- When every copy is made, the rotation moves the file to the first slot and each backup to the next
-- one; a slot whose source is missing stays as it is.
pub rotate_backups_lem :
    (copy_ok : ℕ → Bool) (left : ℕ → Option Content) (d : Disk)
    → copy_ok 1 ≡ true
    → copy_ok 2 ≡ true
    → copy_ok 3 ≡ true
    → let d' = rotate_backups copy_ok left d in
      let older =
        λ (n : ℕ). elim (d n) as (λ o. Option Content) [ none ↦ d (suc n) | some c ↦ some c ] in
      (d' 0 ≡ d 0) × (d' 1 ≡ older 0) × (d' 2 ≡ older 1) × (d' 3 ≡ older 2)
unfolding rotate_from
rotate_backups_lem copy_ok left d a b e = ground arith

safe_again :
    (discovery : Bool) (prefix : Text)
    → safe_prefix discovery (safe_prefix discovery prefix) ≡ safe_prefix discovery prefix
unfolding trim_space trim_left trim_right
safe_again false prefix = refl
safe_again true prefix = elim (Bool-cases (is_empty (trim_space prefix))) [
  | inl unsafe ↦ rw unsafe refl
  | inr safe ↦ rw (safe, safe) refl
]

module _ ⦃u : Unicode⦄ (x : External) (hooks_of : Text → List RuntimeWebhook)
    (e : Environment) where
  apply_again :
      (now : ℕ) (f : RuntimeFile) (o : Live)
      → apply x hooks_of e now f (apply x hooks_of e now f o) ≡ apply x hooks_of e now f o
  unfolding apply
  apply_again now f o = ground (
    arith,
    safe_again (or_else o.home_assistant_discovery f.ha_discovery) o.ha_discovery_prefix,
    safe_again (or_else o.home_assistant_discovery f.ha_discovery)
        (prefix_or_default (or_else [] f.ha_discovery_prefix)),
  )

  -- When `SaveOverlay` reports an error, the settings in memory, where they come from, the options
  -- in effect and the file on the disk are as they were.
  pub save_overlay_failed :
      (faults : Faults) (stamp : Text) (now : ℕ) (p : RuntimeFile) (m : Manager)
      → (save_overlay x hooks_of e faults stamp now p m).0 ≡ none
      → let m' = (save_overlay x hooks_of e faults stamp now p m).1 in
        (m'.file ≡ m.file) × (m'.sources ≡ m.sources) × (m'.live ≡ m.live) × (m'.disk 0 ≡ m.disk 0)
  unfolding save_overlay
  save_overlay_failed faults stamp now p m h =
      elim (Bool-cases (persist faults (merged stamp p m.file) m.disk).0) [
        | inl saved ↦ absurd (ground arith)
        | inr failed ↦
            rw failed
              (refl, refl, refl, persist_failed faults (merged stamp p m.file) m.disk failed)
      ]

  -- What a save that went through leaves.
  pub save_overlay_saved :
      (faults : Faults) (stamp : Text) (now : ℕ) (p : RuntimeFile) (m : Manager)
      → (save_overlay x hooks_of e faults stamp now p m).0 ≢ none
      → let m' = (save_overlay x hooks_of e faults stamp now p m).1 in
        let f = merged stamp p m.file in
        (m'.file ≡ f)
        × (m'.sources ≡ sources_of f)
        × (m'.live ≡ apply x hooks_of e now f m.live)
        × (m'.disk ≡ (persist faults f m.disk).1)
        × ((persist faults f m.disk).0 ≡ true)
  unfolding save_overlay adopt
  save_overlay_saved faults stamp now p m h =
      elim (Bool-cases (persist faults (merged stamp p m.file) m.disk).0) [
        | inl saved ↦ rw saved (refl, refl, refl, refl, refl)
        | inr failed ↦ absurd (h (rw failed refl))
      ]

  pub merged-version : (stamp : Text) (p f : RuntimeFile) → (merged stamp p f).version ≡ 1
  unfolding merged
  merged-version stamp p f = refl

  pub load_and_apply_json :
      (now : ℕ) (m : Manager) (f : RuntimeFile)
      → m.disk 0 ≡ some (json f)
      → f.version ≡ 1
      → load_and_apply x hooks_of e now m ≡ (true, adopt x hooks_of e now f m)
  unfolding load_and_apply decoded
  load_and_apply_json now m f h v = rw (h, load_and_apply) (rw v refl)

  adopt_again :
      (now : ℕ) (m : Manager) (f : RuntimeFile)
      → m.file ≡ f
      → m.sources ≡ sources_of f
      → apply x hooks_of e now f m.live ≡ m.live
      → adopt x hooks_of e now f m ≡ m
  unfolding adopt
  adopt_again now m f a b d =
      let live = apply x hooks_of e now f m.live in
      ap (λ (g : RuntimeFile). with_ m g (sources_of f) live) (sym a)
      ∙ ap (λ (s : RuntimeSource). with_ m m.file s live) (sym b)
      ∙ ap (λ (l : Live). with_ m m.file m.sources l) d
    where
      with_ : Manager → RuntimeFile → RuntimeSource → Live → Manager
      with_ m g s l = record m { file = g; sources = s; live = l }

  -- When `SaveOverlay` reports no error and the merged settings have no empty list of tokens or
  -- web hooks, loading the file again at the same time succeeds and changes nothing at all.
  pub load_and_apply-save_overlay :
      (faults : Faults) (stamp : Text) (now : ℕ) (p : RuntimeFile) (m : Manager)
      → (save_overlay x hooks_of e faults stamp now p m).0 ≢ none
      → encoded (merged stamp p m.file) ≡ merged stamp p m.file
      → let m' = (save_overlay x hooks_of e faults stamp now p m).1 in
        load_and_apply x hooks_of e now m' ≡ (true, m')
  unfolding adopt
  load_and_apply-save_overlay faults stamp now p m h kept =
      let f = merged stamp p m.file in
      let m' = (save_overlay x hooks_of e faults stamp now p m).1 in
      let (file, sources, live, disk, saved) = save_overlay_saved faults stamp now p m h in
      let stored : m'.disk 0 ≡ some (json f) =
        ap (λ (d : Disk). d 0) disk
        ∙ persist-encoded faults f m.disk saved
        ∙ ap (λ g. some (json g)) kept in
      let same : apply x hooks_of e now f m'.live ≡ m'.live =
        ap (apply x hooks_of e now f) live ∙ apply_again now f m.live ∙ sym live in
      load_and_apply_json now m' f stored (merged-version stamp p m.file)
      ∙ ap (λ (k : Manager). (true, k)) (adopt_again now m' f file sources same)
