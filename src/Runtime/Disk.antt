-- ===== src/Runtime/Disk.antt =====
-- The runtime file and its backups on the disk, in rflink/runtime_config.go. Slot 0 is the file and
-- slot n its n-th backup. What fails is an argument: an error while the new file is written leaves
-- the old one, since the new one is renamed into its place last.
use go_rflink.Prelude.{
  ℕ, zero, suc, Bool, true, false, not, Option, none, some, List, [], ◌∷◌, ◌==◌, if◌then◌else◌,
}
use go_rflink.Runtime.{RuntimeFile, empty_file, runtime_file_version}

abbrev pub runtime_backup_count : ℕ
runtime_backup_count = 3

-- What a file holds: nothing but white space, no JSON, or a file as it decodes.
pub data Content : Type 0 where
  blank malformed : Content
  json : RuntimeFile → Content

abbrev pub Disk : Type 0
Disk = ℕ → Option Content

abbrev pub write_slot : ℕ → Option Content → Disk → Disk
write_slot n v d m = if m == n then v else d m

-- `omitempty` leaves out an empty slice as well as a nil one.
abbrev pub omit_empty {ℓ} : {A : Type ℓ} → Option (List A) → Option (List A)
omit_empty none = none
omit_empty (some []) = none
omit_empty (some (a ∷ as_)) = some (a ∷ as_)

abbrev pub encoded : RuntimeFile → RuntimeFile
encoded f = record f { api_tokens = omit_empty f.api_tokens; webhooks = omit_empty f.webhooks }

-- What goes wrong, if anything: the directory, the copy into a backup slot, the new file. A copy that
-- fails leaves something of the text in its slot, or nothing.
pub record Faults : Type 0 where
  pub dir_ok : Bool
  pub copy_ok : ℕ → Bool
  pub left : ℕ → Option Content
  pub written : Bool

-- The loop of `rotateBackupsLocked`, from a slot down. A failed copy ends it, and what it
-- has written is then in the slot that it was to fill.
unfoldable pub rotate_from : (ℕ → Bool) → (ℕ → Option Content) → ℕ → Disk → Disk
rotate_from copy_ok left zero d = d
rotate_from copy_ok left (suc i) d =
    let rest = rotate_from copy_ok left i (write_slot (suc i) (d i) d) in
    let skipped = rotate_from copy_ok left i d in
    elim (d i) [
      | none ↦ skipped
      | some c ↦ if copy_ok (suc i) then rest else write_slot (suc i) (left (suc i)) d
    ]

abbrev pub rotate_backups : (ℕ → Bool) → (ℕ → Option Content) → Disk → Disk
rotate_backups copy_ok left = rotate_from copy_ok left runtime_backup_count

-- `persistLocked`; the text that it writes ends with a line break, and is not shown.
unfoldable pub persist : Faults → RuntimeFile → Disk → Bool × Disk
unfolding rotate_from
persist x f d =
    let rotated = rotate_backups x.copy_ok x.left d in
    if not x.dir_ok
    then (false, d)
    else if x.written
    then (true, write_slot 0 (some (json (encoded f))) rotated)
    else (false, rotated)

-- The file of `loadAndApply` before it is applied; none for the errors.
unfoldable pub decoded : Content → Option RuntimeFile
decoded blank = some empty_file
decoded malformed = none
decoded (json f) = some (if f.version == 0 then record f { version = runtime_file_version } else f)

-- The slots that `ListBackups` reports.
unfoldable pub list_backups : Disk → List ℕ
list_backups d = from 1 (from 2 (from 3 []))
  where
    from : ℕ → List ℕ → List ℕ
    from i rest = elim (d i) [ none ↦ rest | some c ↦ i ∷ rest ]
