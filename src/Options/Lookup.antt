-- ===== src/Options/Lookup.antt =====
-- What is found in a map of names or of HWIDs, rflink/options.go, that passed its check, and which
-- command topics pass theirs.
use go_rflink.Prelude.{
  ◌≡◌, refl, ◌⊎◌, inl, inr, ◌↔◌, Bool, true, false, not, ◌&&◌, some, List, [], ◌∷◌, ◌++◌, all, All,
  arith, Bool-cases, Option-cases,
}
use go_rflink.Prelude.Text.{Text, text_eq, text_eq_iff, is_empty, has_prefix}
use go_rflink.Prelude.Maps.{lookup, insert, All-insert, All-lookup}
use go_rflink.Strings.{Unicode, trim_space, trim_suffix, to_upper}
use go_rflink.Options.{
  colon_pair, split_csv, colon_entries, parse_colon_map, canonical_hwid, friendly_name_for,
  validate_cmd_topic,
}
use go_rflink.Options.Validate.{
  re_hwid, is_printable_name, valid_name, valid_hwid_entry, validate_friendly_names_csv,
  validate_hwid_map_csv,
}

has_prefix_refl : (s : Text) → has_prefix s s ≡ true
has_prefix_refl [] = refl
has_prefix_refl (c ∷ s) = ground (arith, has_prefix_refl s)

-- A command topic passes exactly when it is neither the publish topic nor a parent of it.
pub validate_cmd_topic_iff :
    (topic cmd_topic : Text)
    → (validate_cmd_topic topic cmd_topic ≡ true) ↔ (
        has_prefix (trim_suffix b'/' topic ++ b'/' ∷ []) (trim_suffix b'/' cmd_topic ++ b'/' ∷ [])
        ≡ false)
unfolding validate_cmd_topic
validate_cmd_topic_iff topic cmd_topic =
    let t = trim_suffix b'/' topic in
    let c = trim_suffix b'/' cmd_topic in
    elim (Bool-cases (text_eq c t)) [
      | inl same ↦
          let e : c ≡ t = (text_eq_iff c t).0 same in
          let hit : has_prefix (t ++ b'/' ∷ []) (c ++ b'/' ∷ []) ≡ true =
            rw e (has_prefix_refl (t ++ b'/' ∷ [])) in
          (λ h. ground arith, λ h. ground arith)
      | inr other ↦ (λ h. ground arith, λ h. ground arith)
    ]

module _ ⦃u : Unicode⦄ where
  colon_entries-All :
      (valid : Text → Bool) (P : Text × Text → Type 0)
      → ((p key val : Text)
          → valid p ≡ true
          → colon_pair p ≡ some (key, val)
          → P (to_upper key, val))
      → (ps : List Text) (out : List (Text × Text)) → all valid ps ≡ true
      → All P out
      → All P (colon_entries ps out)
  unfolding colon_entries
  colon_entries-All valid P good [] out h a = a
  colon_entries-All valid P good (p ∷ ps) out h a = elim (Option-cases (colon_pair p)) [
    | inl bad ↦ rw (bad, colon_entries) (colon_entries-All valid P good ps out (ground arith) a)
    | inr ((key, val), e) ↦ elim (Bool-cases (not (is_empty key) && not (is_empty val))) [
      | inl filled ↦
          rw (e, filled, colon_entries)
            (colon_entries-All valid P good ps (insert (to_upper key) val out) (ground arith)
              (All-insert P (to_upper key) val out (good p key val (ground arith) e) a))
      | inr blank ↦
          rw (e, blank, colon_entries) (colon_entries-All valid P good ps out (ground arith) a)
    ]
  ]

  abbrev IsHwidEntry : Text × Text → Type 0
  IsHwidEntry e = re_hwid e.1 ≡ true

  abbrev IsNameEntry : Text × Text → Type 0
  IsNameEntry e = is_printable_name e.1 ≡ true

  hwid_map-All :
      (raw : Text) → validate_hwid_map_csv raw ≡ true → All IsHwidEntry (parse_colon_map raw)
  unfolding parse_colon_map validate_hwid_map_csv
  hwid_map-All raw h = elim (Bool-cases (is_empty (trim_space raw))) [
    | inl blank ↦ rw blank tt
    | inr filled ↦ rw filled (
        colon_entries-All valid_hwid_entry IsHwidEntry (λ p key val v e. ground arith)
          (split_csv (trim_space raw)) [] (rw filled at h) tt)
  ]

  name_map-All :
      (raw : Text) → validate_friendly_names_csv raw ≡ true → All IsNameEntry (parse_colon_map raw)
  unfolding parse_colon_map validate_friendly_names_csv
  name_map-All raw h = elim (Bool-cases (is_empty (trim_space raw))) [
    | inl blank ↦ rw blank tt
    | inr filled ↦ rw filled (
        colon_entries-All valid_name IsNameEntry (λ p key val v e. ground arith)
          (split_csv (trim_space raw)) [] (ground arith) tt)
  ]

  -- With a HWID map that passes `ValidateHWIDMapCSV`, `CanonicalHWID` returns the default HWID or
  -- one of the form that the check asks for.
  pub canonical_hwid_valid :
      (raw id default_hwid : Text)
      → validate_hwid_map_csv raw ≡ true
      → let hwid = canonical_hwid (parse_colon_map raw) id default_hwid in
        (hwid ≡ default_hwid) ⊎ (re_hwid hwid ≡ true)
  unfolding canonical_hwid
  canonical_hwid_valid raw id default_hwid h =
      let m = parse_colon_map raw in
      let good = hwid_map-All raw h in
      elim (Option-cases (lookup (to_upper default_hwid) m)) [
        | inr (v, e) ↦
            inr (rw (canonical_hwid, e) (All-lookup IsHwidEntry (to_upper default_hwid) v m good e))
        | inl none_given ↦ elim (Option-cases (lookup (to_upper id) m)) [
          | inr (v, e) ↦
              inr (
                rw (canonical_hwid, none_given, e)
                  (All-lookup IsHwidEntry (to_upper id) v m good e))
          | inl gone ↦ inl (rw (canonical_hwid, none_given, gone) refl)
        ]
      ]

  -- With a name list that passes `ValidateFriendlyNamesCSV`, `FriendlyNameFor` returns the empty
  -- text or a printable name of at most 64 characters.
  pub friendly_name_for_valid :
      (raw hwid : Text)
      → validate_friendly_names_csv raw ≡ true
      → let name = friendly_name_for (parse_colon_map raw) hwid in
        (name ≡ []) ⊎ (is_printable_name name ≡ true)
  friendly_name_for_valid raw hwid h =
      let m = parse_colon_map raw in
      elim (Option-cases (lookup (to_upper hwid) m)) [
        | inl gone ↦ inl (rw (friendly_name_for, gone) refl)
        | inr (name, e) ↦ inr (
            rw (friendly_name_for, e)
              (All-lookup IsNameEntry (to_upper hwid) name m (name_map-All raw h) e))
      ]
