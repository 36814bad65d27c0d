-- ===== src/Runtime/Config/Fields.antt =====
-- How one setting of a request passes from `putConfig` of rflink/http_server.go through the file into
-- effect.
use go_rflink.Prelude.{
  ◌≡◌, refl, ap, ◌∙◌, inl, inr, Bool, true, false, ◌&&◌, Option, none, some, [], ◌∷◌, if◌then◌else◌,
  Bool-cases, arith,
}
use go_rflink.Prelude.Text.{Text, codes, is_empty}
use go_rflink.Strings.{trim_left, trim_right, trim_space}
use go_rflink.Strings.Trim.{trim_space_idem}
use go_rflink.Runtime.{or_else, prefix_or_default, safe_prefix}
use go_rflink.Runtime.Manager.{patched}
use go_rflink.Runtime.Config.{field_ok, trimmed}

-- A setting of the request: `Kept` when it is not there, else `Used` of its trimmed text.
abbrev pub Setting : Option Text → Type 0 → (Text → Type 0) → Type 0
Setting none Kept Used = Kept
Setting (some v) Kept Used = Used (trim_space v)

-- The switch for discovery.
abbrev pub Toggled : Option Bool → Bool → Type 0
Toggled none now = Unit
Toggled (some b) now = now ≡ b

-- A setting that is parsed where it is given, and else comes from the environment.
pub parsed_setting :
    {B : Type 0} (valid : Text → Bool) (parse : Text → B) (d : Text) (f o : Option Text)
    → field_ok valid o ≡ true
    → Setting o
        (patched f (trimmed o) ≡ f)
        (λ v. (valid v ≡ true) × (parse (or_else d (patched f (trimmed o))) ≡ parse v))
parsed_setting valid parse d f none h = refl
parsed_setting valid parse d f (some v) h = (h, refl)

-- The list that is in effect beside its text.
abbrev pub list_of : {B : Type 0} → (Text → B) → B → Option Text → B
list_of parse d o = elim o [ none ↦ d | some s ↦ parse s ]

pub listed_setting :
    {B : Type 0} (valid : Text → Bool) (parse : Text → B) (d : Text) (bs : B) (f o : Option Text)
    → field_ok valid o ≡ true
    → Setting o (patched f (trimmed o) ≡ f) (λ v.
      (valid v ≡ true)
      × (or_else d (patched f (trimmed o)) ≡ v)
      × (list_of parse bs (patched f (trimmed o)) ≡ parse v))
listed_setting valid parse d bs f none h = refl
listed_setting valid parse d bs f (some v) h = (h, refl, refl)

pub discovery_setting : (d : Bool) (f o : Option Bool) → Toggled o (or_else d (patched f o))
discovery_setting d f none = tt
discovery_setting d f (some b) = refl

abbrev pub default_prefix : Text → Text
default_prefix v = if is_empty v then codes "homeassistant" else v

empty_nil : (s : Text) → is_empty s ≡ true → s ≡ []
empty_nil [] h = refl
empty_nil (c ∷ s) h = absurd (ground arith)

-- A name that is trimmed and not empty passes through both defaults.
default_full : (w : Text) → trim_space w ≡ w → is_empty w ≡ false → prefix_or_default w ≡ w
default_full w e full = rw (e, full) refl

safe_full :
    (discovery : Bool) (w : Text)
    → trim_space w ≡ w
    → is_empty w ≡ false
    → safe_prefix discovery w ≡ w
safe_full discovery w e full = rw (e, full) (same discovery)
  where
    same : (b : Bool) → (if b && false then codes "homeassistant" else w) ≡ w
    same b = ground arith

named : trim_space (codes "homeassistant") ≡ codes "homeassistant"
unfolding trim_space trim_left trim_right
named = refl

default_nil : prefix_or_default [] ≡ codes "homeassistant"
unfolding trim_space trim_left trim_right
default_nil = refl

-- The prefix on its way from the request to the settings in effect.
through : (discovery : Bool) (sent : Text) → Text
through discovery sent = safe_prefix discovery (prefix_or_default (prefix_or_default sent))

through_full :
    (discovery : Bool) (w : Text) → trim_space w ≡ w → is_empty w ≡ false → through discovery w ≡ w
unfolding through
through_full discovery w e full =
    ap (λ s. safe_prefix discovery (prefix_or_default s)) (default_full w e full)
    ∙ ap (safe_prefix discovery) (default_full w e full)
    ∙ safe_full discovery w e full

through_nil : (discovery : Bool) → through discovery [] ≡ codes "homeassistant"
unfolding through
through_nil discovery =
    ap (λ s. safe_prefix discovery (prefix_or_default s)) default_nil
    ∙ ap (safe_prefix discovery) (default_full (codes "homeassistant") named refl)
    ∙ safe_full discovery (codes "homeassistant") named refl

through_sent :
    (discovery live : Bool) (w : Text)
    → trim_space w ≡ w
    → through discovery (if live && is_empty w then codes "homeassistant" else w) ≡ default_prefix w
through_sent discovery live [] e = by_live live
  where
    by_live :
        (b : Bool)
        → through discovery (if b && true then codes "homeassistant" else [])
          ≡ codes "homeassistant"
    by_live true = through_full discovery (codes "homeassistant") named refl
    by_live false = through_nil discovery
through_sent discovery true (a ∷ w) e = through_full discovery (a ∷ w) e refl
through_sent discovery false (a ∷ w) e = through_full discovery (a ∷ w) e refl

-- `prefix_patch`, on the parts that it reads.
abbrev pub patch_of : Bool → Text → Option Text → Option Text
patch_of live d given =
    if live && is_empty (or_else d (trimmed given))
    then some (codes "homeassistant")
    else trimmed given

abbrev pub prefix_of : Bool → Text → Option Text → Option Text → Text
prefix_of discovery d old patch =
    let filed : Option Text = elim patch [ none ↦ old | some p ↦ some (prefix_or_default p) ] in
    safe_prefix discovery (elim filed [ none ↦ d | some p ↦ prefix_or_default p ])

pub prefix_setting :
    (valid : Text → Bool) (live discovery : Bool) (d : Text) (old given : Option Text)
    → field_ok valid given ≡ true
    → Setting given Unit (λ v.
      (valid v ≡ true) × (prefix_of discovery d old (patch_of live d given) ≡ default_prefix v))
unfolding through
prefix_setting valid live discovery d old none h = tt
prefix_setting valid live discovery d old (some v) h =
    let e = through_sent discovery live (trim_space v) (trim_space_idem v) in
    elim (Bool-cases (live && is_empty (trim_space v))) [
      | inl named_ ↦ (h, rw named_ (rw named_ at e))
      | inr given_ ↦ (h, rw given_ (rw given_ at e))
    ]
