-- ===== src/Command/Grammar.antt =====
-- What `ValidateRFLinkCommand` of rflink/validate.go accepts, as a grammar.
use go_rflink.Prelude.{
  length, inr, inl, ◌⊎◌, ℕ, ◌≤◌, ◌≡◌, refl, sym, ap, subst, ◌∙◌, true, false, not, none, List, [],
  ◌∷◌, ◌++◌, ◌==◌, All, All-left, All-right, All-append, All-map, arith,
}
use go_rflink.Prelude.Text.{Text, is_empty, byte_len}
use go_rflink.Strings.{trim_space, trim_suffix, ends_with, split, join, is_space}
use go_rflink.Strings.Split.{Lacks, split-join, join-split, split-Lacks, split-cases}
use go_rflink.Strings.Trim.{IsTrimmed, StartsOff, EndsOff-append, trim_space_id}
use go_rflink.Command.{
  is_node, is_control, is_printable, any, check_fields, check_parts, validate_trimmed,
  validate_rflink_command,
}

-- A field: 1 to 96 characters of printable ASCII, none of them a semicolon.
abbrev pub IsField : Text → Type 0
IsField p =
    (is_empty p ≡ false) × (byte_len p ≤ 96) × Lacks b';' p × All (λ c. is_printable c ≡ true) p

-- A node: one or two digits.
abbrev pub IsNode : Text → Type 0
IsNode node = ((length node ≡ 1) ⊎ (length node ≡ 2)) × All (λ c. (b'0' ≤ c) × (c ≤ b'9')) node

-- A command: a node of one or two digits and at least one field, each followed by a semicolon.
pub record IsCommand (cmd : Text) : Type 0 where
  pub node : Text
  pub field : Text
  pub fields : List Text
  pub shape : cmd ≡ join b';' (node ∷ field ∷ fields) ++ b';' ∷ []
  pub node_digits : IsNode node
  pub fields_good : All IsField (field ∷ fields)

is_node-IsNode : (node : Text) → is_node node ≡ true → IsNode node
is_node-IsNode [] h = cc
is_node-IsNode (a ∷ []) h = (inl refl, ((ground arith, ground arith), tt))
is_node-IsNode (a ∷ b ∷ []) h =
    (inr refl, ((ground arith, ground arith), ((ground arith, ground arith), tt)))
is_node-IsNode (a ∷ b ∷ c ∷ s) h = cc

IsNode-is_node : (node : Text) → IsNode node → is_node node ≡ true
IsNode-is_node [] v = ground arith
IsNode-is_node (a ∷ []) v = ground arith
IsNode-is_node (a ∷ b ∷ []) v = ground arith
IsNode-is_node (a ∷ b ∷ c ∷ s) v = ground arith

-- A text that ends with a semicolon is its trimmed part and that semicolon.
trim_suffix-append : (s : Text) → ends_with b';' s ≡ true → trim_suffix b';' s ++ b';' ∷ [] ≡ s
unfolding trim_suffix
trim_suffix-append [] h = cc
trim_suffix-append (c ∷ []) h = ground arith
trim_suffix-append (c ∷ d ∷ s) h = ap (◌∷◌ c) (trim_suffix-append (d ∷ s) h)

append-trim_suffix : (s : Text) → trim_suffix b';' (s ++ b';' ∷ []) ≡ s
unfolding trim_suffix
append-trim_suffix [] = refl
append-trim_suffix (c ∷ []) = refl
append-trim_suffix (c ∷ d ∷ s) = ap (◌∷◌ c) (append-trim_suffix (d ∷ s))

abbrev IsAscii : Text → Type 0
IsAscii = All (λ c. is_printable c ≡ true)

any-IsAscii : (s : Text) → any (λ r. not (is_printable r)) s ≡ false → IsAscii s
any-IsAscii [] h = tt
any-IsAscii (c ∷ s) h = (ground arith, any-IsAscii s (ground arith))

IsAscii-any : (s : Text) → IsAscii s → any (λ r. not (is_printable r)) s ≡ false
IsAscii-any [] h = refl
IsAscii-any (c ∷ s) h = ground (arith, IsAscii-any s h.1)

IsAscii-control : (s : Text) → IsAscii s → any is_control s ≡ false
IsAscii-control [] h = refl
IsAscii-control (c ∷ s) h = ground (arith, IsAscii-control s h.1)

-- The parts of a text of printable characters hold printable characters.
IsAscii-join : (w : Text) (ws : List Text) → IsAscii (join b';' (w ∷ ws)) → All IsAscii (w ∷ ws)
unfolding join
IsAscii-join w [] h = (h, tt)
IsAscii-join w (v ∷ ws) h = (All-left _ w _ h, IsAscii-join v ws (All-right _ w _ h).1)

join-IsAscii : (w : Text) (ws : List Text) → All IsAscii (w ∷ ws) → IsAscii (join b';' (w ∷ ws))
unfolding join
join-IsAscii w [] h = h.0
join-IsAscii w (v ∷ ws) h = All-append _ w _ h.0 (refl, join-IsAscii v ws h.1)

check_fields_sound :
    (ps : List Text)
    → check_fields ps ≡ none
    → All IsAscii ps
    → All (Lacks b';') ps
    → All IsField ps
unfolding check_fields
check_fields_sound [] h a l = tt
check_fields_sound (p ∷ ps) h a l =
    ((ground arith, ground arith, l.0, a.0), check_fields_sound ps (ground arith) a.1 l.1)

check_fields_complete : (ps : List Text) → All IsField ps → check_fields ps ≡ none
unfolding check_fields
check_fields_complete [] h = refl
check_fields_complete (p ∷ ps) h = ground (arith, check_fields_complete ps h.1)

IsPassed : Text → Type 0
IsPassed c =
    (ends_with b';' c ≡ true)
    × (any (λ r. not (is_printable r)) c ≡ false)
    × (check_parts (split b';' (trim_suffix b';' c)) ≡ none)

validate_trimmed-IsPassed : (c : Text) → validate_trimmed c ≡ none → IsPassed c
unfolding validate_trimmed IsPassed
validate_trimmed-IsPassed c h = ground arith

parts_sound :
    (c w : Text) (ws : List Text)
    → IsPassed c
    → split b';' (trim_suffix b';' c) ≡ w ∷ ws
    → IsCommand c
unfolding IsPassed check_parts
parts_sound c w [] h e = absurd (cc (rw e at h.2))
parts_sound c w (p ∷ ps) h e =
    let shape =
      sym (trim_suffix-append c h.0)
      ∙ ap (λ s. s ++ b';' ∷ []) (sym (join-split b';' (trim_suffix b';' c)) ∙ ap (join b';') e) in
    let ascii =
      IsAscii-join w (p ∷ ps) (All-left _ _ _ (subst IsAscii shape (any-IsAscii c h.1))) in
    let lacks = subst (All (Lacks b';')) e (split-Lacks b';' (trim_suffix b';' c)) in
    let passed : check_parts (w ∷ p ∷ ps) ≡ none = rw e at h.2 in
    record {
      node = w;
      field = p;
      fields = ps;
      shape = shape;
      node_digits = is_node-IsNode w (ground arith);
      fields_good = (check_fields_sound (w ∷ p ∷ ps) (ground arith) ascii lacks).1;
    }

-- Whatever `ValidateRFLinkCommand` accepts is, trimmed, a command of the grammar: a node of one or
-- two digits and one or more fields of 1 to 96 characters from 0x20 to 0x7f, each part followed by
-- a semicolon.
pub validate_rflink_command_sound :
    (cmd : Text) → validate_rflink_command cmd ≡ none → IsCommand (trim_space cmd)
unfolding validate_rflink_command
validate_rflink_command_sound cmd h =
    let c = trim_space cmd in
    let (w, ws, e) = split-cases b';' (trim_suffix b';' c) in
    parts_sound c w ws (validate_trimmed-IsPassed c h) e

node-IsField : (node : Text) → is_node node ≡ true → IsField node
node-IsField [] h = cc
node-IsField (a ∷ []) h = ground arith
node-IsField (a ∷ b ∷ []) h = ground arith
node-IsField (a ∷ b ∷ c ∷ s) h = cc

pub ends_with-append : (c : ℕ) (s : Text) → (c == c) ≡ true → ends_with c (s ++ c ∷ []) ≡ true
ends_with-append c [] h = h
ends_with-append c (x ∷ []) h = h
ends_with-append c (x ∷ y ∷ s) h = ends_with-append c (y ∷ s) h

is_empty-append : (s : Text) (c : ℕ) → is_empty (s ++ c ∷ []) ≡ false
is_empty-append [] c = refl
is_empty-append (x ∷ s) c = refl

join-StartsOff :
    (node p : Text) (ps : List Text)
    → is_node node ≡ true
    → StartsOff is_space (join b';' (node ∷ p ∷ ps) ++ b';' ∷ [])
unfolding join
join-StartsOff [] p ps h = cc
join-StartsOff (a ∷ []) p ps h = ground arith
join-StartsOff (a ∷ b ∷ []) p ps h = ground arith
join-StartsOff (a ∷ b ∷ c ∷ s) p ps h = cc

-- A command of the grammar neither starts nor ends with white space.
pub IsCommand-IsTrimmed : (cmd : Text) → IsCommand cmd → IsTrimmed cmd
IsCommand-IsTrimmed cmd v = subst IsTrimmed (sym v.shape) (record {
  starts = join-StartsOff v.node v.field v.fields (IsNode-is_node v.node v.node_digits);
  ends = EndsOff-append is_space (join b';' (v.node ∷ v.field ∷ v.fields)) b';' refl;
})

-- It is printable ASCII throughout.
pub IsCommand-IsAscii : (cmd : Text) → IsCommand cmd → All (λ c. is_printable c ≡ true) cmd
IsCommand-IsAscii cmd v =
    let parts = join-IsAscii v.node (v.field ∷ v.fields) (
      (node-IsField v.node (IsNode-is_node v.node v.node_digits)).3,
      All-map IsField IsAscii (v.field ∷ v.fields) (λ p f. f.3) v.fields_good,
    ) in
    subst IsAscii (sym v.shape) (All-append _ _ _ parts (refl, tt))

shape_passes :
    (node p : Text) (ps : List Text)
    → is_node node ≡ true
    → All IsField (p ∷ ps)
    → check_parts (split b';' (trim_suffix b';' (join b';' (node ∷ p ∷ ps) ++ b';' ∷ []))) ≡ none
unfolding check_parts
shape_passes node p ps h f =
    let lacks =
      All-map IsField (Lacks b';') (node ∷ p ∷ ps) (λ q g. g.2) (node-IsField node h, f) in
    rw (append-trim_suffix (join b';' (node ∷ p ∷ ps)), split-join b';' node (p ∷ ps) lacks, h)
      (check_fields_complete (node ∷ p ∷ ps) (node-IsField node h, f))

-- `ValidateRFLinkCommand` accepts every command of the grammar.
pub validate_rflink_command_complete :
    (cmd : Text) → IsCommand cmd → validate_rflink_command cmd ≡ none
unfolding validate_rflink_command validate_trimmed
validate_rflink_command_complete cmd v =
    let ascii = IsCommand-IsAscii cmd v in
    let body = join b';' (v.node ∷ v.field ∷ v.fields) in
    let passes =
      subst (λ c. check_parts (split b';' (trim_suffix b';' c)) ≡ none) (sym v.shape)
        (shape_passes v.node v.field v.fields (IsNode-is_node v.node v.node_digits)
          v.fields_good) in
    let ends : ends_with b';' cmd ≡ true =
      subst (λ c. ends_with b';' c ≡ true) (sym v.shape) (ends_with-append b';' body refl) in
    let full_ : is_empty cmd ≡ false =
      subst (λ c. is_empty c ≡ false) (sym v.shape) (is_empty-append body b';') in
    ap validate_trimmed (trim_space_id cmd (IsCommand-IsTrimmed cmd v))
    ∙ rw (full_, ends, IsAscii-control cmd ascii, IsAscii-any cmd ascii) passes
