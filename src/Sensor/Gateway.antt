-- ===== src/Sensor/Gateway.antt =====
-- `ParseGatewayMessage` of rflink/sensor_data.go: replies of the gateway itself (PONG, version),
-- told apart from frames of devices.
use mathlib.Core.Path.{subst₂}
use go_rflink.Prelude.{
  ℕ, ◌≡◌, refl, ap, ◌⊎◌, inl, inr, Bool, true, false, not, ◌&&◌, ◌||◌, Option, none, some, List, [],
  ◌∷◌, if◌then◌else◌, arith, Bool-cases, Option-cases,
}
use go_rflink.Prelude.Text.{Text, codes, text_eq, is_empty, has_prefix}
use go_rflink.Prelude.Maps.{insert}
use go_rflink.Strings.{Unicode, trim_space, split, cut, contains, to_upper, to_lower}

pub record GatewayInfo : Type 0 where
  pub raw : Text
  pub version : Text
  pub pong : Bool
  pub received_at : ℕ
  pub extra : List (Text × Text)

-- The variables of the loop: the reply so far, `hasPong` and `hasVer`.
pub record Scan : Type 0 where
  pub info : GatewayInfo
  pub has_pong : Bool
  pub has_ver : Bool

unfoldable pub is_version_key : Text → Bool
is_version_key key = text_eq key (codes "VER") || text_eq key (codes "VERSION")

unfoldable pub is_meta_key : Text → Bool
is_meta_key key =
    text_eq key (codes "REV") || text_eq key (codes "BUILD") || text_eq key (codes "NAME")

is_empty_nil : (s : Text) → is_empty s ≡ true → s ≡ []
is_empty_nil [] h = refl
is_empty_nil (c ∷ s) h = cc

or_assoc : (a b c : Bool) → ((a || b) || c) ≡ (a || (b || c))
or_assoc a b c = ground arith

module _ ⦃u : Unicode⦄ where
  -- The `switch key` on a pair.
  scan_pair : Text × Text → Scan → Scan
  scan_pair (k, v) s =
      let key = to_upper (trim_space k) in
      let val = trim_space v in
      if is_version_key key
      then record s { info = record (s.info) { version = val }; has_ver = true }
      else (let info : GatewayInfo = record (s.info) {
        extra = insert (to_lower key) val s.info.extra;
      } in
          if is_meta_key key
          then record s { info = info; has_ver = true }
          else record s { info = info })

  -- One round of the loop; `strings.Contains(piece, "=")` is that the cut finds one.
  unfoldable pub scan_piece : Text → Scan → Scan
  unfolding scan_pair is_version_key is_meta_key
  scan_piece raw s =
      let piece = trim_space raw in
      if is_empty piece
      then s
      else if text_eq (to_upper piece) (codes "PONG")
      then record s { info = record (s.info) { pong = true }; has_pong = true }
      else (elim (cut b'=' piece) [ none ↦ s | some kv ↦ scan_pair kv s ])

  unfoldable pub scan_pieces : List Text → Scan → Scan
  scan_pieces [] s = s
  scan_pieces (p ∷ ps) s = scan_pieces ps (scan_piece p s)

  -- The test behind the loop. The source also sets an empty `Extra` to nil.
  abbrev pub conclude : Scan → Option GatewayInfo
  conclude s =
      if not s.has_pong && not s.has_ver && is_empty s.info.version then none else some s.info

  abbrev pub start : Text → ℕ → Scan
  start msg now = record {
    info = record { raw = msg; version = []; pong = false; received_at = now; extra = [] };
    has_pong = false;
    has_ver = false;
  }

  -- none is the `nil, nil` of a message that is no reply of the gateway.
  unfoldable pub parse_gateway_message : ℕ → Text → Option GatewayInfo
  unfolding scan_pieces
  parse_gateway_message now raw =
      let msg = trim_space raw in
      if is_empty msg
      then none
      else if not (has_prefix msg (codes "20;"))
      then none
      else if contains (to_upper msg) (codes "ID=")
      then none
      else conclude (scan_pieces (split b';' msg) (start msg now))

  -- A piece that says PONG, and one that carries version data.
  abbrev pub says_pong : Text → Bool
  says_pong raw = text_eq (to_upper (trim_space raw)) (codes "PONG")

  abbrev pub says_version : Text → Bool
  says_version raw = elim (cut b'=' (trim_space raw)) [
    | none ↦ false
    | some (k, v) ↦
        not (says_pong raw)
        && (is_version_key (to_upper (trim_space k)) || is_meta_key (to_upper (trim_space k)))
  ]

  abbrev pub some_piece : (Text → Bool) → List Text → Bool
  some_piece p [] = false
  some_piece p (x ∷ xs) = p x || some_piece p xs

  -- The flags count pieces, and a version or a pong in the reply comes with its flag.
  record Tracks (pongs versions : Bool) (s : Scan) : Type 0 where
    pong_is : s.has_pong ≡ pongs
    info_pong_is : s.info.pong ≡ pongs
    ver_is : s.has_ver ≡ versions
    version_flagged : s.has_ver ≡ false → is_empty s.info.version ≡ true

  scan_piece-Tracks :
      (x : Text) (a b : Bool) (s : Scan)
      → Tracks a b s
      → Tracks (a || says_pong x) (b || says_version x) (scan_piece x s)
  unfolding scan_piece
  scan_piece-Tracks x a b s t = elim (Bool-cases (is_empty (trim_space x))) [
    | inl blank ↦
        let nil = is_empty_nil (trim_space x) blank in
        rw (nil, scan_piece) (unfold cut in ground arith)
    | inr filled ↦ elim (Bool-cases (says_pong x)) [
      | inl pong ↦ rw (filled, pong, scan_piece) (ground arith)
      | inr other ↦ elim (Option-cases (cut b'=' (trim_space x))) [
        | inl bare ↦ rw (filled, other, bare, scan_piece) (ground arith)
        | inr ((k, v), pair) ↦ rw (filled, other, pair, scan_piece) (ground arith)
      ]
    ]
  ]

  scan_pieces-Tracks :
      (xs : List Text) (a b : Bool) (s : Scan)
      → Tracks a b s
      → Tracks (a || some_piece says_pong xs) (b || some_piece says_version xs) (scan_pieces xs s)
  unfolding scan_pieces
  scan_pieces-Tracks [] a b s t = ground arith
  scan_pieces-Tracks (x ∷ xs) a b s t =
      subst₂ (λ p q. Tracks p q (scan_pieces xs (scan_piece x s)))
        (or_assoc a (says_pong x) (some_piece says_pong xs))
        (or_assoc b (says_version x) (some_piece says_version xs))
        (scan_pieces-Tracks xs (a || says_pong x) (b || says_version x) (scan_piece x s)
          (scan_piece-Tracks x a b s t))

  start-Tracks : (msg : Text) (now : ℕ) → Tracks false false (start msg now)
  start-Tracks msg now = ground arith

  conclude-Tracks :
      (a b : Bool) (s : Scan)
      → Tracks a b s
      → ((conclude s ≡ none) × ((a || b) ≡ false))
        ⊎ ((info : GatewayInfo) × (conclude s ≡ some info) × ((a || b) ≡ true) × (info.pong ≡ a))
  conclude-Tracks a b s t = elim (Bool-cases (a || b)) [
    | inl reply ↦ inr (s.info, ground arith, reply, t.info_pong_is)
    | inr silent ↦ inl (ground arith, silent)
  ]

  -- The tests of a reply, as the statement below puts them.
  abbrev pub is_reply : Text → Bool
  is_reply msg =
      has_prefix msg (codes "20;")
      && not (contains (to_upper msg) (codes "ID="))
      && (some_piece says_pong (split b';' msg) || some_piece says_version (split b';' msg))

  -- A message is taken for a reply of the gateway exactly when it starts with "20;", carries no
  -- "ID=" and one of its pieces says PONG or carries version data; the reply then reports a PONG
  -- exactly when a piece says so.
  pub parse_gateway_message_lem :
      (now : ℕ) (raw : Text)
      → ((parse_gateway_message now raw ≡ none) × (is_reply (trim_space raw) ≡ false))
        ⊎ ((info : GatewayInfo) × (parse_gateway_message now raw ≡ some info)
            × (is_reply (trim_space raw) ≡ true)
            × (info.pong ≡ some_piece says_pong (split b';' (trim_space raw))))
  unfolding parse_gateway_message
  parse_gateway_message_lem now raw =
      let msg = trim_space raw in
      let s = scan_pieces (split b';' msg) (start msg now) in
      let pong = some_piece says_pong (split b';' msg) in
      let version = some_piece says_version (split b';' msg) in
      let t =
        scan_pieces-Tracks (split b';' msg) false false (start msg now) (start-Tracks msg now) in
      elim (Bool-cases (is_empty msg)) [
        | inl empty ↦ inl (rw empty refl, ap (λ (m : Text). is_reply m) (is_empty_nil msg empty))
        | inr filled ↦ elim (Bool-cases (has_prefix msg (codes "20;"))) [
          | inr no_ ↦ inl (rw (filled, no_) refl, rw no_ refl)
          | inl yes_ ↦ elim (Bool-cases (contains (to_upper msg) (codes "ID="))) [
            | inl device ↦ inl (rw (filled, yes_, device) refl, rw (yes_, device) refl)
            | inr plain ↦ elim (conclude-Tracks pong version s t) [
              | inl (e, f) ↦ inl (rw (filled, yes_, plain) e, rw (yes_, plain) f)
              | inr (info, e, f, p) ↦ inr (info, rw (filled, yes_, plain) e, rw (yes_, plain) f, p)
            ]
          ]
        ]
      ]
