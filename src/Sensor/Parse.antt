-- ===== src/Sensor/Parse.antt =====
-- What `SensorDataFromMessage` of rflink/sensor_data.go makes of a message, against a reading of the
-- message as a list of pairs.
use go_rflink.Prelude.{
  ℕ, ◌≡◌, ◌≢◌, refl, sym, ap, subst, ◌∙◌, ◌⊎◌, inl, inr, false, Option, none, some, List, [], ◌∷◌,
  ◌++◌, if◌then◌else◌, arith, Bool-cases, Option-cases,
}
use go_rflink.Prelude.Text.{Text, codes, text_eq, text_eq_iff, is_empty}
use go_rflink.Prelude.Maps.{lookup}
use go_rflink.Strings.{Unicode, trim_space, split, cut, to_upper}
use go_rflink.Strings.Numbers.{parse_uint16}
use go_rflink.Sensor.{
  SensorData, ok, blank, Key, key_of, key_value, set_known, read_field, accepts_first, read_fields,
  require_id, read_pieces, sensor_data_from_message,
}

abbrev pub value_of : Text → List (Text × Text) → Text
value_of k seen = elim (lookup k seen) [ none ↦ [] | some v ↦ v ]

abbrev pub number_of : Text → ℕ → List (Text × Text) → Option ℕ
number_of k base seen = elim (lookup k seen) [ none ↦ none | some v ↦ parse_uint16 v base ]

module _ ⦃u : Unicode⦄ where
  -- The pairs of the pieces in front of those in `seen`, so that the last pair of a key is found
  -- first; none if a piece that is not blank holds no `=`.
  unfoldable pub collect : List Text → List (Text × Text) → Option (List (Text × Text))
  collect [] seen = some seen
  collect (p ∷ ps) seen =
      let skip = collect ps seen in
      if is_empty (trim_space p) then skip else (elim (cut b'=' (trim_space p)) [
        | none ↦ none
        | some kv ↦ collect ps (key_value kv ∷ seen)
      ])

  -- The record carries the last value of each key; its HWID is made of model and id.
  pub record Describes (seen : List (Text × Text)) (sd : SensorData) : Type 0 where
    pub id_is : sd.id ≡ value_of (codes "ID") seen
    pub hwid_is :
        sd.hwid
        ≡ (elim (lookup (codes "ID") seen) [ none ↦ [] | some v ↦ to_upper (sd.model ++ b'_' ∷ v) ])
    pub temp_raw_is : sd.temp_raw ≡ value_of (codes "TEMP") seen
    pub temperature_is : sd.temperature ≡ number_of (codes "TEMP") 16 seen
    pub humidity_is : sd.humidity ≡ number_of (codes "HUM") 10 seen
    pub bat_is : sd.bat ≡ value_of (codes "BAT") seen
    pub switch_is : sd.switch ≡ value_of (codes "SWITCH") seen
    pub cmd_is : sd.cmd ≡ value_of (codes "CMD") seen

  -- The ladder of `key_of`, once for all the fields.
  key_of_cases :
      (k : Text)
      → ((key_of k ≡ Key.id) × (k ≡ codes "ID"))
        ⊎ ((key_of k ≡ Key.temp) × (k ≡ codes "TEMP"))
        ⊎ ((key_of k ≡ Key.hum) × (k ≡ codes "HUM"))
        ⊎ ((key_of k ≡ Key.bat) × (k ≡ codes "BAT"))
        ⊎ ((key_of k ≡ Key.switch) × (k ≡ codes "SWITCH"))
        ⊎ ((key_of k ≡ Key.cmd) × (k ≡ codes "CMD"))
        ⊎ ((key_of k ≡ Key.unknown)
            × (text_eq k (codes "ID") ≡ false)
            × (text_eq k (codes "TEMP") ≡ false)
            × (text_eq k (codes "HUM") ≡ false)
            × (text_eq k (codes "BAT") ≡ false)
            × (text_eq k (codes "SWITCH") ≡ false)
            × (text_eq k (codes "CMD") ≡ false))
  unfolding key_of
  key_of_cases k = ground (
    arith,
    text_eq_iff k (codes "ID"),
    text_eq_iff k (codes "TEMP"),
    text_eq_iff k (codes "HUM"),
    text_eq_iff k (codes "BAT"),
    text_eq_iff k (codes "SWITCH"),
    text_eq_iff k (codes "CMD"),
  )

  -- A known key, by its name in the message.
  abbrev key_name : Key → Text
  key_name Key.id = codes "ID"
  key_name Key.temp = codes "TEMP"
  key_name Key.hum = codes "HUM"
  key_name Key.bat = codes "BAT"
  key_name Key.switch = codes "SWITCH"
  key_name Key.cmd = codes "CMD"
  key_name Key.unknown = []

  named-Describes :
      (key : Key) (k v : Text) (seen : List (Text × Text)) (sd sd' : SensorData)
      → key ≢ Key.unknown
      → set_known key k v sd ≡ ok sd'
      → Describes seen sd
      → Describes ((key_name key, v) ∷ seen) sd'
  unfolding set_known
  named-Describes Key.id k v seen sd sd' n e d = ground arith
  named-Describes Key.unknown k v seen sd sd' n e d = absurd (n refl)
  named-Describes key k v seen sd sd' n e d = ground arith

  set_known-Describes :
      (k v : Text) (seen : List (Text × Text)) (sd sd' : SensorData)
      → set_known (key_of k) k v sd ≡ ok sd'
      → Describes seen sd
      → Describes ((k, v) ∷ seen) sd'
  set_known-Describes k v seen sd sd' e d = elim (key_of_cases k) [
    | inl (c, q) ↦ named Key.id c q (λ x. cc)
    | inr (inl (c, q)) ↦ named Key.temp c q (λ x. cc)
    | inr (inr (inl (c, q))) ↦ named Key.hum c q (λ x. cc)
    | inr (inr (inr (inl (c, q)))) ↦ named Key.bat c q (λ x. cc)
    | inr (inr (inr (inr (inl (c, q))))) ↦ named Key.switch c q (λ x. cc)
    | inr (inr (inr (inr (inr (inl (c, q)))))) ↦ named Key.cmd c q (λ x. cc)
    | inr (inr (inr (inr (inr (inr r))))) ↦ unfold set_known in ground arith
  ]
    where
      named :
          (key : Key)
          → key_of k ≡ key
          → k ≡ key_name key
          → key ≢ Key.unknown
          → Describes ((k, v) ∷ seen) sd'
      named key c q n =
          subst (λ x. Describes ((x, v) ∷ seen) sd') (sym q)
            (named-Describes key k v seen sd sd' n (rw c at e) d)

  read_field-Describes :
      (p : Text) (ps : List Text) (seen : List (Text × Text)) (sd sd' : SensorData)
      → read_field p sd ≡ ok sd'
      → Describes seen sd
      → (seen' : List (Text × Text)) × Describes seen' sd'
        × (collect (p ∷ ps) seen ≡ collect ps seen')
  unfolding read_field collect
  read_field-Describes p ps seen sd sd' e d = elim (Bool-cases (is_empty (trim_space p))) [
    | inl skipped ↦
        let same : sd ≡ sd' = ground arith in (seen, subst (Describes seen) same d, rw skipped refl)
    | inr filled ↦ elim (Option-cases (cut b'=' (trim_space p))) [
      | inl bare ↦ absurd (ground arith)
      | inr ((k, v), pair) ↦
          let set : set_known (key_of (key_value (k, v)).0) (key_value (k, v)).0
                (key_value (k, v)).1 sd
              ≡ ok sd' =
            ground arith in
          (
            key_value (k, v) ∷ seen,
            set_known-Describes _ _ seen sd sd' set d,
            rw (filled, pair) refl,
          )
    ]
  ]

  read_fields-Describes :
      (ps : List Text) (seen : List (Text × Text)) (sd sd' : SensorData)
      → read_fields ps sd ≡ ok sd'
      → Describes seen sd
      → (seen' : List (Text × Text)) × (collect ps seen ≡ some seen') × Describes seen' sd'
  unfolding read_fields collect
  read_fields-Describes [] seen sd sd' e d =
      let same : sd ≡ sd' = ground arith in (seen, refl, subst (Describes seen) same d)
  read_fields-Describes (p ∷ ps) seen sd sd' e d =
      let (mid, first, later) = accepts_first (read_fields ps) (read_field p sd) e in
      let (seen1, d1, c1) = read_field-Describes p ps seen sd mid first d in
      let (seen', c, d') = read_fields-Describes ps seen1 mid sd' later d1 in (seen', c1 ∙ c, d')

  blank-Describes : (model : Text) (now : ℕ) → Describes [] (blank model now)
  blank-Describes model now = ground arith

  set_known-model :
      (key : Key) (k v : Text) (sd sd' : SensorData)
      → set_known key k v sd ≡ ok sd'
      → sd'.model ≡ sd.model
  unfolding set_known
  set_known-model Key.id k v sd sd' e = ground arith
  set_known-model key k v sd sd' e = ground arith

  read_field-model :
      (p : Text) (sd sd' : SensorData) → read_field p sd ≡ ok sd' → sd'.model ≡ sd.model
  unfolding read_field
  read_field-model p sd sd' e = elim (Bool-cases (is_empty (trim_space p))) [
    | inl skipped ↦ ground arith
    | inr filled ↦ elim (Option-cases (cut b'=' (trim_space p))) [
      | inl bare ↦ absurd (ground arith)
      | inr ((k, v), pair) ↦
          let kv = key_value (k, v) in
          ground (arith, set_known-model (key_of kv.0) kv.0 kv.1 sd sd')
    ]
  ]

  read_fields-model :
      (ps : List Text) (sd sd' : SensorData) → read_fields ps sd ≡ ok sd' → sd'.model ≡ sd.model
  unfolding read_fields
  read_fields-model [] sd sd' e = ground arith
  read_fields-model (p ∷ ps) sd sd' e =
      let (mid, first, later) = accepts_first (read_fields ps) (read_field p sd) e in
      read_fields-model ps mid sd' later ∙ read_field-model p sd mid first

  require_id-ok :
      (sd sd' : SensorData) → require_id sd ≡ ok sd' → (sd ≡ sd') × (is_empty sd'.id ≡ false)
  unfolding require_id
  require_id-ok sd sd' e = ground arith

  read_pieces_sound :
      (now : ℕ) (ps : List Text) (sd : SensorData)
      → read_pieces now ps ≡ ok sd
      → (a : Text) × (b : Text) × (model : Text) × (fields : List Text) × (seen : List
          (Text × Text))
        × (ps ≡ a ∷ b ∷ model ∷ fields)
        × (collect fields [] ≡ some seen)
        × Describes seen sd
        × (is_empty sd.id ≡ false)
        × (sd.model ≡ (blank model now).model)
  unfolding read_pieces
  read_pieces_sound now [] sd e = cc
  read_pieces_sound now (a ∷ []) sd e = cc
  read_pieces_sound now (a ∷ b ∷ []) sd e = cc
  read_pieces_sound now (a ∷ b ∷ model ∷ fields) sd e =
      let (mid, read, later) = accepts_first require_id (read_fields fields (blank model now)) e in
      let (same, given) = require_id-ok mid sd later in
      let (seen, c, d) = read_fields-Describes fields [] _ mid read (blank-Describes model now) in
      (
        a,
        b,
        model,
        fields,
        seen,
        refl,
        c,
        subst (Describes seen) same d,
        given,
        sym (ap (λ (r : SensorData). r.model) same) ∙ read_fields-model fields _ mid read,
      )

  -- A message that `SensorDataFromMessage` accepts has at least three parts, each later part is
  -- blank or has a `=`, and the record carries the last value given for each key: the id, which is
  -- not empty, the HWID made of model and id in upper case, the temperature from base 16, the
  -- humidity from base 10, and the texts.
  pub sensor_data_from_message_sound :
      (now : ℕ) (raw : Text) (sd : SensorData)
      → sensor_data_from_message now raw ≡ ok sd
      → (a : Text) × (b : Text) × (model : Text) × (fields : List Text) × (seen : List
          (Text × Text))
        × (split b';' (trim_space raw) ≡ a ∷ b ∷ model ∷ fields)
        × (collect fields [] ≡ some seen)
        × Describes seen sd
        × (is_empty sd.id ≡ false)
        × (sd.model ≡ (blank model now).model)
  unfolding sensor_data_from_message
  sensor_data_from_message_sound now raw sd e =
      read_pieces_sound now (split b';' (trim_space raw)) sd (ground arith)
