-- ===== src/Sensor/Fields.antt =====
-- `FieldsForPublish` of rflink/sensor_data.go: the subtopics and payloads of one message. The source
-- prints the float32 of a temperature, or of its Fahrenheit value, with one decimal: that is the
-- nearest tenth, which is computed here in whole numbers.
use go_rflink.Prelude.{
  ℕ, ◌+◌, ◌*◌, ◌/◌, ◌^◌, ◌<◌, ◌≡◌, refl, sym, ◌∙◌, inl, inr, false, not, ◌&&◌, ◌||◌, Option, none,
  some, List, [], ◌∷◌, ◌++◌, if◌then◌else◌, arith, Bool-cases,
}
use go_rflink.Prelude.Text.{Text, codes, text_eq, text_eq_iff, text_eq_refl, is_empty}
use go_rflink.Prelude.Maps.{lookup, insert, lookup-insert}
use go_rflink.Strings.{Unicode, trim_space, to_upper}
use go_rflink.Strings.Numbers.{parse_uint16}
use go_rflink.Sensor.Decimal.{decimal, tenths, parse_uint16-decimal}
use go_rflink.Sensor.{SensorData, field_topic_name, strip_event_fields}

-- Tenths of a degree Fahrenheit, to the nearest: 1.8 t + 320.
abbrev pub fahrenheit : ℕ → ℕ
fahrenheit t = (18 * t + 3205) / 10

abbrev pub Fields : Type 0
Fields = List (Text × Text)

-- `if value != "" { fields[key] = value }`
abbrev pub put_filled : Text → Text → Fields → Fields
put_filled key value fields = if is_empty value then fields else insert key value fields

abbrev pub put_number : Text → (ℕ → Text) → Option ℕ → Fields → Fields
put_number key print none fields = fields
put_number key print (some n) fields = insert key (print n) fields

module _ ⦃u : Unicode⦄ where
  put_temp : Text → SensorData → Fields → Fields
  put_temp temp_unit sd fields =
      if text_eq (to_upper temp_unit) (codes "RAW")
      then put_filled (codes "temp") sd.temp_raw fields
      else if text_eq (to_upper temp_unit) (codes "F")
      then put_number (codes "temp") (λ t. tenths (fahrenheit t)) sd.temperature fields
      else put_number (codes "temp") tenths sd.temperature fields

  -- A button of a remote has a channel of its own; a lone switch or command has its field.
  put_event : SensorData → Fields → Fields
  put_event sd fields =
      if not (is_empty sd.switch) && not (is_empty sd.cmd)
      then insert (codes "sw_" ++ field_topic_name sd.switch) (to_upper (trim_space sd.cmd)) fields
      else put_filled (codes "cmd") sd.cmd (put_filled (codes "switch") sd.switch fields)

  put_extra : Fields → Fields → Fields
  put_extra [] fields = fields
  put_extra ((key, value) ∷ m) fields = put_extra m (put_filled key value fields)

  -- The fields above the event.
  abbrev measured : Text → SensorData → Fields
  measured temp_unit sd =
      put_filled (codes "bat") sd.bat
        (put_number (codes "hum") decimal sd.humidity (put_temp temp_unit sd []))

  unfoldable pub fields_for_publish : Text → SensorData → Fields
  unfolding put_temp put_event put_extra
  fields_for_publish temp_unit sd = put_extra sd.extra (put_event sd (measured temp_unit sd))

  lookup-put_extra :
      (k : Text) (extra fields : Fields)
      → lookup k extra ≡ none
      → lookup k (put_extra extra fields) ≡ lookup k fields
  unfolding put_extra
  lookup-put_extra k [] fields h = refl
  lookup-put_extra k ((key, value) ∷ m) fields h = ground (
    arith,
    lookup-put_extra k m (put_filled key value fields),
    lookup-insert key k value fields,
    text_eq_iff key k,
  )

  lookup-put_filled :
      (key k value : Text) (fields : Fields)
      → lookup k (put_filled key value fields)
        ≡ (if text_eq key k && not (is_empty value) then some value else lookup k fields)
  lookup-put_filled key k value fields = ground (arith, lookup-insert key k value fields)

  lookup-put_number :
      (key k : Text) (print : ℕ → Text) (n : Option ℕ) (fields : Fields)
      → text_eq key k ≡ false
      → lookup k (put_number key print n fields) ≡ lookup k fields
  lookup-put_number key k print none fields h = refl
  lookup-put_number key k print (some n) fields h = rw lookup-insert (rw h)

  lookup-put_temp :
      (k temp_unit : Text) (sd : SensorData) (fields : Fields)
      → text_eq (codes "temp") k ≡ false
      → lookup k (put_temp temp_unit sd fields) ≡ lookup k fields
  unfolding put_temp
  lookup-put_temp k temp_unit sd fields h = ground (
    arith,
    lookup-put_filled (codes "temp") k sd.temp_raw fields,
    lookup-put_number (codes "temp") k tenths sd.temperature fields h,
    lookup-put_number (codes "temp") k (λ t. tenths (fahrenheit t)) sd.temperature fields h,
  )

  lookup-put_event :
      (k : Text) (sd : SensorData) (fields : Fields)
      → text_eq (codes "sw_" ++ field_topic_name sd.switch) k ≡ false
      → text_eq (codes "cmd") k ≡ false
      → text_eq (codes "switch") k ≡ false
      → lookup k (put_event sd fields) ≡ lookup k fields
  unfolding put_event
  lookup-put_event k sd fields h hc hs = ground (
    arith,
    lookup-insert (codes "sw_" ++ field_topic_name sd.switch) k (to_upper (trim_space sd.cmd))
        fields,
    lookup-put_filled (codes "cmd") k sd.cmd (put_filled (codes "switch") sd.switch fields),
    lookup-put_filled (codes "switch") k sd.switch fields,
  )

  lookup-measured :
      (k temp_unit : Text) (sd : SensorData)
      → text_eq (codes "bat") k ≡ false
      → text_eq (codes "hum") k ≡ false
      → text_eq (codes "temp") k ≡ false
      → lookup k (measured temp_unit sd) ≡ none
  lookup-measured k temp_unit sd hb hh ht =
      lookup-put_filled (codes "bat") k sd.bat
        (put_number (codes "hum") decimal sd.humidity (put_temp temp_unit sd []))
      ∙ rw hb (
          lookup-put_number (codes "hum") k decimal sd.humidity (put_temp temp_unit sd []) hh
          ∙ lookup-put_temp k temp_unit sd [] ht)

  -- The humidity of a message is published under `hum` as a payload that parses back to it,
  -- whatever the other fields are, when no unknown field takes the subtopic.
  pub fields_for_publish-hum :
      (temp_unit : Text) (sd : SensorData) (h : ℕ)
      → lookup (codes "hum") sd.extra ≡ none
      → sd.humidity ≡ some h
      → h < 2 ^ 16
      → (payload : Text) × (lookup (codes "hum") (fields_for_publish temp_unit sd) ≡ some payload)
        × (parse_uint16 payload 10 ≡ some h)
  unfolding fields_for_publish
  fields_for_publish-hum temp_unit sd h clear e bound = (
    decimal h,
    lookup-put_extra (codes "hum") sd.extra (put_event sd (measured temp_unit sd)) clear
        ∙ lookup-put_event (codes "hum") sd (measured temp_unit sd) refl refl refl
        ∙ lookup-put_filled (codes "bat") (codes "hum") sd.bat
            (put_number (codes "hum") decimal sd.humidity (put_temp temp_unit sd []))
        ∙ rw (e, lookup-insert) refl,
    parse_uint16-decimal h bound,
  )

  -- When a message without unknown fields has a switch and a command, the command is published in
  -- capitals under the subtopic of the switch, and neither `switch` nor `cmd` is published.
  pub fields_for_publish-channel :
      (temp_unit : Text) (sd : SensorData)
      → is_empty sd.switch ≡ false
      → is_empty sd.cmd ≡ false
      → sd.extra ≡ []
      → (lookup (codes "sw_" ++ field_topic_name sd.switch) (fields_for_publish temp_unit sd)
          ≡ some (to_upper (trim_space sd.cmd)))
        × (lookup (codes "switch") (fields_for_publish temp_unit sd) ≡ none)
        × (lookup (codes "cmd") (fields_for_publish temp_unit sd) ≡ none)
  unfolding fields_for_publish put_event put_extra
  fields_for_publish-channel temp_unit sd hs hc he =
      let channel = codes "sw_" ++ field_topic_name sd.switch in
      let payload = to_upper (trim_space sd.cmd) in
      let fields = measured temp_unit sd in
      rw (he, hs, hc)
        (
          lookup-insert channel channel payload fields ∙ rw text_eq_refl refl,
          lookup-insert channel (codes "switch") payload fields
              ∙ lookup-measured (codes "switch") temp_unit sd refl refl refl,
          lookup-insert channel (codes "cmd") payload fields
              ∙ lookup-measured (codes "cmd") temp_unit sd refl refl refl,
        )

  lookup-put_extra_same :
      (k : Text) (extra f g : Fields)
      → lookup k f ≡ lookup k g
      → lookup k (put_extra extra f) ≡ lookup k (put_extra extra g)
  unfolding put_extra
  lookup-put_extra_same k [] f g h = h
  lookup-put_extra_same k ((key, value) ∷ m) f g h =
      lookup-put_extra_same k m (put_filled key value f) (put_filled key value g)
        (lookup-put_filled key k value f ∙ rw h (sym (lookup-put_filled key k value g)))

  -- Of a stripped message neither `cmd` nor `switch` is published when no unknown field takes the
  -- subtopic, and every subtopic that is not `cmd`, `switch` or the channel of the button has the
  -- payload that the message itself gives it.
  pub fields_for_publish-strip_event_fields :
      (k temp_unit : Text) (sd : SensorData)
      → text_eq (codes "sw_" ++ field_topic_name sd.switch) k ≡ false
      → lookup (codes "cmd") sd.extra ≡ none
      → lookup (codes "switch") sd.extra ≡ none
      → lookup k (fields_for_publish temp_unit (strip_event_fields sd)) ≡ (
          if text_eq (codes "cmd") k || text_eq (codes "switch") k
          then none
          else lookup k (fields_for_publish temp_unit sd))
  unfolding fields_for_publish strip_event_fields put_event
  fields_for_publish-strip_event_fields k temp_unit sd hk hc hs =
      elim (Bool-cases (text_eq (codes "cmd") k)) [
        | inl e ↦
            let same : codes "cmd" ≡ k = (text_eq_iff (codes "cmd") k).0 e in
            rw (e, sym same)
              (lookup-put_extra (codes "cmd") sd.extra (measured temp_unit sd) hc
                ∙ lookup-measured (codes "cmd") temp_unit sd refl refl refl)
        | inr nc ↦ elim (Bool-cases (text_eq (codes "switch") k)) [
          | inl e ↦
              let same : codes "switch" ≡ k = (text_eq_iff (codes "switch") k).0 e in
              rw (nc, e, sym same)
                (lookup-put_extra (codes "switch") sd.extra (measured temp_unit sd) hs
                  ∙ lookup-measured (codes "switch") temp_unit sd refl refl refl)
          | inr ns ↦
              rw (nc, ns)
                (lookup-put_extra_same k sd.extra (measured temp_unit sd)
                  (put_event sd (measured temp_unit sd))
                  (sym (lookup-put_event k sd (measured temp_unit sd) hk nc ns)))
        ]
      ]
