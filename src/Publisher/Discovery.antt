-- ===== src/Publisher/Discovery.antt =====
-- The discovery of entities in rflink/home_assistant.go: which entity a field stands for, and its
-- announcement until the broker has taken it.
pub mod Retries
use go_rflink.Prelude.{
  ◌≡◌, ◌⊎◌, refl, inl, inr, Bool, true, false, ◌&&◌, ◌||◌, none, some, List, [], ◌∷◌, ◌++◌,
  if◌then◌else◌, Bool-cases,
}
use go_rflink.Prelude.Text.{Text, codes, text_eq, text_eq_refl, is_empty, has_prefix}
use go_rflink.Strings.{Unicode, to_upper}
use go_rflink.Options.{mem}
use go_rflink.Sensor.{SensorData, topic_id}
use go_rflink.Sensor.Fields.{Fields}
use go_rflink.Publisher.Topics.{sanitize_topic_segment, sensor_field_topic}
use go_rflink.Publisher.Broker.{
  HaEntitySpec, HaDiscoveryPayload, Publication, entity, Wire, Broker, publish_raw,
}

-- The settings that discovery reads.
pub record Naming : Type 0 where
  pub topic : Text
  pub ha_discovery_prefix : Text
  pub temperature_unit : Text

plain_spec : Text → Text → Text → HaEntitySpec
plain_spec component suffix name = record {
  component = component;
  object_suffix = suffix;
  name_suffix = name;
  device_class = [];
  unit = [];
  state_class = [];
  payload_on = [];
  payload_off = [];
  off_delay = none;
}

measured_spec : Text → Text → Text → Text → HaEntitySpec
unfolding plain_spec
measured_spec suffix name class unit = record (plain_spec (codes "sensor") suffix name) {
  device_class = class;
  unit = unit;
  state_class = codes "measurement";
}

module _ ⦃u : Unicode⦄ where
  -- The name of a field without a specification: its first letter in upper case. The source cuts
  -- the first byte off, which is the first letter of a field that starts in ASCII.
  capitalized : Text → Text
  capitalized [] = []
  capitalized (c ∷ field) = to_upper (c ∷ []) ++ field

  -- `resolveHAEntitySpec`, with the table `haEntitySpecs` above it.
  unfoldable pub resolve_ha_entity_spec : Text → HaEntitySpec
  unfolding plain_spec measured_spec capitalized
  resolve_ha_entity_spec field =
      if text_eq field (codes "temp")
      then measured_spec field (codes "Temperature") (codes "temperature") (codes "°C")
      else if text_eq field (codes "hum")
      then measured_spec field (codes "Humidity") (codes "humidity") (codes "%")
      else if text_eq field (codes "bat")
      then record (plain_spec (codes "binary_sensor") field (codes "Battery")) {
        device_class = codes "battery";
        payload_on = codes "LOW";
        payload_off = codes "OK";
      }
      else if text_eq field (codes "switch")
      then plain_spec (codes "sensor") field (codes "Switch ID")
      else if text_eq field (codes "cmd")
      then plain_spec (codes "sensor") field (codes "Command")
      else if has_prefix field (codes "sw_")
      then record (plain_spec (codes "binary_sensor") field
          (codes "Button " ++ to_upper (drop_3 field))) {
            payload_on = codes "ON";
            payload_off = codes "OFF";
            off_delay = some 1;
          }
      else plain_spec (codes "sensor") field (capitalized field)
    where
      drop_3 : Text → Text
      drop_3 (a ∷ b ∷ c ∷ rest) = rest
      drop_3 _ = []

  abbrev pub unique_id_of : SensorData → Text → Text
  unique_id_of sd field =
      codes "gorflink_"
      ++ sanitize_topic_segment sd.hwid
      ++ b'_' ∷ sanitize_topic_segment (resolve_ha_entity_spec field).object_suffix

  -- The payload of `publishHomeAssistantEntity`.
  entity_payload : Naming → SensorData → Text → HaDiscoveryPayload
  entity_payload c sd field =
      let spec = resolve_ha_entity_spec field in
      let safe = sanitize_topic_segment sd.hwid in
      let is_temp = text_eq field (codes "temp") in
      let raw = text_eq c.temperature_unit (codes "RAW") in
      let by_unit = λ (t : Text). if is_temp && raw then [] else t in
      record {
        name = spec.name_suffix;
        object_id = safe ++ b'_' ∷ sanitize_topic_segment spec.object_suffix;
        unique_id = unique_id_of sd field;
        state_topic = sensor_field_topic c.topic (topic_id sd) field;
        device_class = by_unit spec.device_class;
        unit =
            if is_temp && text_eq c.temperature_unit (codes "F")
            then codes "°F"
            else by_unit spec.unit;
        state_class = by_unit spec.state_class;
        payload_on = spec.payload_on;
        payload_off = spec.payload_off;
        off_delay = spec.off_delay;
        availability_topic = c.topic ++ codes "/serial/status";
        json_attributes_topic = sensor_field_topic c.topic (topic_id sd) (codes "sumJson");
        identifier = codes "gorflink_" ++ safe;
        device_name =
            if is_empty sd.friendly_name
            then codes "goRFLink_" ++ sd.model ++ b' ' ∷ sd.id
            else sd.friendly_name;
        model = sd.model;
      }

  abbrev pub entity_publication : Naming → SensorData → Text → Publication
  unfolding entity_payload
  entity_publication c sd field = record {
    topic =
        c.ha_discovery_prefix
        ++ b'/'
          ∷ ((resolve_ha_entity_spec field).component
              ++ b'/' ∷ (unique_id_of sd field ++ codes "/config"));
    payload = entity (entity_payload c sd field);
    retain = true;
  }

  -- `publishHomeAssistantEntity` on the set `discovered` and the wire. The id is stored before the
  -- broker is asked and deleted when it refuses; the set is seen here when that is done.
  unfoldable pub publish_entity :
      Broker → Naming → SensorData → Text → List Text × Wire → List Text × Wire
  unfolding publish_raw entity_publication
  publish_entity accepts c sd field (discovered, w) =
      if mem (unique_id_of sd field) discovered
      then (discovered, w)
      else (let (taken, w') = publish_raw accepts (entity_publication c sd field) w in
          ((if taken then unique_id_of sd field ∷ discovered else discovered), w'))

  abbrev pub has_switch_button_fields : Fields → Bool
  has_switch_button_fields [] = false
  has_switch_button_fields ((k, v) ∷ m) = has_prefix k (codes "sw_") || has_switch_button_fields m

  -- The loop of `publishHomeAssistantDiscovery`; `buttons` is its second test, of all the fields.
  unfoldable pub discover_fields :
      Broker → Naming → SensorData → Bool → Fields → List Text × Wire → List Text × Wire
  unfolding publish_entity
  discover_fields accepts c sd buttons [] s = s
  discover_fields accepts c sd buttons ((field, value) ∷ m) s =
      let skip =
        is_empty value
        || ((text_eq field (codes "switch") || text_eq field (codes "cmd")) && buttons) in
      discover_fields accepts c sd buttons m
        (if skip then s else publish_entity accepts c sd field s)

  abbrev pub publish_home_assistant_discovery :
      Broker → Naming → SensorData → Fields → List Text × Wire → List Text × Wire
  publish_home_assistant_discovery accepts c sd fields =
      discover_fields accepts c sd (has_switch_button_fields fields) fields

  pub publish_entity_known :
      (accepts : Broker) (c : Naming) (sd : SensorData) (field : Text) (discovered : List Text)
      (w : Wire)
      → mem (unique_id_of sd field) discovered ≡ true
      → publish_entity accepts c sd field (discovered, w) ≡ (discovered, w)
  unfolding publish_entity
  publish_entity_known accepts c sd field discovered w known = rw known refl

  pub publish_entity_new :
      (accepts : Broker) (c : Naming) (sd : SensorData) (field : Text) (discovered : List Text)
      (w : Wire) (taken : Bool)
      → mem (unique_id_of sd field) discovered ≡ false
      → accepts w (entity_publication c sd field) ≡ taken
      → publish_entity accepts c sd field (discovered, w) ≡ (
        (if taken then unique_id_of sd field ∷ discovered else discovered),
        (entity_publication c sd field, taken) ∷ w,
      )
  unfolding publish_entity publish_raw
  publish_entity_new accepts c sd field discovered w taken new answer = rw (new, answer) refl
