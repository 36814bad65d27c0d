-- ===== src/Publisher/Sensors.antt =====
-- `PublishSensor` of rflink/publisher.go: one message of a sensor on its way to the broker. Fields
-- are published in the order of the list; the source takes them in the order of a Go map. The
-- callback for live views, which is told of a published message last of all, is left out.
pub mod Outcome
use go_rflink.Prelude.{
  ℕ, ◌+◌, ◌*◌, ◌%◌, ◌^◌, ◌≡◌, ◌⊎◌, ap, ◌∙◌, inl, inr, Bool, true, false, not, ◌||◌, none, some,
  List, [], ◌∷◌, ◌++◌, if◌then◌else◌, arith,
}
use go_rflink.Prelude.Text.{Text, codes, text_eq, text_eq_refl, is_empty, has_prefix}
use go_rflink.Prelude.Maps.{lookup, lookup-delete}
use go_rflink.Strings.{Unicode}
use go_rflink.Options.{canonical_hwid, friendly_name_for, sensor_ignored}
use go_rflink.Options.Settings.{Options}
use go_rflink.Sensor.{SensorData, topic_id}
use go_rflink.Sensor.Fields.{Fields, fields_for_publish}
use go_rflink.Publisher.Topics.{sensor_field_topic}
use go_rflink.Publisher.Ring.{append_line}
use go_rflink.Publisher.Ping.{second}
use go_rflink.Publisher.Pending.{
  Pending, PendingSensor, store_pending, clear_pending, flush_pending,
}
use go_rflink.Publisher.Health.{Counters, Publisher, note_sensor_seen}
use go_rflink.Publisher.Broker.{Broker, Wire, Publication, text, sensor, publish_raw}
use go_rflink.Publisher.Discovery.{Naming, publish_home_assistant_discovery}

-- The settings that a message meets.
pub record Settings : Type 0 where
  pub options : Options
  pub retain : Bool
  pub home_assistant_discovery : Bool
  pub ha_discovery_prefix : Text
  pub sample_cap : ℕ

-- `sensorSample`
pub record SensorSample : Type 0 where
  pub at : ℕ
  pub hwid : Text
  pub model : Text
  pub id : Text
  pub name : Text
  pub fields : Fields

pub record Core : Type 0 where
  pub publisher : Publisher
  pub wire : Wire
  pub discovered : List Text
  pub samples : List SensorSample

abbrev pub is_event : Text → Bool
is_event field =
    text_eq field (codes "cmd") || text_eq field (codes "switch") || has_prefix field (codes "sw_")

abbrev with_pending : Pending → Publisher → Publisher
with_pending pending p = record p { pending = pending }

abbrev inc64 : ℕ → ℕ
inc64 n = (n + 1) % 2 ^ 64

-- The lines at an error of the broker.
unfoldable pub not_published : Settings → ℕ → SensorData → Wire → Core → Bool × Core
not_published c now sd w s =
    let p = s.publisher in
    let counters : Counters = record (p.counters) {
      publish_failed = inc64 p.counters.publish_failed;
    } in
    let p' : Publisher = record p {
      counters = counters;
      pending = store_pending (c.options.pending_ttl_sec * second) now sd p.pending;
    } in
    (false, record s { publisher = p'; wire = w })

unfoldable pub is_published : Settings → ℕ → SensorData → Fields → Wire → Core → Bool × Core
is_published c now sd fields w s =
    let p = s.publisher in
    let counters : Counters = record (p.counters) { published = inc64 p.counters.published } in
    let p' : Publisher = record p {
      counters = counters;
      pending = clear_pending (topic_id sd) p.pending;
    } in
    let sample : SensorSample = record {
      at = now;
      hwid = topic_id sd;
      model = sd.model;
      id = sd.id;
      name = sd.friendly_name;
      fields = fields;
    } in
    (
      true,
      record s { publisher = p'; wire = w; samples = append_line c.sample_cap sample s.samples },
    )

module _ ⦃u : Unicode⦄ where
  -- `applyFriendlyName`
  unfoldable pub apply_friendly_name : List (Text × Text) → SensorData → SensorData
  apply_friendly_name names sd =
      if not (is_empty sd.friendly_name)
      then sd
      else (let name = friendly_name_for names (topic_id sd) in
          record sd {
            friendly_name =
                if not (is_empty name) then name else codes "goRFLink_" ++ sd.model ++ b' ' ∷ sd.id;
          })

  abbrev pub field_publication : Settings → SensorData → Text → Text → Publication
  field_publication c sd field value = record {
    topic = sensor_field_topic c.options.topic (topic_id sd) field;
    payload = text value;
    retain = if is_event field then false else c.retain;
  }

  abbrev pub sum_publication : Settings → SensorData → Publication
  sum_publication c sd = record {
    topic = sensor_field_topic c.options.topic (topic_id sd) (codes "sumJson");
    payload = sensor sd;
    retain = c.retain;
  }

  -- The loop over the fields, which ends at the first that the broker refuses.
  unfoldable pub publish_fields : Broker → Settings → SensorData → Fields → Wire → Bool × Wire
  unfolding publish_raw
  publish_fields accepts c sd [] w = (true, w)
  publish_fields accepts c sd ((field, value) ∷ m) w =
      let (taken, w') = publish_raw accepts (field_publication c sd field value) w in
      let rest = publish_fields accepts c sd m w' in if taken then rest else (false, w')

  -- From the loop over the fields on; `later` is read by what is stored.
  unfoldable pub publish_message : Broker → Settings → ℕ → SensorData → Fields → Core → Bool × Core
  unfolding publish_raw publish_fields not_published is_published
  publish_message accepts c later sd fields s =
      let (taken, w) = publish_fields accepts c sd fields s.wire in
      let (sum_taken, w') = publish_raw accepts (sum_publication c sd) w in
      if not taken
      then not_published c later sd w s
      else if not sum_taken
      then not_published c later sd w' s
      else is_published c later sd fields w' s

  -- `lastSensorAt`, `lastSensorHWID` and `noteSensorSeen`
  unfoldable pub noted : ℕ → SensorData → Core → Core
  unfolding note_sensor_seen
  noted now sd s =
      let p : Publisher = record (s.publisher) {
        last_sensor_at = some now;
        last_sensor_hwid = topic_id sd;
      } in
      record s { publisher = note_sensor_seen (topic_id sd) now p }

  unfoldable pub announce : Broker → Settings → SensorData → Fields → Core → Core
  announce accepts c sd fields s =
      let naming : Naming = record {
        topic = c.options.topic;
        ha_discovery_prefix = c.ha_discovery_prefix;
        temperature_unit = c.options.temperature_unit;
      } in
      let (discovered, w) =
        publish_home_assistant_discovery accepts naming sd fields (s.discovered, s.wire) in
      if c.home_assistant_discovery then record s { discovered = discovered; wire = w } else s

  -- The message as it is published: under its canonical HWID and with its name.
  abbrev pub prepared : Settings → SensorData → SensorData
  prepared c sd =
      apply_friendly_name c.options.friendly_name_map
        (record sd { hwid = canonical_hwid c.options.hwid_map sd.id sd.hwid })

  abbrev pub is_ignored : Settings → SensorData → Bool
  is_ignored c sd =
      let hwid = canonical_hwid c.options.hwid_map sd.id sd.hwid in
      sensor_ignored c.options.ignore_set sd.model hwid
      || sensor_ignored c.options.ignore_set sd.model sd.id

  -- `PublishSensor` with a client; true is the nil error.
  unfoldable pub publish_sensor : Broker → Settings → ℕ → ℕ → SensorData → Core → Bool × Core
  unfolding publish_message noted announce apply_friendly_name
  publish_sensor accepts c now later sd s =
      if is_ignored c sd
      then (true, s)
      else (let sd' = prepared c sd in
          let fields = fields_for_publish c.options.temperature_unit sd' in
          publish_message accepts c later sd' fields
            (announce accepts c sd' fields (noted now sd' s)))

  -- The second loop of `flushPending`, over the items taken out of the buffer.
  unfoldable pub publish_items : Broker → Settings → ℕ → ℕ → List PendingSensor → Core → Core
  unfolding publish_sensor
  publish_items accepts c now later [] s = s
  publish_items accepts c now later (item ∷ items) s =
      let (taken, s') = publish_sensor accepts c now later item.sd s in
      publish_items accepts c now later items (if taken then flushed s' else s')
    where
      flushed : Core → Core
      flushed s' =
          let p = s'.publisher in
          let counters : Counters = record (p.counters) {
            pending_flushed = inc64 p.counters.pending_flushed;
          } in
          record s' { publisher = record p { counters = counters } }

  -- The whole of `flushPending`.
  unfoldable pub flush : Broker → Settings → ℕ → ℕ → Core → Core
  unfolding publish_items flush_pending
  flush accepts c now later s =
      let ttl = c.options.pending_ttl_sec * second in
      let (items, pending) = flush_pending ttl now s.publisher.pending in
      publish_items accepts c now later items
        (record s { publisher = record (s.publisher) { pending = pending } })
