-- ===== src/Publisher/Serve.antt =====
-- The publish loop of rflink/publisher.go: `handleSerialMessage` and the events that
-- `runPublishLoopInner` selects from.
pub mod History
use go_rflink.Prelude.{
  ℕ, ◌+◌, ◌*◌, Bool, true, false, Option, none, some, List, [], ◌∷◌, ◌++◌, ltb, if◌then◌else◌,
}
use go_rflink.Prelude.Text.{Text, codes}
use go_rflink.Strings.{Unicode}
use go_rflink.Sensor.{ok, err, sensor_data_from_message}
use go_rflink.Sensor.Gateway.{GatewayInfo, parse_gateway_message}
use go_rflink.Publisher.Ring.{append_line}
use go_rflink.Publisher.Ping.{Config, note_pong, check_ping_timeout}
use go_rflink.Publisher.Dedup.{Dedup, dedup_window, is_duplicate}
use go_rflink.Publisher.Health.{Publisher, HealthSnapshot, snapshot, note_serial_activity}
use go_rflink.Publisher.Broker.{Broker, Wire, Publication, gateway, health, publish_raw}
use go_rflink.Publisher.Sensors.{Settings, Core, publish_sensor}

-- The settings of the loop.
pub record LoopSettings : Type 0 where
  pub settings : Settings
  pub raw_cap : ℕ
  pub dedup_window_ms : ℕ
  pub watchdog_sec : ℕ
  pub ping : Config

-- `rawLineEntry`
pub record RawLineEntry : Type 0 where
  pub at : ℕ
  pub message : Text

pub record State : Type 0 where
  pub core : Core
  pub dedup : Dedup
  pub raw_lines : List RawLineEntry

abbrev pub with_publisher : Publisher → Core → Core
with_publisher p s = record s { publisher = p }

-- `NotePong`
abbrev pub pong_noted : ℕ → Core → Core
pong_noted now s =
    let p = s.publisher in with_publisher (record p { ping = note_pong now p.ping }) s

module _ ⦃u : Unicode⦄ (accepts : Broker) (c : LoopSettings) where
  gateway_publication : GatewayInfo → Publication
  gateway_publication info = record {
    topic = c.settings.options.topic ++ codes "/gateway/info";
    payload = gateway info;
    retain = true;
  }

  -- `PublishGatewayInfo`
  unfoldable pub publish_gateway_info : GatewayInfo → Core → Core
  unfolding gateway_publication publish_raw
  publish_gateway_info info s = record s {
    wire = (publish_raw accepts (gateway_publication info) s.wire).1;
  }

  -- The part of `handleSerialMessage` for a message that is no duplicate.
  unfoldable pub handle_new : ℕ → ℕ → Text → Core → Core
  unfolding publish_gateway_info publish_sensor parse_gateway_message sensor_data_from_message
      note_pong
  handle_new now later msg s = elim (parse_gateway_message now msg) [
    | some info ↦ publish_gateway_info info (if info.pong then pong_noted now s else s)
    | none ↦ elim (sensor_data_from_message now msg) [
      | err e ↦ s
      | ok sd ↦ (publish_sensor accepts c.settings now later sd s).1
    ]
  ]

  unfoldable pub handle_serial_message : ℕ → ℕ → Text → State → State
  unfolding handle_new append_line is_duplicate
  handle_serial_message now later msg s =
      let entry : RawLineEntry = record { at = now; message = msg } in
      let (duplicate, dedup) = is_duplicate (dedup_window c.dedup_window_ms) now msg s.dedup in
      record {
        raw_lines = append_line c.raw_cap entry s.raw_lines;
        dedup = dedup;
        core = if duplicate then s.core else handle_new now later msg s.core;
      }

  health_publication : HealthSnapshot → Publication
  health_publication snap = record {
    topic = c.settings.options.topic ++ codes "/health";
    payload = health snap;
    retain = true;
  }

  -- `reportHealth`
  unfoldable pub report_health : ℕ → Core → Core
  unfolding health_publication publish_raw snapshot
  report_health now s =
      let snap = snapshot c.watchdog_sec now s.publisher in
      record s { wire = (publish_raw accepts (health_publication snap) s.wire).1 }

  -- `checkPingTimeout`
  unfoldable pub ping_checked : ℕ → Core → Core
  unfolding check_ping_timeout
  ping_checked now s =
      let p = s.publisher in
      with_publisher (record p { ping = check_ping_timeout c.ping now p.ping }) s

-- What the `select` of the loop takes. The watchdog only logs; a message comes with the time of a
-- clock reading for what is stored of it.
pub data Event : Type 0 where
  health_tick watchdog_tick ping_tick : ℕ → Event
  line : ℕ → ℕ → Text → Event

module _ ⦃u : Unicode⦄ (accepts : Broker) (c : LoopSettings) where
  unfoldable pub serve : Event → State → State
  unfolding handle_serial_message report_health ping_checked
  serve (health_tick now) s = record s { core = report_health accepts c now s.core }
  serve (watchdog_tick now) s = record s { core = ping_checked accepts c now s.core }
  serve (ping_tick now) s = record s { core = ping_checked accepts c now s.core }
  serve (line now later msg) s =
      let noted = with_publisher (note_serial_activity now s.core.publisher) s.core in
      handle_serial_message accepts c now later msg (record s { core = noted })

  unfoldable pub serve_all : List Event → State → State
  unfolding serve
  serve_all [] s = s
  serve_all (e ∷ es) s = serve_all es (serve e s)
