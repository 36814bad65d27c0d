-- ===== src/Tests/Settings.antt =====
-- Settings, the buffer of pending sensors, and health.
use go_rflink.Prelude.{◌≡◌, ◌⊎◌, refl, true, false, none, some, [], ◌∷◌}
use go_rflink.Prelude.Text.{Text, codes}
use go_rflink.Strings.{Unicode, trim_space, trim_suffix, split, cut}
use go_rflink.Sensor.{SensorData, blank}
use go_rflink.Options.{split_csv, parse_colon_map, canonical_hwid}
use go_rflink.Options.Settings.{pos, negsuc, Environment, Options, options_of, get_options}
use go_rflink.Options.Sound.{IsSound, get_options-IsSound}
use go_rflink.Prelude.{ℕ, ◌<◌}
use go_rflink.Options.{sensor_ignored, parse_ignore_list}
use go_rflink.Publisher.Broker.{Broker}
use go_rflink.Publisher.Discovery.{Naming, unique_id_of, entity_publication}
use go_rflink.Publisher.Sensors.{Settings, Core, is_ignored, prepared, publish_sensor}
use go_rflink.Publisher.Sensors.Outcome.{announced, IsPublished, IsKeptBack, publish_sensor_lem}
use go_rflink.Publisher.Discovery.Retries.{refused_times, announced_times, announced_times_lem}
use go_rflink.Sensor.Fields.{fields_for_publish}
use go_rflink.Publisher.Ping.{initial}
use go_rflink.Publisher.Pending.{Pending}
use go_rflink.Publisher.Health.{Publisher}

abbrev pub ascii_only : Unicode
ascii_only = record {
  upper = λ c. c;
  lower = λ c. c;
  fold = λ c. c;
  is_letter = λ c. false;
  is_digit = λ c. false;
}

abbrev buttons : Text
buttons = codes "Bell:10;KAKU;1;ON;, Gate:10;KAKU;2;ON"

abbrev switches : Text
switches = codes "Lamp:10;KAKU;1;ON;:10;KAKU;1;OFF;"

abbrev hwids : Text
hwids = codes "2A01:LIVING_TEMP,BBQ_1234:GARDEN"

abbrev names : Text
names = codes "LIVING_TEMP:Living Room"

abbrev environment : Environment
environment = record {
  topic = codes "rflink";
  cmd_topic = [];
  qos = pos 1;
  lwt_qos = pos 0;
  keep_alive = negsuc 4;
  session_expiry = pos 0;
  baud = pos 57600;
  read_timeout_sec = pos 10;
  reconnect_min_delay_sec = pos 3;
  reconnect_max_delay_sec = pos 2;
  connect_retry_interval = pos 5;
  pending_ttl_sec = pos 60;
  command_rate_limit = pos 5;
  dedup_window_ms = pos 3000;
  ping_interval_sec = pos 60;
  ping_timeout_sec = pos 5;
  ping_fail_threshold = pos 3;
  temperature_unit = codes "f";
  friendly_names = names;
  hwid_map = hwids;
  command_whitelist = codes "10;,11;";
  ignore_list = codes "Keeloq";
  ha_buttons = buttons;
  ha_switches = switches;
  command_max_len = pos 0;
  raw_buffer_size = pos 100;
  sensor_buffer_size = pos 50;
}

abbrev checked_options : Options
checked_options = options_of ⦃u = ascii_only⦄ environment (codes "rflink/send") 1 0 (codes "F")

environment-checked : get_options ⦃u = ascii_only⦄ environment ≡ some checked_options
unfolding get_options trim_suffix trim_space
environment-checked = refl

get_options-IsSound_example : IsSound ⦃u = ascii_only⦄ checked_options
get_options-IsSound_example =
    get_options-IsSound ⦃u = ascii_only⦄ environment checked_options environment-checked

abbrev reading : SensorData
reading = record (blank (codes "Oregon") 7) {
  id = codes "2D";
  hwid = codes "OREGON_2D";
  humidity = some 40;
  cmd = codes "ON";
}

abbrev held_back : Pending
held_back = record {
  held =
      (codes "A_1", record { sd = blank (codes "A") 1; stored_at = 5 })
      ∷ (codes "B_1", record { sd = blank (codes "B") 1; stored_at = 90 })
      ∷ [];
  dropped = 0;
}

abbrev pub publisher : Publisher
publisher = record {
  counters = record {
    published = 4;
    publish_failed = 0;
    pending_flushed = 0;
    serial_dropped = 0;
    dedup_dropped = 0;
    panics = 0;
    commands_rejected = 0;
    commands_limited = 0;
  };
  pending = held_back;
  sensor_seen = [];
  last_sensor_at = none;
  last_sensor_hwid = [];
  last_serial_at = some 3;
  started_at = 1;
  mqtt_up = true;
  serial_up = true;
  ping = initial;
}

abbrev pub settings : Settings
settings = record {
  options = checked_options;
  retain = true;
  home_assistant_discovery = true;
  ha_discovery_prefix = codes "homeassistant";
  sample_cap = 50;
}

abbrev pub core : Core
core = record { publisher = publisher; wire = []; discovered = []; samples = [] }

abbrev pub refuses : Broker
refuses w p = false

reading-wanted : is_ignored ⦃u = ascii_only⦄ settings reading ≡ false
unfolding sensor_ignored canonical_hwid parse_colon_map parse_ignore_list split_csv trim_space split
    cut
reading-wanted = refl

publish_sensor_lem_example :
    let sd' = prepared ⦃u = ascii_only⦄ settings reading in
    let fields = fields_for_publish ⦃u = ascii_only⦄ settings.options.temperature_unit sd' in
    let s0 = announced ⦃u = ascii_only⦄ refuses settings 8 sd' fields core in
    let (taken, s') = publish_sensor ⦃u = ascii_only⦄ refuses settings 8 9 reading core in
    ((s0.publisher.pending ≡ core.publisher.pending)
      × (s0.publisher.counters ≡ core.publisher.counters)
      × (s0.samples ≡ core.samples))
    × (((taken ≡ true) × IsPublished ⦃u = ascii_only⦄ refuses settings sd' fields s0 s')
        ⊎ ((taken ≡ false) × IsKeptBack ⦃u = ascii_only⦄ refuses settings 9 sd' fields s0 s'))
publish_sensor_lem_example =
    publish_sensor_lem ⦃u = ascii_only⦄ refuses settings 8 9 reading core reading-wanted

abbrev naming : Naming
naming = record {
  topic = codes "rflink";
  ha_discovery_prefix = codes "homeassistant";
  temperature_unit = codes "C";
}

announced_times_lem_example :
    let p = entity_publication ⦃u = ascii_only⦄ naming reading (codes "hum") in
    (announced_times ⦃u = ascii_only⦄ refuses naming reading (codes "hum") 2 ([], [])
      ≡ ([], refused_times 2 p []))
    ⊎ ((k : ℕ) × (k < 2)
        × (refuses (refused_times k p []) p ≡ true)
        × (announced_times ⦃u = ascii_only⦄ refuses naming reading (codes "hum") 2 ([], []) ≡ (
          unique_id_of ⦃u = ascii_only⦄ reading (codes "hum") ∷ [],
          (p, true) ∷ refused_times k p [],
        )))
announced_times_lem_example =
    announced_times_lem ⦃u = ascii_only⦄ refuses naming reading (codes "hum") 2 [] [] refl
