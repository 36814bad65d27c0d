-- ===== src/Options/Settings.antt =====
-- `GetOptions` of rflink/options.go behind the reading of the environment: the checks and defaults
-- of the numeric settings, the command topic and the temperature unit, and the parsed lists.
use go_rflink.Prelude.{ℕ, zero, suc, not, ◌||◌, Option, none, some, List, ◌++◌, ltb, if◌then◌else◌}
use go_rflink.Prelude.Text.{Text, codes, text_eq, is_empty}
use go_rflink.Strings.{Unicode, trim_space, to_upper}
use go_rflink.Options.{
  HaActuatorButton, HaActuatorSwitch, validate_cmd_topic, parse_colon_map, parse_command_whitelist,
  parse_ignore_list, parse_ha_buttons, parse_ha_switches,
}

-- An `int` setting: `negsuc n` is -(n + 1).
pub data ℤ : Type 0 where
  pos : ℕ → ℤ
  negsuc : ℕ → ℤ

-- `if x <= 0 { x = d }`, and `if x < 0 { x = d }`.
abbrev pub default_unless_positive : ℕ → ℤ → ℕ
default_unless_positive d (pos zero) = d
default_unless_positive d (pos (suc n)) = suc n
default_unless_positive d (negsuc n) = d

abbrev pub default_if_negative : ℕ → ℤ → ℕ
default_if_negative d (pos n) = n
default_if_negative d (negsuc n) = d

-- The maximal delay, raised to the minimal one.
abbrev pub raise_to : ℕ → ℤ → ℕ
raise_to lo (pos n) = if ltb n lo then lo else n
raise_to lo (negsuc n) = lo

-- `if q < 0 || q > 2 { return error }`
abbrev pub qos_level : ℤ → Option ℕ
qos_level (pos n) = if ltb 2 n then none else some n
qos_level (negsuc n) = none

-- What the environment gives: the numbers and texts that `GetOptions` treats.
pub record Environment : Type 0 where
  pub topic : Text
  pub cmd_topic : Text
  pub qos : ℤ
  pub lwt_qos : ℤ
  pub keep_alive : ℤ
  pub session_expiry : ℤ
  pub baud : ℤ
  pub read_timeout_sec : ℤ
  pub reconnect_min_delay_sec : ℤ
  pub reconnect_max_delay_sec : ℤ
  pub connect_retry_interval : ℤ
  pub pending_ttl_sec : ℤ
  pub command_rate_limit : ℤ
  pub dedup_window_ms : ℤ
  pub ping_interval_sec : ℤ
  pub ping_timeout_sec : ℤ
  pub ping_fail_threshold : ℤ
  pub temperature_unit : Text
  pub friendly_names : Text
  pub hwid_map : Text
  pub command_whitelist : Text
  pub ignore_list : Text
  pub ha_buttons : Text
  pub ha_switches : Text
  pub command_max_len : ℤ
  pub raw_buffer_size : ℤ
  pub sensor_buffer_size : ℤ

-- The same settings when they are checked; no number is negative any more.
pub record Options : Type 0 where
  pub topic : Text
  pub cmd_topic : Text
  pub qos : ℕ
  pub lwt_qos : ℕ
  pub keep_alive : ℕ
  pub session_expiry : ℕ
  pub baud : ℕ
  pub read_timeout_sec : ℕ
  pub reconnect_min_delay_sec : ℕ
  pub reconnect_max_delay_sec : ℕ
  pub connect_retry_interval : ℕ
  pub pending_ttl_sec : ℕ
  pub command_rate_limit : ℕ
  pub dedup_window_ms : ℕ
  pub ping_interval_sec : ℕ
  pub ping_timeout_sec : ℕ
  pub ping_fail_threshold : ℕ
  pub temperature_unit : Text
  pub friendly_name_map : List (Text × Text)
  pub hwid_map : List (Text × Text)
  pub command_whitelist : List Text
  pub ignore_set : List Text
  pub ha_buttons : List HaActuatorButton
  pub ha_switches : List HaActuatorSwitch
  pub command_max_len : ℕ
  pub raw_buffer_size : ℕ
  pub sensor_buffer_size : ℕ

module _ ⦃u : Unicode⦄ where
  -- The `switch unit`.
  abbrev pub temperature_unit_of : Text → Option Text
  temperature_unit_of raw =
      let name = to_upper (trim_space raw) in
      if text_eq name (codes "C") || text_eq name (codes "F") || text_eq name (codes "RAW")
      then some name
      else if is_empty name
      then some (codes "C")
      else none

  -- The options, when the three checks that can fail have passed.
  abbrev pub options_of : Environment → Text → ℕ → ℕ → Text → Options
  options_of e cmd_topic qos lwt_qos temperature_unit =
      let reconnect_min = default_unless_positive 3 e.reconnect_min_delay_sec in
      record {
        topic = e.topic;
        cmd_topic = cmd_topic;
        qos = qos;
        lwt_qos = lwt_qos;
        keep_alive = default_unless_positive 30 e.keep_alive;
        session_expiry = default_if_negative 0 e.session_expiry;
        baud = default_unless_positive 57600 e.baud;
        read_timeout_sec = default_unless_positive 10 e.read_timeout_sec;
        reconnect_min_delay_sec = reconnect_min;
        reconnect_max_delay_sec = raise_to reconnect_min e.reconnect_max_delay_sec;
        connect_retry_interval = default_unless_positive 5 e.connect_retry_interval;
        pending_ttl_sec = default_if_negative 0 e.pending_ttl_sec;
        command_rate_limit = default_if_negative 0 e.command_rate_limit;
        dedup_window_ms = default_if_negative 0 e.dedup_window_ms;
        ping_interval_sec = default_if_negative 0 e.ping_interval_sec;
        ping_timeout_sec = default_if_negative 5 e.ping_timeout_sec;
        ping_fail_threshold = default_if_negative 3 e.ping_fail_threshold;
        temperature_unit = temperature_unit;
        friendly_name_map = parse_colon_map e.friendly_names;
        hwid_map = parse_colon_map e.hwid_map;
        command_whitelist = parse_command_whitelist e.command_whitelist;
        ignore_set = parse_ignore_list e.ignore_list;
        ha_buttons = parse_ha_buttons e.ha_buttons;
        ha_switches = parse_ha_switches e.ha_switches;
        command_max_len = default_unless_positive 256 e.command_max_len;
        raw_buffer_size = default_unless_positive 100 e.raw_buffer_size;
        sensor_buffer_size = default_unless_positive 50 e.sensor_buffer_size;
      }

  abbrev pub cmd_topic_of : Environment → Text
  cmd_topic_of e = if is_empty e.cmd_topic then e.topic ++ codes "/send" else e.cmd_topic

  -- none is an error.
  unfoldable pub get_options : Environment → Option Options
  unfolding validate_cmd_topic parse_colon_map parse_command_whitelist parse_ignore_list
      parse_ha_buttons parse_ha_switches
  get_options e =
      if not (validate_cmd_topic e.topic (cmd_topic_of e)) then none else (elim (qos_level e.qos) [
        | none ↦ none
        | some qos ↦ elim (qos_level e.lwt_qos) [
          | none ↦ none
          | some lwt_qos ↦ elim (temperature_unit_of e.temperature_unit) [
            | none ↦ none
            | some name ↦ some (options_of e (cmd_topic_of e) qos lwt_qos name)
          ]
        ]
      ])
