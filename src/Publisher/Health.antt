-- ===== src/Publisher/Health.antt =====
-- The health of the bridge as rflink/publisher.go reports it: `snapshot`, the serial watchdog, and
-- the notes that both read. Times are nanoseconds; none stands for a time that was never noted.
use go_rflink.Prelude.{
  ℕ, ◌+◌, ◌-◌, ◌*◌, ◌/◌, ◌≤◌, ◌≡◌, ◌≢◌, ◌↔◌, Bool, true, false, ◌&&◌, Option, none, some, List, ltb,
  ◌==◌, if◌then◌else◌, length, arith,
}
use go_rflink.Prelude.Text.{Text, is_empty}
use go_rflink.Prelude.Maps.{insert}
use go_rflink.Publisher.Ping.{PingState, second}
use go_rflink.Publisher.Pending.{Pending}

pub record Counters : Type 0 where
  pub published : ℕ
  pub publish_failed : ℕ
  pub pending_flushed : ℕ
  pub serial_dropped : ℕ
  pub dedup_dropped : ℕ
  pub panics : ℕ
  pub commands_rejected : ℕ
  pub commands_limited : ℕ

-- The fields of `Publisher` that health is made of.
pub record Publisher : Type 0 where
  pub counters : Counters
  pub pending : Pending
  pub sensor_seen : List (Text × ℕ)
  pub last_sensor_at : Option ℕ
  pub last_sensor_hwid : Text
  pub last_serial_at : Option ℕ
  pub started_at : ℕ
  pub mqtt_up : Bool
  pub serial_up : Bool
  pub ping : PingState

-- `HealthSnapshot` without the version texts; the status is whether the broker is connected.
pub record HealthSnapshot : Type 0 where
  pub started_at : ℕ
  pub status : Bool
  pub counters : Counters
  pub pending_dropped : ℕ
  pub pending_buffered : ℕ
  pub last_sensor_at : Option ℕ
  pub last_sensor_hwid : Text
  pub last_serial_at : Option ℕ
  pub serial_stale : Bool
  pub serial_connected : Bool
  pub rflink_unresponsive : Bool
  pub last_pong_at : Option ℕ
  pub ping_fails : ℕ
  pub uptime_sec : ℕ
  pub mqtt_connected : Bool
  pub sensors_last_seen : List (Text × ℕ)

-- `serialWatchdog`, for a setting of 0 or above.
abbrev pub serial_watchdog : ℕ → ℕ
serial_watchdog sec = sec * second

serial_stale : ℕ → ℕ → ℕ → Option ℕ → Bool
serial_stale wd now started_at none = ltb 0 wd && ltb wd (now - started_at)
serial_stale wd now started_at (some t) = ltb 0 wd && ltb wd (now - t)

unfoldable pub snapshot : ℕ → ℕ → Publisher → HealthSnapshot
unfolding serial_stale
snapshot watchdog_sec now p = record {
  started_at = p.started_at;
  status = p.mqtt_up;
  counters = p.counters;
  pending_dropped = p.pending.dropped;
  pending_buffered = length p.pending.held;
  last_sensor_at = p.last_sensor_at;
  last_sensor_hwid = p.last_sensor_hwid;
  last_serial_at = p.last_serial_at;
  serial_stale = serial_stale (serial_watchdog watchdog_sec) now p.started_at p.last_serial_at;
  serial_connected = p.serial_up;
  rflink_unresponsive = p.ping.unresponsive;
  last_pong_at = p.ping.last_pong_at;
  ping_fails = p.ping.fails;
  uptime_sec = (now - p.started_at) / second;
  mqtt_connected = p.mqtt_up;
  sensors_last_seen = p.sensor_seen;
}

-- The warning that `checkSerialWatchdog` logs.
pub data Warning : Type 0 where
  quiet no_data_since_start no_data : Warning

unfoldable pub check_serial_watchdog : ℕ → ℕ → Publisher → Warning
check_serial_watchdog watchdog_sec now p =
    let wd = serial_watchdog watchdog_sec in
    if wd == 0 then quiet else (elim p.last_serial_at [
      | none ↦ if ltb wd (now - p.started_at) then no_data_since_start else quiet
      | some t ↦ if ltb wd (now - t) then no_data else quiet
    ])

abbrev pub note_serial_activity : ℕ → Publisher → Publisher
note_serial_activity now p = record p { last_serial_at = some now }

-- `SetSerialConnected`, with the status text that it publishes as whether it is "online".
unfoldable pub set_serial_connected : ℕ → Bool → Publisher → Bool × Publisher
set_serial_connected now connected p =
    let p' : Publisher = record p { serial_up = connected } in
    (connected, if connected then note_serial_activity now p' else p')

unfoldable pub note_sensor_seen : Text → ℕ → Publisher → Publisher
note_sensor_seen hwid t p =
    if is_empty hwid then p else record p { sensor_seen = insert hwid t p.sensor_seen }

-- The serial watchdog warns exactly when the health snapshot taken at the same time says that the
-- serial data is stale.
pub check_serial_watchdog-snapshot :
    (watchdog_sec now : ℕ) (p : Publisher)
    → (check_serial_watchdog watchdog_sec now p ≢ quiet)
      ↔ ((snapshot watchdog_sec now p).serial_stale ≡ true)
unfolding check_serial_watchdog snapshot
check_serial_watchdog-snapshot watchdog_sec now p = (λ h. ground arith, λ h. ground arith)

-- A change of the serial connection shows in the snapshot, and a port just connected is not stale
-- until the watchdog has passed.
pub snapshot-set_serial_connected :
    (watchdog_sec now later : ℕ) (connected : Bool) (p : Publisher)
    → later ≤ now + serial_watchdog watchdog_sec
    → let s = snapshot watchdog_sec later (set_serial_connected now connected p).1 in
      (s.serial_connected ≡ connected) × ((connected && s.serial_stale) ≡ false)
unfolding set_serial_connected snapshot
snapshot-set_serial_connected watchdog_sec now later connected p h = ground arith
