-- ===== src/App.antt =====
-- rflink/app.go: commands from MQTT, HTTP and webhooks on their way to the serial port.
pub mod Commands
pub mod Rate
pub mod Feed
pub mod Loop
pub mod Incoming
use go_rflink.Prelude.{
  ℕ, ◌+◌, ◌%◌, ◌^◌, Bool, true, false, not, Option, none, some, List, [], ◌∷◌, ◌++◌, if◌then◌else◌,
}
use go_rflink.Prelude.Text.{Text}
use go_rflink.Command.{CommandError, Result, ok, err, normalize_command, command_allowed}
use go_rflink.RateLimit.{Bucket, allow_command, command_rate_status}
use go_rflink.Serial.{Reader, WriteResult, written, empty_payload, not_connected, failed, write}

pub record Settings : Type 0 where
  pub command_max_len : ℕ
  pub command_whitelist : List Text
  pub command_rate_limit : ℕ

pub data Status : Type 0 where
  rejected rate_limited serial_down error sent : Status

-- The `Error` text of a result: of the normalizer, of the reader, or empty.
pub data Reason : Type 0 where
  no_reason : Reason
  invalid : CommandError → Reason
  write_error : WriteResult → Reason

-- `CmdResult`; the status texts are the constructors, "ok" being `sent`.
pub record CmdResult : Type 0 where
  pub command : Text
  pub status : Status
  pub reason : Reason
  pub received_at : ℕ
  pub rate_limit_remaining : ℕ
  pub rate_limit_per_sec : ℕ

-- The parts of `App` and of its publisher that a command touches; `results` are those handed to
-- `PublishCmdResult`, oldest first.
pub record App : Type 0 where
  pub bucket : Bucket
  pub serial : Reader
  pub commands_rejected : ℕ
  pub commands_limited : ℕ
  pub results : List CmdResult

abbrev pub inc64 : ℕ → ℕ
inc64 n = (n + 1) % 2 ^ 64

plain : Text → Status → Reason → ℕ → CmdResult
plain command status reason now = record {
  command = command;
  status = status;
  reason = reason;
  received_at = now;
  rate_limit_remaining = 0;
  rate_limit_per_sec = 0;
}

-- `PublishCmdResult` and `return res`.
publish : CmdResult → App → CmdResult × App
publish res a = (res, record a { results = a.results ++ res ∷ [] })

-- A result that reports the rate limit, read by `CommandRateStatus` at `later`.
publish_rated : Settings → Text → Status → ℕ → ℕ → App → CmdResult × App
unfolding plain publish
publish_rated c cmd status now later a =
    let ((limit, remaining, _), bucket) = command_rate_status c.command_rate_limit later a.bucket in
    publish
      (record (plain cmd status no_reason now) {
        rate_limit_remaining = remaining;
        rate_limit_per_sec = limit;
      })
      (record a { bucket = bucket })

-- The result for what `Write` returned.
finish : Settings → Text → ℕ → ℕ → WriteResult → App → CmdResult × App
unfolding publish_rated
finish c cmd now later written a = publish_rated c cmd sent now later a
finish c cmd now later not_connected a =
    publish (plain cmd serial_down (write_error not_connected) now) a
finish c cmd now later empty_payload a = publish (plain cmd error (write_error empty_payload) now) a
finish c cmd now later failed a = publish (plain cmd error (write_error failed) now) a

-- The part of `ExecuteCommand` behind the whitelist.
unfoldable pub send : Settings → ℕ → ℕ → Bool → Text → App → CmdResult × App
unfolding publish_rated finish
send c now later accepted cmd a =
    let (allowed, bucket) = allow_command c.command_rate_limit now a.bucket in
    let a' : App = record a { bucket = bucket } in
    if not allowed
    then publish_rated c cmd rate_limited now later
        (record a' { commands_limited = inc64 a'.commands_limited })
    else (let (result, serial) = write accepted cmd a'.serial in
        finish c cmd now later result (record a' { serial = serial }))

reject : Text → Reason → ℕ → App → CmdResult × App
unfolding plain publish
reject command reason now a =
    publish (plain command rejected reason now)
      (record a { commands_rejected = inc64 a.commands_rejected })

-- `ExecuteCommand` at time `now`, its last clock reading at `later`; `accepted` is whether the port
-- takes the write.
unfoldable pub execute_command : Settings → ℕ → ℕ → Bool → Text → App → CmdResult × App
unfolding reject
execute_command c now later accepted payload a =
    elim (normalize_command c.command_max_len payload) [
      | err e ↦ reject payload (invalid e) now a
      | ok cmd ↦
          if not (command_allowed c.command_whitelist cmd)
          then reject cmd no_reason now a
          else send c now later accepted cmd a
    ]
