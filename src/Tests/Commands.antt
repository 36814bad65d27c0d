-- ===== src/Tests/Commands.antt =====
-- Commands for the gateway: `10;NEWKAKU;0cac142;3;ON;` and its neighbours.
use go_rflink.Prelude.{
  inr, ◌+◌, ◌-◌, ◌*◌, ◌≤◌, ◌≡◌, ◌≢◌, refl, ◌⊎◌, true, false, none, some, [], List, ◌∷◌, ◌++◌,
  if◌then◌else◌, arith,
}
use go_rflink.Prelude.Text.{Text, codes}
use go_rflink.Strings.{trim_space, join}
use go_rflink.Strings.Split.{Lacks}
use go_rflink.Command.{ok, validate_rflink_command, normalize_command, command_allowed, wire}
use go_rflink.Command.Grammar.{
  IsCommand, validate_rflink_command_sound, validate_rflink_command_complete,
}
use go_rflink.Command.Normal.{wire-normalize_command}
use go_rflink.RateLimit.{token, full, allow_command}
use go_rflink.App.{
  App, Settings, rejected, rate_limited, serial_down, error, sent, inc64, execute_command,
}
use go_rflink.App.Commands.{admissible, execute_command_inadmissible, execute_command_lem}
use go_rflink.App.Rate.{Call, execute_commands, lines, execute_commands_rate}

abbrev kaku : Text
kaku = codes "10;KAKU;1;ON;"

kaku-IsCommand : IsCommand kaku
unfolding join
kaku-IsCommand = record {
  node = codes "10";
  field = codes "KAKU";
  fields = codes "1" ∷ codes "ON" ∷ [];
  shape = refl;
  node_digits = (inr refl, ground arith);
  fields_good = ground arith;
}

kaku-validate : validate_rflink_command kaku ≡ none
kaku-validate = validate_rflink_command_complete kaku kaku-IsCommand

kaku-normal : normalize_command 128 (codes " 10;KAKU;1;ON\n") ≡ ok kaku
unfolding normalize_command validate_rflink_command
kaku-normal = refl

validate_rflink_command_sound_example : IsCommand (trim_space kaku)
validate_rflink_command_sound_example = validate_rflink_command_sound kaku kaku-validate

validate_rflink_command_complete_example : validate_rflink_command kaku ≡ none
validate_rflink_command_complete_example = validate_rflink_command_complete kaku kaku-IsCommand

wire-normalize_command_example :
    (wire kaku ≡ some (kaku ++ codes "\r\n")) × Lacks b'\r' kaku × Lacks b'\n' kaku
wire-normalize_command_example =
    wire-normalize_command 128 (codes " 10;KAKU;1;ON\n") kaku kaku-normal

abbrev pub settings : Settings
settings = record {
  command_max_len = 0;
  command_whitelist = codes "10;" ∷ [];
  command_rate_limit = 2;
}

abbrev pub app : App
app = record {
  bucket = full 2 0;
  serial = record { port = some 7; handles = 7 ∷ []; sent = [] };
  commands_rejected = 0;
  commands_limited = 0;
  results = [];
}

kaku-admissible : admissible settings (codes "10;KAKU;1;ON") ≡ some kaku
unfolding normalize_command validate_rflink_command command_allowed
kaku-admissible = refl

bell-admissible : admissible settings (codes "11;BELL;") ≡ none
unfolding normalize_command validate_rflink_command command_allowed
bell-admissible = refl

execute_command_inadmissible_example :
    let (res, a') = execute_command settings 5 6 true (codes "11;BELL;") app in
    (res.status ≡ rejected)
    × (a'.bucket ≡ app.bucket)
    × (a'.serial ≡ app.serial)
    × (a'.commands_rejected ≡ inc64 app.commands_rejected)
    × (a'.commands_limited ≡ app.commands_limited)
execute_command_inadmissible_example =
    execute_command_inadmissible settings 5 6 true (codes "11;BELL;") app bell-admissible

execute_command_lem_example :
    let (res, a') = execute_command settings 5 6 true (codes "10;KAKU;1;ON") app in
    let allowed = (allow_command settings.command_rate_limit 5 app.bucket).0 in
    ((allowed ≡ false)
      × (res.status ≡ rate_limited)
      × (a'.serial ≡ app.serial)
      × (a'.commands_limited ≡ inc64 app.commands_limited))
    ⊎ ((allowed ≡ true)
        × (app.serial.port ≡ none)
        × (res.status ≡ serial_down)
        × (a'.serial ≡ app.serial))
    ⊎ ((allowed ≡ true)
        × (app.serial.port ≢ none)
        × (res.status ≡ (if true then sent else error))
        × (a'.serial ≡ record app.serial { sent = app.serial.sent ++ (kaku ++ codes "\r\n") ∷ [] }))
execute_command_lem_example =
    execute_command_lem settings 5 6 true (codes "10;KAKU;1;ON") kaku app kaku-admissible

abbrev pub calls : List Call
calls =
    record { now = 5; later = 6; accepted = true; payload = kaku }
    ∷ record { now = 6; later = 9; accepted = true; payload = codes "10;PING;" }
    ∷ record { now = 9; later = 9; accepted = false; payload = kaku }
    ∷ []

execute_commands_rate_example :
    lines (execute_commands settings calls app) * token
    ≤ lines app * token + (2 * token + (10 - 0) * 2)
execute_commands_rate_example =
    execute_commands_rate settings 10 calls app (ground arith) (ground arith) (ground arith)
