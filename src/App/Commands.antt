-- ===== src/App/Commands.antt =====
-- What `ExecuteCommand` of rflink/app.go lets reach the serial port, and how often.
use go_rflink.Prelude.{
  ℕ, ◌≡◌, ◌≢◌, ◌⊎◌, inl, inr, Bool, true, false, Option, none, some, [], ◌∷◌, ◌++◌, if◌then◌else◌,
  arith, Bool-cases, Option-cases,
}
use go_rflink.Prelude.Text.{Text, codes}
use go_rflink.Command.{ok, err, normalize_command, command_allowed, wire}
use go_rflink.Command.Normal.{wire-normalize_command}
use go_rflink.RateLimit.{allow_command}
use go_rflink.Serial.{Reader, written, failed, not_connected, write}
use go_rflink.App.{
  App, Settings, rejected, rate_limited, serial_down, error, sent, inc64, send, execute_command,
}

-- Every command gets one result, which is published and returned.
pub execute_command-results :
    (c : Settings) (now later : ℕ) (accepted : Bool) (payload : Text) (a : App)
    → let (res, a') = execute_command c now later accepted payload a in
      a'.results ≡ a.results ++ res ∷ []
unfolding execute_command send
execute_command-results c now later accepted payload a = ground arith

-- The command that a payload stands for, if it normalizes and the whitelist has it.
abbrev pub admissible : Settings → Text → Option Text
admissible c payload = elim (normalize_command c.command_max_len payload) [
  | ok cmd ↦ if command_allowed c.command_whitelist cmd then some cmd else none
  | err e ↦ none
]

send-status :
    (c : Settings) (now later : ℕ) (accepted : Bool) (cmd : Text) (a : App)
    → ((send c now later accepted cmd a).0.status ≢ rejected)
      × ((send c now later accepted cmd a).1.commands_rejected ≡ a.commands_rejected)
unfolding send
send-status c now later accepted cmd a = (λ e. ground arith, ground arith)

-- A payload that does not normalize, or to a command which the whitelist does not have, is
-- rejected and counted, uses up no token, and leaves the serial port as it is.
pub execute_command_inadmissible :
    (c : Settings) (now later : ℕ) (accepted : Bool) (payload : Text) (a : App)
    → admissible c payload ≡ none
    → let (res, a') = execute_command c now later accepted payload a in
      (res.status ≡ rejected)
      × (a'.bucket ≡ a.bucket)
      × (a'.serial ≡ a.serial)
      × (a'.commands_rejected ≡ inc64 a.commands_rejected)
      × (a'.commands_limited ≡ a.commands_limited)
unfolding execute_command
execute_command_inadmissible c now later accepted payload a h = ground arith

pub execute_command-admissible :
    (c : Settings) (now later : ℕ) (accepted : Bool) (payload cmd : Text) (a : App)
    → admissible c payload ≡ some cmd
    → execute_command c now later accepted payload a ≡ send c now later accepted cmd a
unfolding execute_command
execute_command-admissible c now later accepted payload cmd a h = ground arith

admissible-wire :
    (c : Settings) (payload cmd : Text)
    → admissible c payload ≡ some cmd
    → wire cmd ≡ some (cmd ++ codes "\r\n")
admissible-wire c payload cmd h =
    (wire-normalize_command c.command_max_len payload cmd (ground arith)).0

-- What `Write` does with a command of the grammar.
write_lem :
    (accepted : Bool) (cmd : Text) (r : Reader)
    → wire cmd ≡ some (cmd ++ codes "\r\n")
    → ((r.port ≡ none) × (write accepted cmd r ≡ (not_connected, r)))
      ⊎ ((r.port ≢ none)
          × (write accepted cmd r ≡ (
            (if accepted then written else failed),
            record r { sent = r.sent ++ (cmd ++ codes "\r\n") ∷ [] },
          )))
unfolding write
write_lem accepted cmd r h = elim (Option-cases r.port) [
  | inl none_ ↦ inl (none_, rw (h, write, none_))
  | inr (p, open_) ↦ inr (ground arith, rw (h, write, open_))
]

send_limited :
    (c : Settings) (now later : ℕ) (accepted : Bool) (cmd : Text) (a : App)
    → (allow_command c.command_rate_limit now a.bucket).0 ≡ false
    → let (res, a') = send c now later accepted cmd a in
      (res.status ≡ rate_limited)
      × (a'.serial ≡ a.serial)
      × (a'.commands_limited ≡ inc64 a.commands_limited)
unfolding send
send_limited c now later accepted cmd a h = ground arith

send_down :
    (c : Settings) (now later : ℕ) (accepted : Bool) (cmd : Text) (a : App)
    → (allow_command c.command_rate_limit now a.bucket).0 ≡ true
    → write accepted cmd a.serial ≡ (not_connected, a.serial)
    → let (res, a') = send c now later accepted cmd a in
      (res.status ≡ serial_down) × (a'.serial ≡ a.serial)
unfolding send
send_down c now later accepted cmd a h e = ground arith

send_open :
    (c : Settings) (now later : ℕ) (accepted : Bool) (cmd : Text) (a : App) (r : Reader)
    → (allow_command c.command_rate_limit now a.bucket).0 ≡ true
    → write accepted cmd a.serial ≡ ((if accepted then written else failed), r)
    → let (res, a') = send c now later accepted cmd a in
      (res.status ≡ (if accepted then sent else error)) × (a'.serial ≡ r)
unfolding send
send_open c now later accepted cmd a r h e = ground arith

-- A payload that normalizes to a command which the whitelist has is refused by the rate limit and
-- counted, or finds no port, or is written: then exactly one line, the command and its line end,
-- is handed to the port, and the status says whether the port took it.
pub execute_command_lem :
    (c : Settings) (now later : ℕ) (accepted : Bool) (payload cmd : Text) (a : App)
    → admissible c payload ≡ some cmd
    → let (res, a') = execute_command c now later accepted payload a in
      let allowed = (allow_command c.command_rate_limit now a.bucket).0 in
      ((allowed ≡ false)
        × (res.status ≡ rate_limited)
        × (a'.serial ≡ a.serial)
        × (a'.commands_limited ≡ inc64 a.commands_limited))
      ⊎ ((allowed ≡ true)
          × (a.serial.port ≡ none)
          × (res.status ≡ serial_down)
          × (a'.serial ≡ a.serial))
      ⊎ ((allowed ≡ true)
          × (a.serial.port ≢ none)
          × (res.status ≡ (if accepted then sent else error))
          × (a'.serial ≡ record a.serial { sent = a.serial.sent ++ (cmd ++ codes "\r\n") ∷ [] }))
execute_command_lem c now later accepted payload cmd a h =
    rw (execute_command-admissible c now later accepted payload cmd a h)
      (elim (Bool-cases (allow_command c.command_rate_limit now a.bucket).0) [
        | inl yes_ ↦ elim (write_lem accepted cmd a.serial (admissible-wire c payload cmd h)) [
          | inl (down, e) ↦
              let (status, same) = send_down c now later accepted cmd a yes_ e in
              inr (inl (yes_, down, status, same))
          | inr (up, e) ↦
              let (status, serial) = send_open c now later accepted cmd a _ yes_ e in
              inr (inr (yes_, up, status, serial))
        ]
        | inr no_ ↦
            let (status, same, counted) = send_limited c now later accepted cmd a no_ in
            inl (no_, status, same, counted)
      ])
