-- ===== src/App/Rate.antt =====
-- How often `ExecuteCommand` of rflink/app.go lets a line reach the serial port.
use go_rflink.Prelude.{
  ℕ, ◌+◌, ◌-◌, ◌*◌, ◌≤◌, ◌≡◌, ◌≢◌, ◌⊎◌, inl, inr, Bool, true, false, List, [], ◌∷◌, if◌then◌else◌,
  length, length-append, arith, Option-cases,
}
use go_rflink.Prelude.Text.{Text}
use go_rflink.Command.{wire}
use go_rflink.RateLimit.{token, allow_command, command_rate_status}
use go_rflink.RateLimit.Bound.{asks, reads, react, react-pays, spans}
use go_rflink.Serial.{Reader, write}
use go_rflink.App.{App, Settings, send, execute_command}
use go_rflink.App.Commands.{admissible, execute_command_inadmissible, execute_command-admissible}

-- The lines handed to the port so far.
abbrev pub lines : App → ℕ
lines a = length a.serial.sent

write-lines :
    (accepted : Bool) (cmd : Text) (r : Reader)
    → length (write accepted cmd r).1.sent ≤ length r.sent + 1
unfolding write
write-lines accepted cmd r = elim (Option-cases (wire cmd)) [
  | inl nothing ↦ ground arith
  | inr (payload, e) ↦ ground (arith, length-append r.sent (payload ∷ []))
]

send-lines :
    (c : Settings) (now later : ℕ) (accepted : Bool) (cmd : Text) (a : App)
    → lines (send c now later accepted cmd a).1
      ≤ lines a + (if (allow_command c.command_rate_limit now a.bucket).0 then 1 else 0)
unfolding send
send-lines c now later accepted cmd a = ground (arith, write-lines accepted cmd a.serial)

send-bucket :
    (c : Settings) (now later : ℕ) (accepted : Bool) (cmd : Text) (a : App)
    → let b = (allow_command c.command_rate_limit now a.bucket).1 in
      ((send c now later accepted cmd a).1.bucket ≡ b)
      ⊎ ((send c now later accepted cmd a).1.bucket
          ≡ (command_rate_status c.command_rate_limit later b).1)
unfolding send
send-bucket c now later accepted cmd a = ground arith

-- What a command uses up and what time brings in, with the bucket's last fill as the clock.
abbrev Pays : ℕ → App → ℕ → App → Type 0
Pays limit a later a' =
    (a.bucket.last_fill ≤ a'.bucket.last_fill)
    × (a'.bucket.last_fill ≤ later)
    × (a'.bucket.tokens + lines a' * token
        ≤ a.bucket.tokens + lines a * token + (a'.bucket.last_fill - a.bucket.last_fill) * limit)

-- The arithmetic of one command: at most one line, paid for by one token.
one_line :
    (t l l' n gain : ℕ) (allowed : Bool)
    → t + (if allowed then token else 0) ≤ n + gain
    → l' ≤ l + (if allowed then 1 else 0)
    → t + l' * token ≤ n + l * token + gain
one_line t l l' n gain true h g = omega arith
one_line t l l' n gain false h g = omega arith

send-Pays :
    (c : Settings) (now later : ℕ) (accepted : Bool) (cmd : Text) (a : App)
    → c.command_rate_limit ≢ 0
    → a.bucket.last_fill ≤ now
    → now ≤ later
    → Pays c.command_rate_limit a later (send c now later accepted cmd a).1
unfolding react
send-Pays c now later accepted cmd a h t t' =
    let limit = c.command_rate_limit in
    let b = (allow_command limit now a.bucket).1 in
    let a' = (send c now later accepted cmd a).1 in
    let (filled, paid) = react-pays limit now asks a.bucket h in
    let (read_at, read) = react-pays limit later reads b h in
    let line =
      one_line b.tokens (lines a) (lines a') a.bucket.tokens ((now - a.bucket.last_fill) * limit)
        (allow_command limit now a.bucket).0 paid (send-lines c now later accepted cmd a) in
    let whole = spans a.bucket.last_fill now later limit t t' in
    elim (send-bucket c now later accepted cmd a) [
      | inl e ↦ rw (e, filled) (t, t', line)
      | inr e ↦
          rw (e, read_at) (omega arith, omega arith, omega (arith, line, whole, rw filled at read))
    ]

-- The whole of `ExecuteCommand`: an inadmissible command leaves bucket and wire alone.
execute_command-Pays :
    (c : Settings) (now later : ℕ) (accepted : Bool) (payload : Text) (a : App)
    → c.command_rate_limit ≢ 0
    → a.bucket.last_fill ≤ now
    → now ≤ later
    → Pays c.command_rate_limit a later (execute_command c now later accepted payload a).1
execute_command-Pays c now later accepted payload a h t t' =
    elim (Option-cases (admissible c payload)) [
      | inl none_ ↦
          let (_, bucket, serial, _, _) =
            execute_command_inadmissible c now later accepted payload a none_ in
          rw (bucket, serial) (omega arith, omega arith, omega arith)
      | inr (cmd, e) ↦
          rw (execute_command-admissible c now later accepted payload cmd a e)
            (send-Pays c now later accepted cmd a h t t')
    ]

-- A call of `ExecuteCommand`: its two clock readings, the port's answer, and the payload.
pub record Call : Type 0 where
  pub now : ℕ
  pub later : ℕ
  pub accepted : Bool
  pub payload : Text

unfoldable pub execute_commands : Settings → List Call → App → App
execute_commands c [] a = a
execute_commands c (e ∷ es) a =
    execute_commands c es (execute_command c e.now e.later e.accepted e.payload a).1

-- The clock does not run backwards from call to call, and the last one is over by `until`.
abbrev pub Ordered : ℕ → ℕ → List Call → Type 0
Ordered start until [] = start ≤ until
Ordered start until (e ∷ es) = (start ≤ e.now) × (e.now ≤ e.later) × Ordered e.later until es

Ordered-le : (s s' until : ℕ) (es : List Call) → s' ≤ s → Ordered s until es → Ordered s' until es
Ordered-le s s' until [] h o = omega arith
Ordered-le s s' until (e ∷ es) h o = (omega arith, o.1, o.2)

ends_by : (s until : ℕ) (es : List Call) → Ordered s until es → s ≤ until
ends_by s until [] o = o
ends_by s until (e ∷ es) o = omega (arith, ends_by e.later until es o.2)

execute_commands-Pays :
    (c : Settings) (until : ℕ) (es : List Call) (a : App)
    → c.command_rate_limit ≢ 0
    → Ordered a.bucket.last_fill until es
    → lines (execute_commands c es a) * token
      ≤ a.bucket.tokens + lines a * token + (until - a.bucket.last_fill) * c.command_rate_limit
unfolding execute_commands
execute_commands-Pays c until [] a h o = omega arith
execute_commands-Pays c until (e ∷ es) a h o =
    let a' = (execute_command c e.now e.later e.accepted e.payload a).1 in
    let (up, down, pays) = execute_command-Pays c e.now e.later e.accepted e.payload a h o.0 o.1 in
    let rest =
      execute_commands-Pays c until es a' h
        (Ordered-le e.later a'.bucket.last_fill until es down o.2) in
    let past =
      ends_by a'.bucket.last_fill until es
        (Ordered-le e.later a'.bucket.last_fill until es down o.2) in
    omega (
      arith,
      rest,
      pays,
      spans a.bucket.last_fill a'.bucket.last_fill until c.command_rate_limit up past,
    )

-- With a rate limit set, a clock that does not run backwards and a bucket that is not over full: a
-- history of `ExecuteCommand` calls, whatever their payloads and whatever the port answers, hands
-- the serial port no more lines than the limit's worth of tokens and those that the limit brings
-- in until the end.
pub execute_commands_rate :
    (c : Settings) (until : ℕ) (es : List Call) (a : App)
    → c.command_rate_limit ≢ 0
    → Ordered a.bucket.last_fill until es
    → a.bucket.tokens ≤ c.command_rate_limit * token
    → lines (execute_commands c es a) * token
      ≤ lines a * token
        + (c.command_rate_limit * token + (until - a.bucket.last_fill) * c.command_rate_limit)
execute_commands_rate c until es a h o f = omega (arith, execute_commands-Pays c until es a h o)
