-- ===== src/Serial.antt =====
-- rflink/serial_reader.go: the serial port behind `SerialReader`. A port is a handle, a number; the
-- serial package's part (whether `serial.Open` gives a port, and which, whether `SetReadTimeout` and
-- `Write` succeed) enters as arguments. `handles` are the ports that are open in the process, and
-- `sent` is what was handed to a port, oldest first.
pub mod Backoff
pub mod Handles
use go_rflink.Prelude.{
  ℕ, Bool, true, false, not, Option, none, some, List, [], ◌∷◌, ◌++◌, ◌==◌, if◌then◌else◌,
}
use go_rflink.Prelude.Text.{Text}
use go_rflink.Command.{wire}

pub record Reader : Type 0 where
  pub port : Option ℕ
  pub handles : List ℕ
  pub sent : List Text

pub data WriteResult : Type 0 where
  written empty_payload not_connected failed : WriteResult

abbrev close_handle : ℕ → List ℕ → List ℕ
close_handle h [] = []
close_handle h (x ∷ xs) = if x == h then close_handle h xs else x ∷ close_handle h xs

abbrev pub is_connected : Reader → Bool
is_connected r = elim r.port [ none ↦ false | some _ ↦ true ]

-- `disconnect`, and `Close`, which differs in the error that it returns.
unfoldable pub disconnect : Reader → Reader
disconnect r = elim r.port [
  | none ↦ r
  | some h ↦ record r { port = none; handles = close_handle h r.handles }
]

-- `connectLocked` from `serial.Open` on; the result tells whether the port is open.
unfoldable pub open_port : Option ℕ → Bool → Reader → Bool × Reader
open_port none timeout_set r = (false, r)
open_port (some h) timeout_set r =
    if timeout_set
    then (true, record r { port = some h; handles = h ∷ r.handles })
    else (false, record r { handles = close_handle h (h ∷ r.handles) })

unfoldable pub connect : Option ℕ → Bool → Reader → Bool × Reader
unfolding disconnect open_port
connect opened timeout_set r = open_port opened timeout_set (disconnect r)

unfoldable pub reconnect : Option ℕ → Bool → Reader → Bool × Reader
unfolding connect disconnect
reconnect opened timeout_set r = connect opened timeout_set (disconnect r)

-- The part of `Write` under the lock.
write_payload : Bool → Text → Option ℕ → Reader → WriteResult × Reader
write_payload accepted payload none r = (not_connected, r)
write_payload accepted payload (some h) r =
    ((if accepted then written else failed), record r { sent = r.sent ++ payload ∷ [] })

unfoldable pub write : Bool → Text → Reader → WriteResult × Reader
unfolding write_payload wire
write accepted command r = elim (wire command) [
  | none ↦ (empty_payload, r)
  | some payload ↦ write_payload accepted payload r.port r
]
