-- ===== src/Serial/Handles.antt =====
-- No serial port is leaked: the reader of rflink/serial_reader.go holds at most one, and the ports
-- open in the process are that one.
use go_rflink.Prelude.{ℕ, ◌≡◌, Bool, false, Option, none, some, List, [], ◌∷◌, arith}
use go_rflink.Prelude.Text.{Text}
use go_rflink.Serial.{Reader, disconnect, connect, reconnect, write, is_connected}

-- The handles that a port field stands for.
abbrev pub held : Option ℕ → List ℕ
held none = []
held (some h) = h ∷ []

abbrev pub IsTight : Reader → Type 0
IsTight r = r.handles ≡ held r.port

pub data Call : Type 0 where
  connects : Option ℕ → Bool → Call
  reconnects : Option ℕ → Bool → Call
  disconnects : Call
  writes : Bool → Text → Call

unfoldable pub call : Call → Reader → Reader
unfolding connect reconnect disconnect
call (connects opened timeout_set) r = (connect opened timeout_set r).1
call (reconnects opened timeout_set) r = (reconnect opened timeout_set r).1
call disconnects r = disconnect r
call (writes accepted command) r = (write accepted command r).1

write-handles :
    (accepted : Bool) (command : Text) (r : Reader)
    → ((write accepted command r).1.handles ≡ r.handles)
      × ((write accepted command r).1.port ≡ r.port)
unfolding write
write-handles accepted command r = ground arith

-- Connecting, reconnecting, disconnecting and writing keep the open ports of the process at
-- exactly the one that the reader holds.
pub call-IsTight : (c : Call) (r : Reader) → IsTight r → IsTight (call c r)
unfolding call
call-IsTight (connects opened timeout_set) r t = ground arith
call-IsTight (reconnects opened timeout_set) r t = ground arith
call-IsTight disconnects r t = ground arith
call-IsTight (writes accepted command) r t = ground (arith, write-handles accepted command r)

-- After `Reconnect` the reader is connected exactly when the port opened and took its time-out.
pub reconnect_lem :
    (opened : Option ℕ) (timeout_set : Bool) (r : Reader)
    → (is_connected (reconnect opened timeout_set r).1 ≡ (reconnect opened timeout_set r).0)
      × ((reconnect opened timeout_set r).0 ≡ (elim opened [ none ↦ false | some _ ↦ timeout_set ]))
unfolding reconnect
reconnect_lem opened timeout_set r = ground arith
