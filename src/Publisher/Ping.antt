-- ===== src/Publisher/Ping.antt =====
-- The liveness check of the RFLink firmware: `MarkPingSent`, `NotePong`, `checkPingTimeout` and
-- `PingOutstanding` in rflink/publisher.go, `sendPing` in rflink/app.go and the accessors of its
-- settings in rflink/options.go. A zero `time.Time` is `none`.
use go_rflink.Prelude.{
  ℕ, zero, suc, ◌+◌, ◌-◌, ◌*◌, ◌%◌, ◌^◌, ◌≤◌, ◌<◌, ◌≡◌, ◌≢◌, ◌↔◌, refl, Bool, true, false, not,
  ◌&&◌, Option, none, some, ltb, leb, ◌==◌, if◌then◌else◌, arith,
}

-- The settings, in seconds and pings; `GetOptions` leaves none of them negative.
pub record Config : Type 0 where
  pub ping_interval_sec : ℕ
  pub ping_timeout_sec : ℕ
  pub ping_fail_threshold : ℕ

abbrev pub second : ℕ
second = 1000000000

abbrev pub serial_ping_interval : Config → ℕ
serial_ping_interval c = c.ping_interval_sec * second

abbrev pub serial_ping_timeout : Config → ℕ
serial_ping_timeout c = (if c.ping_timeout_sec == 0 then 5 else c.ping_timeout_sec) * second

abbrev pub serial_ping_fail_threshold : Config → ℕ
serial_ping_fail_threshold c = if c.ping_fail_threshold == 0 then 3 else c.ping_fail_threshold

pub record PingState : Type 0 where
  pub sent_at : Option ℕ
  pub last_pong_at : Option ℕ
  pub fails : ℕ
  pub unresponsive : Bool

abbrev pub initial : PingState
initial = record { sent_at = none; last_pong_at = none; fails = 0; unresponsive = false }

unfoldable pub mark_ping_sent : ℕ → PingState → PingState
mark_ping_sent now p = record p { sent_at = some now }

unfoldable pub note_pong : ℕ → PingState → PingState
note_pong now p = record p {
  last_pong_at = some now;
  sent_at = none;
  fails = 0;
  unresponsive = false;
}

-- `int(fails) >= threshold` for the `uint64` counter: from 2^63 on the conversion is negative.
abbrev pub reached : ℕ → ℕ → Bool
reached threshold fails = ltb fails (2 ^ 63) && leb threshold fails

-- The part of `checkPingTimeout` behind the time-out test.
unfoldable pub timed_out : Config → PingState → PingState
timed_out c p =
    let fails = (p.fails + 1) % 2 ^ 64 in
    record p {
      sent_at = none;
      fails = fails;
      unresponsive = if reached (serial_ping_fail_threshold c) fails then true else p.unresponsive;
    }

unfoldable pub check_ping_timeout : Config → ℕ → PingState → PingState
unfolding timed_out
check_ping_timeout c now p = if serial_ping_interval c == 0 then p else (elim p.sent_at [
  | none ↦ p
  | some sent ↦ if ltb (now - sent) (serial_ping_timeout c) then p else timed_out c p
])

abbrev pub ping_outstanding : PingState → Bool
ping_outstanding p = elim p.sent_at [ none ↦ false | some _ ↦ true ]

-- `sendPing`: whether the port is open and whether the write succeeds come from the serial side.
-- The first result tells whether "10;PING;" was written.
unfoldable pub send_ping : Bool → Bool → ℕ → PingState → Bool × PingState
unfolding mark_ping_sent
send_ping connected written now p =
    if not connected
    then (false, p)
    else if ping_outstanding p
    then (false, p)
    else if written
    then (true, mark_ping_sent now p)
    else (false, p)

-- The firmware counts as unresponsive exactly when enough pings in a row were missed.
abbrev pub IsConsistent : Config → PingState → Type 0
IsConsistent c p = (p.unresponsive ≡ true) ↔ (serial_ping_fail_threshold c ≤ p.fails)

pub data Event : Type 0 where
  sends : Bool → Bool → Event
  pongs checks : Event

unfoldable pub step : Config → ℕ → Event → PingState → PingState
unfolding send_ping note_pong check_ping_timeout
step c now (sends connected written) p = (send_ping connected written now p).1
step c now pongs p = note_pong now p
step c now checks p = check_ping_timeout c now p

-- With fewer than 2^63 - 1 failures on record: pings, PONGs and time-out checks keep the firmware
-- marked unresponsive exactly when the failures have reached the threshold.
pub step-IsConsistent :
    (c : Config) (now : ℕ) (e : Event) (p : PingState)
    → p.fails + 1 < 2 ^ 63
    → IsConsistent c p
    → IsConsistent c (step c now e p)
unfolding step
step-IsConsistent c now (sends connected written) p h v = ground arith
step-IsConsistent c now pongs p h v = ground arith
step-IsConsistent c now checks p h v = ground arith

-- With pings switched on: when an outstanding ping has timed out the check counts one failure, a
-- second check at any time changes nothing, and `sendPing` on a connected port sends the next one.
pub check_ping_timeout_once :
    (c : Config) (now later sent : ℕ) (p : PingState)
    → c.ping_interval_sec ≢ 0
    → p.sent_at ≡ some sent
    → sent + serial_ping_timeout c ≤ now
    → (check_ping_timeout c later (check_ping_timeout c now p) ≡ check_ping_timeout c now p)
      × ((check_ping_timeout c now p).fails ≡ (p.fails + 1) % 2 ^ 64)
      × ((send_ping true true later (check_ping_timeout c now p)).0 ≡ true)
unfolding check_ping_timeout send_ping
check_ping_timeout_once c now later sent p h e late = ground arith

-- A ping is sent, and the check finds it timed out.
round : Config → ℕ → PingState → PingState
unfolding send_ping check_ping_timeout
round c now p = check_ping_timeout c (now + serial_ping_timeout c) (send_ping true true now p).1

-- `k` such rounds in a row, with no PONG among them.
unfoldable pub missed : Config → ℕ → ℕ → PingState → PingState
unfolding round
missed c zero now p = p
missed c (suc k) now p = missed c k (now + serial_ping_timeout c) (round c now p)

round-fails :
    (c : Config) (now : ℕ) (p : PingState)
    → c.ping_interval_sec ≢ 0
    → p.sent_at ≡ none
    → p.fails + 1 < 2 ^ 63
    → IsConsistent c p
    → ((round c now p).fails ≡ p.fails + 1)
      × ((round c now p).sent_at ≡ none)
      × IsConsistent c (round c now p)
unfolding round
round-fails c now p h e b v = ground arith

missed-fails :
    (c : Config) (k now : ℕ) (p : PingState)
    → c.ping_interval_sec ≢ 0
    → p.sent_at ≡ none
    → p.fails + k < 2 ^ 63
    → IsConsistent c p
    → ((missed c k now p).fails ≡ p.fails + k) × IsConsistent c (missed c k now p)
unfolding missed
missed-fails c zero now p h e b v = (omega arith, v)
missed-fails c (suc k) now p h e b v =
    let (fails, sent, ok) = round-fails c now p h e (omega arith) v in
    let (total, rest) =
      missed-fails c k (now + serial_ping_timeout c) (round c now p) h sent (omega arith) ok in
    (omega arith, rest)

-- From a PONG on, with pings switched on and fewer than 2^63 of them: the firmware is marked
-- unresponsive after as many missed pings in a row as the threshold says, and not before.
pub missed_iff :
    (c : Config) (k now at : ℕ) (p : PingState)
    → c.ping_interval_sec ≢ 0
    → k < 2 ^ 63
    → ((missed c k now (note_pong at p)).unresponsive ≡ true) ↔ (serial_ping_fail_threshold c ≤ k)
unfolding note_pong
missed_iff c k now at p h b =
    let (fails, ok) = missed-fails c k now (note_pong at p) h refl (omega arith) (ground arith) in
    (λ e. omega (arith, ok.0 e), λ e. ok.1 (omega arith))
