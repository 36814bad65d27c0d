-- ===== src/App/Loop.antt =====
-- The serial loop of rflink/app.go: `runSerialSession` round by round. What happens outside is an
-- argument: the port that opens, whether it takes a write, the lines that it gives until it ends,
-- and whether the context is cancelled.
use go_rflink.Prelude.{
  ℕ, ◌+◌, ◌%◌, ◌^◌, ◌≤◌, ◌≡◌, refl, ap, ◌∙◌, inl, inr, Bool, true, false, Option, List, [], ◌∷◌,
  ◌++◌, ltb, if◌then◌else◌, length, drop, Bool-cases, arith,
}
use go_rflink.Prelude.Text.{Text, codes}
use go_rflink.Serial.{Reader, is_connected, disconnect, open_port, connect, reconnect, write}
use go_rflink.Serial.Backoff.{next_backoff, next_backoff_bounds}
use go_rflink.Publisher.Health.{Counters, Publisher, note_serial_activity, set_serial_connected}
use go_rflink.Publisher.Broker.{Broker, Wire, Publication, text, publish_raw}
use go_rflink.App.Feed.{serial_channel_buffer}

pub record LoopState : Type 0 where
  pub reader : Reader
  pub publisher : Publisher
  pub wire : Wire
  pub queue : List Text
  pub delay : ℕ

-- What a round meets. `lines` come with the time of each; between them the publish loop may take
-- some lines out of the channel.
pub record Round : Type 0 where
  pub now : ℕ
  pub opened : Option ℕ
  pub timeout_set : Bool
  pub accepted : Bool
  pub lines : List (ℕ × Text × ℕ)
  pub ended_at : ℕ
  pub cancelled : Bool
  pub slept : Bool

abbrev pub drop_taken : ℕ → List Text → List Text
drop_taken n q = drop n q

-- The handler of a line.
unfoldable pub handle_line : ℕ → Text → LoopState → LoopState
handle_line now msg s =
    let p = note_serial_activity now s.publisher in
    let counters : Counters = record (p.counters) {
      serial_dropped = (p.counters.serial_dropped + 1) % 2 ^ 64;
    } in
    if ltb (length s.queue) serial_channel_buffer
    then record s { publisher = p; queue = s.queue ++ msg ∷ [] }
    else record s { publisher = record p { counters = counters } }

-- `ReadLines` with that handler; each line comes after some were taken out of the channel.
unfoldable pub read_lines : List (ℕ × Text × ℕ) → LoopState → LoopState
unfolding handle_line
read_lines [] s = s
read_lines ((now, msg, taken) ∷ rest) s =
    read_lines rest (handle_line now msg (record s { queue = drop_taken taken s.queue }))

module _ (accepts : Broker) (topic : Text) (lo hi : ℕ) where
  status_publication : Bool → Publication
  status_publication online = record {
    topic = topic ++ codes "/serial/status";
    payload = text (if online then codes "online" else codes "offline");
    retain = true;
  }

  -- `SetSerialConnected` with its publication.
  unfoldable pub report_serial : ℕ → Bool → LoopState → LoopState
  unfolding status_publication set_serial_connected publish_raw
  report_serial now connected s =
      let (online, p) = set_serial_connected now connected s.publisher in
      record s { publisher = p; wire = (publish_raw accepts (status_publication online) s.wire).1 }

  -- `sleepContext` and what follows it.
  back_off : Bool → LoopState → Bool × LoopState
  back_off slept s =
      if slept then (true, record s { delay = next_backoff s.delay lo hi }) else (false, s)

  -- The part of `runSerialSession` with an open port.
  unfoldable pub run_connected : Round → LoopState → Bool × LoopState
  unfolding report_serial write read_lines disconnect back_off
  run_connected r s =
      let online = report_serial r.now true s in
      let asked : LoopState = record online {
        reader = (write r.accepted (codes "10;version;") online.reader).1;
      } in
      let heard = read_lines r.lines asked in
      let closed =
        report_serial r.ended_at false (record heard { reader = disconnect heard.reader }) in
      if r.cancelled then (false, heard) else back_off r.slept closed

  -- `runSerialSession` without its recovery from a panic; true goes on with the loop.
  unfoldable pub run_serial_session : Round → LoopState → Bool × LoopState
  unfolding run_connected reconnect report_serial back_off
  run_serial_session r s =
      let (opened, reader) = reconnect r.opened r.timeout_set s.reader in
      let tried : LoopState = record s { reader = reader } in
      if is_connected s.reader
      then run_connected r s
      else if opened
      then run_connected r (record tried { delay = lo })
      else back_off r.slept (report_serial r.now false tried)

  -- `runSerialLoop`, until a round ends it, or over all that are given.
  unfoldable pub run_serial_loop : List Round → LoopState → LoopState
  unfolding run_serial_session
  run_serial_loop [] s = s
  run_serial_loop (r ∷ rs) s =
      let (goes_on, s') = run_serial_session r s in
      let rest = run_serial_loop rs s' in if goes_on then rest else s'

  -- Between two rounds the port is closed and said to be, and the delay is within its bounds.
  pub record IsIdle (s : LoopState) : Type 0 where
    pub closed : is_connected s.reader ≡ false
    pub reported : s.publisher.serial_up ≡ false
    pub at_least : lo ≤ s.delay
    pub at_most : s.delay ≤ hi

  back_off-IsIdle :
      (slept : Bool) (s : LoopState)
      → lo ≤ hi
      → is_connected s.reader ≡ false
      → s.publisher.serial_up ≡ false
      → (back_off slept s).0 ≡ true
      → IsIdle (back_off slept s).1
  unfolding back_off
  back_off-IsIdle false s h a b e = absurd (ground arith)
  back_off-IsIdle true s h a b e =
      let (least, most) = next_backoff_bounds s.delay lo hi h in
      record { closed = a; reported = b; at_least = least; at_most = most }

  report_serial-down :
      (now : ℕ) (s : LoopState)
      → ((report_serial now false s).publisher.serial_up ≡ false)
        × ((report_serial now false s).reader ≡ s.reader)
  unfolding report_serial set_serial_connected
  report_serial-down now s = (refl, refl)

  disconnect-closed : (r : Reader) → is_connected (disconnect r) ≡ false
  unfolding disconnect
  disconnect-closed r = ground arith

  reconnect_failed :
      (opened : Option ℕ) (timeout_set : Bool) (r : Reader)
      → (reconnect opened timeout_set r).0 ≡ false
      → is_connected (reconnect opened timeout_set r).1 ≡ false
  unfolding reconnect connect open_port disconnect
  reconnect_failed opened timeout_set r h = ground arith

  run_connected-IsIdle :
      (r : Round) (s : LoopState)
      → lo ≤ hi
      → (run_connected r s).0 ≡ true
      → IsIdle (run_connected r s).1
  unfolding run_connected
  run_connected-IsIdle r s h e =
      let online = report_serial r.now true s in
      let asked : LoopState = record online {
        reader = (write r.accepted (codes "10;version;") online.reader).1;
      } in
      let heard = read_lines r.lines asked in
      let ended : LoopState = record heard { reader = disconnect heard.reader } in
      let (down, same) = report_serial-down r.ended_at ended in
      elim (Bool-cases r.cancelled) [
        | inl stop ↦ absurd (ground arith)
        | inr on ↦ rw on (
            back_off-IsIdle r.slept (report_serial r.ended_at false ended) h
              (ap is_connected same ∙ disconnect-closed heard.reader) down (rw on at e))
      ]

  -- Whatever the port does: when a round of the serial loop ends and the loop goes on, with a
  -- minimal delay no longer than the maximal one, the port is closed, the publisher reports it as
  -- offline, and the next delay is between the two.
  pub run_serial_session-IsIdle :
      (r : Round) (s : LoopState)
      → lo ≤ hi
      → (run_serial_session r s).0 ≡ true
      → IsIdle (run_serial_session r s).1
  unfolding run_serial_session
  run_serial_session-IsIdle r s h e =
      let (opened, reader) = reconnect r.opened r.timeout_set s.reader in
      let tried : LoopState = record s { reader = reader } in
      let (down, same) = report_serial-down r.now tried in
      elim (Bool-cases (is_connected s.reader)) [
        | inl open_ ↦ rw open_ (run_connected-IsIdle r s h (rw open_ at e))
        | inr shut ↦ elim (Bool-cases opened) [
          | inl ok ↦
              rw (shut, ok)
                (run_connected-IsIdle r (record tried { delay = lo }) h (rw (shut, ok) at e))
          | inr failed ↦
              rw (shut, failed)
                (back_off-IsIdle r.slept (report_serial r.now false tried) h
                  (ap is_connected same ∙ reconnect_failed r.opened r.timeout_set s.reader failed)
                  down (rw (shut, failed) at e))
        ]
      ]
