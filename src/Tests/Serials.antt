-- ===== src/Tests/Serials.antt =====
-- The serial port: attempts to open it, its pings, and the messages that come in.
use go_rflink.Prelude.{◌+◌, ◌%◌, ◌^◌, ◌≤◌, ◌≡◌, ◌↔◌, refl, true, false, none, some, [], ◌∷◌, arith}
use go_rflink.Prelude.Text.{Text, codes}
use go_rflink.Strings.{trim_space, split, join}
use go_rflink.Serial.{Reader}
use go_rflink.Publisher.Ping.{
  Config, PingState, note_pong, serial_ping_fail_threshold, missed, missed_iff,
}
use go_rflink.Publisher.Dedup.{Dedup, dedup_key, is_duplicate}
use go_rflink.Publisher.Dedup.Spacing.{receive, is_duplicate-receive}

abbrev reader : Reader
reader = record { port = some 7; handles = 7 ∷ []; sent = [] }

abbrev config : Config
config = record { ping_interval_sec = 60; ping_timeout_sec = 10; ping_fail_threshold = 2 }

abbrev waiting : PingState
waiting = record { sent_at = some 5; last_pong_at = none; fails = 1; unresponsive = false }

missed_iff_example :
    ((missed config 2 9 (note_pong 5 waiting)).unresponsive ≡ true)
    ↔ (serial_ping_fail_threshold config ≤ 2)
missed_iff_example = missed_iff config 2 9 5 waiting (ground arith) (omega arith)

abbrev heard : Text
heard = codes "20;01;KAKU;ID=1;"

abbrev heard_again : Text
heard_again = codes "20;02;KAKU;ID=1;"

abbrev cache : Dedup
cache = record { last = []; dropped = 0 }

heard_new : (is_duplicate 50 5 heard cache).0 ≡ false
unfolding is_duplicate
heard_new = refl

same_key : dedup_key heard_again ≡ dedup_key heard
unfolding dedup_key trim_space split join
same_key = refl

is_duplicate-receive_example :
    let d' = receive 50 ((codes "20;02;PONG;", 8) ∷ []) (is_duplicate 50 5 heard cache).1 in
    ((is_duplicate 50 9 heard_again d').0 ≡ true)
    × ((is_duplicate 50 9 heard_again d').1.last ≡ d'.last)
    × ((is_duplicate 50 9 heard_again d').1.dropped ≡ (d'.dropped + 1) % 2 ^ 64)
is_duplicate-receive_example =
    is_duplicate-receive 50 5 9 heard heard_again ((codes "20;02;PONG;", 8) ∷ []) cache
      (omega arith) heard_new (ground arith) (omega arith) same_key
