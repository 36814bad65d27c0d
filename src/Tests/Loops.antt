-- ===== src/Tests/Loops.antt =====
-- The loops between the serial port and the broker, and the loop that evicts sessions.
use go_rflink.Prelude.{
  ◌-◌, ◌≤◌, ◌<◌, ◌≡◌, refl, true, false, none, some, List, [], ◌∷◌, ◌++◌, length, drop, arith,
}
use go_rflink.Prelude.Text.{codes}
use go_rflink.Session.{Store, entry, evict, max_sessions}
use go_rflink.Session.Evict.{evict-lt}
use go_rflink.App.Feed.{
  read, take_one, FeedEvent, Thinned, given, feed_steps, serial_channel_buffer, feed_steps-Thinned,
}
use go_rflink.App.Loop.{LoopState, Round, IsIdle, run_serial_session, run_serial_session-IsIdle}
use go_rflink.Publisher.Serve.{LoopSettings, State, Event, line, ping_tick, serve_all}
use go_rflink.Publisher.Serve.History.{entries, serve_all-raw_lines}
use go_rflink.Tests.Settings.{ascii_only, publisher, settings, core, refuses}

abbrev events : List FeedEvent
events = read (codes "20;01;") ∷ take_one ∷ read (codes "20;02;") ∷ []

feed_steps-Thinned_example :
    let f = feed_steps events (record { queue = []; taken = []; dropped = 0 }) in
    Thinned f.dropped (f.taken ++ f.queue) (given events) × (length f.queue ≤ serial_channel_buffer)
feed_steps-Thinned_example = feed_steps-Thinned events

abbrev loop_settings : LoopSettings
loop_settings = record {
  settings = settings;
  raw_cap = 1;
  dedup_window_ms = 500;
  watchdog_sec = 60;
  ping = record { ping_interval_sec = 0; ping_timeout_sec = 0; ping_fail_threshold = 0 };
}

abbrev state : State
state = record { core = core; dedup = record { last = []; dropped = 0 }; raw_lines = [] }

abbrev history : List Event
history = line 5 6 (codes "20;01;PONG;") ∷ ping_tick 7 ∷ line 8 9 (codes "20;02;PONG;") ∷ []

serve_all-raw_lines_example :
    (serve_all ⦃u = ascii_only⦄ refuses loop_settings history state).raw_lines
    ≡ drop (length (entries history) - 1) (entries history)
serve_all-raw_lines_example =
    serve_all-raw_lines ⦃u = ascii_only⦄ refuses loop_settings history state (omega arith) refl

abbrev round : Round
round = record {
  now = 10;
  opened = some 3;
  timeout_set = true;
  accepted = true;
  lines = (11, codes "20;01;PONG;", 0) ∷ [];
  ended_at = 12;
  cancelled = false;
  slept = true;
}

abbrev loop_state : LoopState
loop_state = record {
  reader = record { port = none; handles = []; sent = [] };
  publisher = publisher;
  wire = [];
  queue = [];
  delay = 4;
}

round-goes_on : (run_serial_session refuses (codes "rflink") 1 8 round loop_state).0 ≡ true
unfolding run_serial_session
round-goes_on = refl

run_serial_session-IsIdle_example :
    IsIdle refuses
      (codes "rflink")
      1
      8
      (run_serial_session refuses (codes "rflink") 1 8 round loop_state).1
run_serial_session-IsIdle_example =
    run_serial_session-IsIdle refuses (codes "rflink") 1 8 round loop_state (omega arith)
      round-goes_on

abbrev one_session : Store
one_session = (codes "aa", entry (codes "aa") (codes "10.0.0.7") 3) ∷ []

evict-lt_example : length (evict 1 one_session) < max_sessions
evict-lt_example = evict-lt 1 one_session (omega arith) (refl, tt) (refl, tt)
