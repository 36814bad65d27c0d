-- ===== src/Publisher/Serve/History.antt =====
-- The buffer of recent lines over a history of events of the publish loop.
use go_rflink.Prelude.{◌-◌, ◌<◌, ◌≡◌, refl, ap, ◌∙◌, List, [], ◌∷◌, length, drop}
use go_rflink.Strings.{Unicode}
use go_rflink.Publisher.Ring.{append_lines, append_lines_lem}
use go_rflink.Publisher.Broker.{Broker}
use go_rflink.Publisher.Serve.{
  LoopSettings, RawLineEntry, State, Event, health_tick, watchdog_tick, ping_tick, line,
  handle_serial_message, serve, serve_all,
}

-- The lines of a history, as they arrived.
abbrev pub entries : List Event → List RawLineEntry
entries [] = []
entries (line now later msg ∷ es) = record { at = now; message = msg } ∷ entries es
entries (health_tick now ∷ es) = entries es
entries (watchdog_tick now ∷ es) = entries es
entries (ping_tick now ∷ es) = entries es

module _ ⦃u : Unicode⦄ (accepts : Broker) (c : LoopSettings) where
  serve_all-append_lines :
      (es : List Event) (s : State)
      → (serve_all accepts c es s).raw_lines ≡ append_lines c.raw_cap s.raw_lines (entries es)
  unfolding serve_all serve handle_serial_message append_lines
  serve_all-append_lines [] s = refl
  serve_all-append_lines (line now later msg ∷ es) s =
      serve_all-append_lines es (serve accepts c (line now later msg) s)
  serve_all-append_lines (health_tick now ∷ es) s =
      serve_all-append_lines es (serve accepts c (health_tick now) s)
  serve_all-append_lines (watchdog_tick now ∷ es) s =
      serve_all-append_lines es (serve accepts c (watchdog_tick now) s)
  serve_all-append_lines (ping_tick now ∷ es) s =
      serve_all-append_lines es (serve accepts c (ping_tick now) s)

  -- After any history of lines and ticks the publish loop, with a buffer above 0 that starts
  -- empty, holds the last lines that came in, duplicates included, up to the capacity and oldest
  -- first.
  pub serve_all-raw_lines :
      (es : List Event) (s : State)
      → 0 < c.raw_cap
      → s.raw_lines ≡ []
      → (serve_all accepts c es s).raw_lines ≡ drop (length (entries es) - c.raw_cap) (entries es)
  serve_all-raw_lines es s h empty =
      serve_all-append_lines es s
      ∙ ap (λ xs. append_lines c.raw_cap xs (entries es)) empty
      ∙ append_lines_lem c.raw_cap (entries es) h
