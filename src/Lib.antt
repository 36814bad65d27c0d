-- ===== src/Lib.antt =====
-- A verification library for go-RFLink, the bridge between an RFLink gateway on a serial port and
-- an MQTT broker. The program reads lines from the serial port, drops retransmits, parses the rest
-- into sensor messages or replies of the gateway, and publishes them; in the other direction it
-- takes commands from MQTT, its HTTP API and web hooks, checks them, limits their rate and writes
-- them to the port. An HTTP server with sessions and a login limiter stands beside that.
--
-- Files, and the code that each models:
-- - Prelude and its children: tests on numbers, lists, texts and association lists. A Go string is
--   its list of code points, a Go map an association list with one entry for each key.
-- - Strings: the functions of Go's `strings` and `strconv` that the code calls, by their documented
--   behaviour. Upper and lower case and letters outside ASCII are an instance argument, `Unicode`.
-- - Command: `ValidateRFLinkCommand` (rflink/validate.go), `NormalizeCommand` and `CommandAllowed`
--   (rflink/options.go), and the line that `Write` of rflink/serial_reader.go sends.
-- - RateLimit: the token bucket of rflink/app.go, in parts of a token, of which 10^9 make one: the
--   source counts tokens and seconds in float64, the model in exact nanoseconds.
-- - Serial: `SerialReader` (rflink/serial_reader.go) and `nextBackoff` (rflink/reconnect.go). The
--   driver's answers (does the port open, does it take the bytes) are arguments.
-- - App: `ExecuteCommand` (rflink/app.go), composed of the three above; Feed and Loop: the channel of
--   rflink/channels.go, and `runSerialSession` with its loop (rflink/app.go);
--   Incoming: the callbacks of `NewPublisher` (rflink/publisher.go) for a connection and for what
--   comes in from the broker.
-- - Sensor: `SensorDataFromMessage`, `ParseGatewayMessage`, `FieldsForPublish` and the helpers
--   around them (rflink/sensor_data.go). A temperature is its number of tenths.
-- - Options: the parsers of list settings and `GetOptions` (rflink/options.go), and the checks of
--   list settings (rflink/validate.go).
-- - Publisher: the parts of rflink/publisher.go that keep state: Ring (the debug buffers), Ping (the
--   PING and PONG bookkeeping), Dedup (the suppression of retransmits), Pending (what is kept while
--   the broker is away), Topics (the topics of a sensor's fields), Health (the health report), Broker
--   (publications), Discovery (the entities of rflink/home_assistant.go), Sensors (`PublishSensor`
--   and `flushPending`) and Serve (`handleSerialMessage` and the publish loop), and Actuators
--   (buttons, switches and `ClearHADiscovery`, with Rediscovery for proofs). Whether the broker takes
--   a publication is a parameter that may depend on all that was tried before.
-- - Login: the login limiter (rflink/login_limit.go). Session: the sessions (rflink/session.go).
-- - Tokens: the API tokens (rflink/runtime_config.go).
-- - Http: the checks of rflink/http_server.go. Auth (`protect`, `requireGUISession`, and `checkAuthWS`
--   of rflink/http_ws.go), with Checks and Guard for proofs; Proxy (`clientIP`, origins); Login (the
--   session handlers); Desk (the steps of logins that run at once), with Lock for proofs; Commands (`handleAPICommand`); Routes (which route has
--   which check); Hub (the hub of rflink/http_ws.go).
-- - Webhooks: rflink/webhooks.go. `ValidateWebhookConfig` stands in Webhooks itself, Address checks
--   URLs, Template replaces placeholders, Deliver has polls and pushes.
-- - Runtime: rflink/runtime_config.go. The settings file and what it overrides; Disk (the file and its
--   backups), Manager (`SaveOverlay`, `loadAndApply`, `RestoreBackup`), and the handlers of
--   rflink/http_server.go that change settings: Tokens, Config and Hooks.
-- - Tests: each main theorem at a concrete input.
--
-- Every method of the source that holds a mutex is one step of the model. A handler that calls several
-- of them is the run of these steps with no other request in between; for logins, where other orders
-- let more through, Http/Desk has the steps of many clients in any order. The clock readings of a method
-- are its arguments, in nanoseconds, and where order matters a theorem asks that the clock
-- does not run backwards. Counters wrap at 2^64 as `atomic.Uint64` does. Loops over slices and maps
-- are structural; the eviction loop of `Create` runs on fuel, for which the number of sessions is
-- enough since each round removes one, and printing a number runs on fuel above the number. Digests,
-- times, URLs, addresses, name look-ups and JSON are Go's libraries, hence parameters.
--
-- Not modelled: the pages, cookies, middlewares and read-only handlers of the HTTP server; the MQTT
-- client and the serial driver, which are libraries; the TLS set-up; the timers of the web hooks and
-- of the file watcher; the recovery from panics; and logging.
pub mod Prelude
pub mod Strings
pub mod Command
pub mod RateLimit
pub mod Serial
pub mod App
pub mod Sensor
pub mod Publisher
pub mod Options
pub mod Login
pub mod Session
pub mod Http
pub mod Runtime
pub mod Tokens
pub mod Webhooks
pub mod Tests
