-- ===== src/App/Incoming.antt =====
-- What rflink/publisher.go does when the broker connects and when a publication comes in: the
-- callbacks of `NewPublisher`, the topics of `resubscribeCommands`, and `handleCommand` of
-- rflink/app.go behind them.
use go_rflink.Prelude.{
  ℕ, ◌≡◌, refl, inl, inr, Bool, true, not, ◌&&◌, List, [], ◌∷◌, ◌++◌, if◌then◌else◌, Bool-cases,
}
use go_rflink.Prelude.Text.{Text, codes, text_eq}
use go_rflink.Strings.{Unicode}
use go_rflink.App
use go_rflink.App.{App, execute_command}
use go_rflink.App.Rate.{Call, execute_commands}
use go_rflink.Publisher.Health.{Publisher}
use go_rflink.Publisher.Broker.{Broker, Publication, text, publish_raw}
use go_rflink.Publisher.Sensors.{Settings, Core, flush}
use go_rflink.Publisher.Actuators.{publish_ha_actuators, clear_ha_discovery}

abbrev pub rediscover_topic : Settings → Text
rediscover_topic c = c.options.topic ++ codes "/admin/rediscover"

-- The topics of `resubscribeCommands`; the first argument says whether there is a handler.
unfoldable pub subscriptions : Bool → Settings → List (Text × ℕ)
subscriptions handled c =
    (if handled then (c.options.cmd_topic, c.options.qos) ∷ [] else [])
    ++ (if c.home_assistant_discovery then (rediscover_topic c, c.options.qos) ∷ [] else [])

-- A publication that comes in; the call has its payload, the clock readings, and whether the port
-- takes what is written.
pub record Delivery : Type 0 where
  pub topic : Text
  pub call : Call

abbrev online_publication : Settings → Text → Bool → Publication
online_publication c topic online = record {
  topic = c.options.topic ++ topic;
  payload = text (if online then codes "online" else codes "offline");
  retain = true;
}

module _ ⦃u : Unicode⦄ (accepts : Broker) (c : Settings) where
  -- `OnConnectionUp`, less the subscription.
  unfoldable pub connection_up : ℕ → ℕ → Core → Core
  unfolding publish_raw publish_ha_actuators flush
  connection_up now later s =
      let p : Publisher = record (s.publisher) { mqtt_up = true } in
      let w = (publish_raw accepts (online_publication c (codes "/status") true) s.wire).1 in
      let w' =
        (publish_raw accepts (online_publication c (codes "/serial/status") p.serial_up) w).1 in
      flush accepts c now later
        (publish_ha_actuators accepts c (record s { publisher = p; wire = w' }))

module _ (accepts : Broker) (c : Settings) (commands : App.Settings) where
  -- `OnPublishReceived`, once `handleCommand` is the handler.
  unfoldable pub on_publish_received : Delivery → Core × App → Core × App
  unfolding clear_ha_discovery execute_command
  on_publish_received d (s, a) =
      let e = d.call in
      if text_eq d.topic (rediscover_topic c)
      then (clear_ha_discovery accepts c s, a)
      else if text_eq d.topic c.options.cmd_topic
      then (s, (execute_command commands e.now e.later e.accepted e.payload a).1)
      else (s, a)

  unfoldable pub receive_all : List Delivery → Core × App → Core × App
  unfolding on_publish_received
  receive_all [] s = s
  receive_all (d ∷ ds) s = receive_all ds (on_publish_received d s)

  -- The calls behind the publications on the command topic.
  abbrev pub commands_of : List Delivery → List Call
  commands_of [] = []
  commands_of (d ∷ ds) =
      let rest = commands_of ds in
      if not (text_eq d.topic (rediscover_topic c)) && text_eq d.topic c.options.cmd_topic
      then d.call ∷ rest
      else rest

  -- Whatever publications come in and whatever the broker answers: what becomes of the serial
  -- port, the rate limit and the counters of commands is what `ExecuteCommand` makes of the
  -- payloads on the command topic alone, in their order, unless that topic is the one for
  -- rediscovery.
  pub receive_all-execute_commands :
      (ds : List Delivery) (s : Core) (a : App)
      → (receive_all ds (s, a)).1 ≡ execute_commands commands (commands_of ds) a
  unfolding receive_all on_publish_received execute_commands
  receive_all-execute_commands [] s a = refl
  receive_all-execute_commands (d ∷ ds) s a =
      let e = d.call in
      elim (Bool-cases (text_eq d.topic (rediscover_topic c))) [
        | inl again ↦
            rw (again, receive_all, commands_of)
              (receive_all-execute_commands ds (clear_ha_discovery accepts c s) a)
        | inr other ↦ elim (Bool-cases (text_eq d.topic c.options.cmd_topic)) [
          | inl command ↦
              rw (other, command, receive_all, commands_of, execute_commands)
                (receive_all-execute_commands ds s
                  (execute_command commands e.now e.later e.accepted e.payload a).1)
          | inr neither ↦
              rw (other, neither, receive_all, commands_of) (receive_all-execute_commands ds s a)
        ]
      ]
