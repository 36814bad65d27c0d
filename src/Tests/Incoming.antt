-- ===== src/Tests/Incoming.antt =====
-- What comes in from the broker, and the rediscovery of buttons and switches.
use go_rflink.Prelude.{◌≡◌, refl, true, List, [], ◌∷◌, ◌++◌}
use go_rflink.Prelude.Text.{codes}
use go_rflink.Publisher.Broker.{Broker, accepted}
use go_rflink.Publisher.Sensors.{Settings}
use go_rflink.Publisher.Actuators.{clear_ha_discovery}
use go_rflink.Publisher.Actuators.Rediscovery.{
  button_publications, switch_publications, clear_ha_discovery-wire,
}
use go_rflink.App.Rate.{execute_commands}
use go_rflink.App.Incoming.{Delivery, receive_all, commands_of, receive_all-execute_commands}
use go_rflink.Tests.Commands
use go_rflink.Tests.Settings.{settings, core, refuses}

abbrev takes_all : Broker
takes_all w p = true

abbrev with_actuators : Settings
with_actuators = record settings {
  options = record (settings.options) {
    ha_buttons = record { name = codes "Bell"; command = codes "10;BELL;1;ON;" } ∷ [];
    ha_switches =
        record {
          name = codes "Lamp";
          command_on = codes "10;KAKU;1;ON;";
          command_off = codes "10;KAKU;1;OFF;";
        }
        ∷ [];
  };
}

clear_ha_discovery-wire_example :
    (clear_ha_discovery takes_all with_actuators core).wire
    ≡ accepted
        (button_publications with_actuators 0 with_actuators.options.ha_buttons
          ++ switch_publications with_actuators 0 with_actuators.options.ha_switches)
        []
clear_ha_discovery-wire_example =
    clear_ha_discovery-wire takes_all (λ w p. refl) with_actuators core refl

abbrev deliveries : List Delivery
deliveries =
    record {
      topic = codes "rflink/admin/rediscover";
      call = record { now = 4; later = 4; accepted = true; payload = [] };
    }
    ∷ record {
      topic = settings.options.cmd_topic;
      call = record { now = 5; later = 6; accepted = true; payload = codes "10;KAKU;1;ON" };
    }
    ∷ []

receive_all-execute_commands_example :
    (receive_all refuses with_actuators Commands.settings deliveries (core, Commands.app)).1
    ≡ execute_commands Commands.settings
        (commands_of refuses with_actuators Commands.settings deliveries)
        Commands.app
receive_all-execute_commands_example =
    receive_all-execute_commands refuses with_actuators Commands.settings deliveries core
      Commands.app
