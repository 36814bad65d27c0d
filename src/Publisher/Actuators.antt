-- ===== src/Publisher/Actuators.antt =====
-- The buttons and switches that rflink/publisher.go announces: `publishHAActuators` and
-- `ClearHADiscovery`.
pub mod Rediscovery
use go_rflink.Prelude.{
  ℕ, zero, suc, ◌≤◌, ◌≡◌, ◌≢◌, refl, sym, ap, ◌∙◌, inl, inr, Bool, true, false, Option, none, some,
  List, [], ◌∷◌, ◌++◌, if◌then◌else◌, Bool-cases, append_assoc, arith,
}
use go_rflink.Prelude.Text.{Text, codes, text_eq, text_eq_iff}
use go_rflink.Strings.{Unicode}
use go_rflink.Options.{HaActuatorButton, HaActuatorSwitch, mem}
use go_rflink.Options.Settings.{Options}
use go_rflink.Strings.Numbers.{value_from}
use go_rflink.Sensor.Decimal.{decimal, decimal-value}
use go_rflink.Publisher.Broker.{
  Broker, Wire, Publication, Presses, press, on_off, HaActuatorPayload, actuator, publish_raw,
}
use go_rflink.Publisher.Sensors.{Settings, Core}

abbrev pub button_id : ℕ → Text
button_id i = codes "gorflink_btn_" ++ decimal i

abbrev pub switch_id : ℕ → Text
switch_id i = codes "gorflink_sw_" ++ decimal i

-- The entry of the discovery topic for a button or a switch.
abbrev actuator_publication : Settings → Text → Text → Text → Presses → Publication
actuator_publication c component id name presses = record {
  topic = c.ha_discovery_prefix ++ (b'/' ∷ component) ++ b'/' ∷ (id ++ codes "/config");
  payload = actuator (record {
    name = name;
    unique_id = id;
    command_topic = c.options.cmd_topic;
    payload = presses;
    availability_topic = c.options.topic ++ codes "/status";
  });
  retain = true;
}

abbrev pub button_publication : Settings → ℕ → HaActuatorButton → Publication
button_publication c i btn =
    actuator_publication c (codes "button") (button_id i) btn.name (press btn.command)

abbrev pub switch_publication : Settings → ℕ → HaActuatorSwitch → Publication
switch_publication c i sw =
    actuator_publication c (codes "switch") (switch_id i) sw.name
      (on_off sw.command_on sw.command_off)

-- The step of both loops on the set `discovered` and the wire.
unfoldable pub publish_actuator : Broker → Text → Publication → List Text × Wire → List Text × Wire
unfolding publish_raw
publish_actuator accepts id p (discovered, w) =
    if mem id discovered
    then (discovered, w)
    else (let (taken, w') = publish_raw accepts p w in
        ((if taken then id ∷ discovered else discovered), w'))

-- `publishHAButtons`, from the index of the first button on.
unfoldable pub publish_ha_buttons :
    Broker → Settings → ℕ → List HaActuatorButton → List Text × Wire → List Text × Wire
unfolding publish_actuator
publish_ha_buttons accepts c i [] s = s
publish_ha_buttons accepts c i (btn ∷ rest) s =
    publish_ha_buttons accepts c (suc i) rest
      (publish_actuator accepts (button_id i) (button_publication c i btn) s)

-- `publishHASwitches`
unfoldable pub publish_ha_switches :
    Broker → Settings → ℕ → List HaActuatorSwitch → List Text × Wire → List Text × Wire
unfolding publish_actuator
publish_ha_switches accepts c i [] s = s
publish_ha_switches accepts c i (sw ∷ rest) s =
    publish_ha_switches accepts c (suc i) rest
      (publish_actuator accepts (switch_id i) (switch_publication c i sw) s)

-- `publishHAActuators`
unfoldable pub publish_ha_actuators : Broker → Settings → Core → Core
unfolding publish_ha_buttons publish_ha_switches
publish_ha_actuators accepts c s =
    let (discovered, w) =
      publish_ha_switches accepts c 0 c.options.ha_switches
        (publish_ha_buttons accepts c 0 c.options.ha_buttons (s.discovered, s.wire)) in
    if c.home_assistant_discovery then record s { discovered = discovered; wire = w } else s

-- `ClearHADiscovery`
unfoldable pub clear_ha_discovery : Broker → Settings → Core → Core
unfolding publish_ha_actuators
clear_ha_discovery accepts c s = publish_ha_actuators accepts c (record s { discovered = [] })
