-- ===== src/Publisher/Broker.antt =====
-- What goes to the MQTT broker: `publishRaw` of rflink/publisher.go, and the types of
-- rflink/home_assistant.go. The broker is a parameter: whether it takes a publication may depend
-- on all that was tried before. A payload that the source encodes as JSON is the value itself.
use go_rflink.Prelude.{ℕ, ◌≡◌, Bool, true, false, Option, List, [], ◌∷◌, ◌++◌}
use go_rflink.Prelude.Text.{Text}
use go_rflink.Sensor.{SensorData}
use go_rflink.Sensor.Gateway.{GatewayInfo}
use go_rflink.Publisher.Health.{HealthSnapshot}

pub record HaEntitySpec : Type 0 where
  pub component : Text
  pub object_suffix : Text
  pub name_suffix : Text
  pub device_class : Text
  pub unit : Text
  pub state_class : Text
  pub payload_on : Text
  pub payload_off : Text
  pub off_delay : Option ℕ

pub record HaDiscoveryPayload : Type 0 where
  pub name : Text
  pub object_id : Text
  pub unique_id : Text
  pub state_topic : Text
  pub device_class : Text
  pub unit : Text
  pub state_class : Text
  pub payload_on : Text
  pub payload_off : Text
  pub off_delay : Option ℕ
  pub availability_topic : Text
  pub json_attributes_topic : Text
  pub identifier : Text
  pub device_name : Text
  pub model : Text

-- What a button or a switch sends.
pub data Presses : Type 0 where
  press : Text → Presses
  on_off : Text → Text → Presses

-- The map of `publishHAButtons` and `publishHASwitches`, less what is the same in all of them: the
-- words online and offline, the device of the gateway, and `optimistic` for a switch.
pub record HaActuatorPayload : Type 0 where
  pub name : Text
  pub unique_id : Text
  pub command_topic : Text
  pub payload : Presses
  pub availability_topic : Text

pub data Payload : Type 0 where
  text : Text → Payload
  sensor : SensorData → Payload
  entity : HaDiscoveryPayload → Payload
  gateway : GatewayInfo → Payload
  health : HealthSnapshot → Payload
  actuator : HaActuatorPayload → Payload

pub record Publication : Type 0 where
  pub topic : Text
  pub payload : Payload
  pub retain : Bool

-- What was tried, the latest first, with the broker's answer.
abbrev pub Wire : Type 0
Wire = List (Publication × Bool)

abbrev pub Broker : Type 0
Broker = Wire → Publication → Bool

unfoldable pub publish_raw : Broker → Publication → Wire → Bool × Wire
publish_raw accepts p w = (accepts w p, (p, accepts w p) ∷ w)

-- The publications, all of them taken.
abbrev pub accepted : List Publication → Wire → Wire
accepted [] w = w
accepted (p ∷ ps) w = accepted ps ((p, true) ∷ w)

-- The broker takes each of them, in turn.
abbrev pub TakesAll : Broker → List Publication → Wire → Type 0
TakesAll accepts [] w = Unit
TakesAll accepts (p ∷ ps) w = (accepts w p ≡ true) × TakesAll accepts ps ((p, true) ∷ w)

-- The broker takes the first of them and refuses the next, which is the last that is tried.
pub record StopsAt (accepts : Broker) (ps : List Publication) (w w' : Wire) : Type 0 where
  pub before : List Publication
  pub refused : Publication
  pub after : List Publication
  pub stands : ps ≡ before ++ refused ∷ after
  pub takes : TakesAll accepts before w
  pub refuses : accepts (accepted before w) refused ≡ false
  pub wire : w' ≡ (refused, false) ∷ accepted before w
