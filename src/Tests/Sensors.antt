-- ===== src/Tests/Sensors.antt =====
-- Messages of sensors, with tables that leave every character outside ASCII as it is.
use go_rflink.Prelude.{◌≡◌, refl, ◌⊎◌, true, false, none, some, List, [], ◌∷◌}
use go_rflink.Prelude.Text.{Text, codes, is_empty}
use go_rflink.Strings.{Unicode, trim_space, split, cut}
use go_rflink.Strings.Numbers.{parse_digits, parse_uint16}
use go_rflink.Sensor.{SensorData, ok, blank, read_field, sensor_data_from_message}
use go_rflink.Sensor.Parse.{collect, Describes, sensor_data_from_message_sound}
use go_rflink.Sensor.Gateway.{
  GatewayInfo, parse_gateway_message, says_pong, some_piece, is_reply, parse_gateway_message_lem,
}

abbrev ascii_only : Unicode
ascii_only = record {
  upper = λ c. c;
  lower = λ c. c;
  fold = λ c. c;
  is_letter = λ c. false;
  is_digit = λ c. false;
}

abbrev oregon : Text
oregon = codes "20;2D;Oregon;ID=2D;TEMP=00be;HUM=40;SWITCH=2;CMD=on;"

abbrev oregon_data : SensorData
oregon_data = record {
  hwid = codes "OREGON_2D";
  model = codes "Oregon";
  id = codes "2D";
  friendly_name = [];
  temperature = some 190;
  temp_raw = codes "00be";
  humidity = some 40;
  bat = [];
  switch = codes "2";
  cmd = codes "on";
  extra = [];
  timestamp = 7;
  received_at = 7;
}

oregon_parses : sensor_data_from_message ⦃u = ascii_only⦄ 7 oregon ≡ ok oregon_data
unfolding sensor_data_from_message trim_space split read_field cut parse_uint16 parse_digits
oregon_parses = refl

sensor_data_from_message_sound_example :
    (a : Text) × (b : Text) × (model : Text) × (fields : List Text) × (seen : List (Text × Text))
    × (split b';' (trim_space oregon) ≡ a ∷ b ∷ model ∷ fields)
    × (collect ⦃u = ascii_only⦄ fields [] ≡ some seen)
    × Describes ⦃u = ascii_only⦄ seen oregon_data
    × (is_empty oregon_data.id ≡ false)
    × (oregon_data.model ≡ (blank model 7).model)
sensor_data_from_message_sound_example =
    sensor_data_from_message_sound ⦃u = ascii_only⦄ 7 oregon oregon_data oregon_parses

parse_gateway_message_lem_example :
    ((parse_gateway_message ⦃u = ascii_only⦄ 7 (codes "20;99;PONG;") ≡ none)
      × (is_reply ⦃u = ascii_only⦄ (trim_space (codes "20;99;PONG;")) ≡ false))
    ⊎ ((info : GatewayInfo) × (parse_gateway_message ⦃u = ascii_only⦄ 7 (codes "20;99;PONG;")
          ≡ some info)
        × (is_reply ⦃u = ascii_only⦄ (trim_space (codes "20;99;PONG;")) ≡ true)
        × (info.pong
            ≡ some_piece ⦃u = ascii_only⦄
                (says_pong ⦃u = ascii_only⦄)
                (split b';' (trim_space (codes "20;99;PONG;")))))
parse_gateway_message_lem_example =
    parse_gateway_message_lem ⦃u = ascii_only⦄ 7 (codes "20;99;PONG;")
