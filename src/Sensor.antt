-- ===== src/Sensor.antt =====
-- rflink/sensor_data.go: messages of sensors. A temperature is kept in tenths of a degree, the
-- number that the message carries; the source divides it by ten into a float32, which tells any two
-- of these numbers apart. Times are the readings of the clock that the source formats.
pub mod Parse
pub mod Fields
pub mod Gateway
pub mod Decimal
use go_rflink.Prelude.{
  ℕ, ◌+◌, Bool, true, false, not, ◌≡◌, refl, Option, none, some, List, [], ◌∷◌, ◌++◌, if◌then◌else◌,
}
use go_rflink.Prelude.Text.{Text, codes, text_eq, is_empty}
use go_rflink.Prelude.Maps.{insert}
use go_rflink.Strings.{Unicode, trim_space, split, cut, replace_all, to_upper, to_lower}
use go_rflink.Strings.Numbers.{parse_uint16}

pub record SensorData : Type 0 where
  pub hwid : Text
  pub model : Text
  pub id : Text
  pub friendly_name : Text
  pub temperature : Option ℕ
  pub temp_raw : Text
  pub humidity : Option ℕ
  pub bat : Text
  pub switch : Text
  pub cmd : Text
  pub extra : List (Text × Text)
  pub timestamp : ℕ
  pub received_at : ℕ

pub data SensorError : Type 0 where
  empty_message too_short invalid_field bad_temperature bad_humidity no_id : SensorError

pub data Result {ℓ} (A : Type ℓ) : Type ℓ where
  ok : A → Result A
  err : SensorError → Result A

infixl 5 ◌>>=◌
abbrev pub ◌>>=◌ {ℓ κ} : {A : Type ℓ} {B : Type κ} → Result A → (A → Result B) → Result B
ok a >>= f = f a
err e >>= f = err e

abbrev pub or_fail {ℓ} : {A : Type ℓ} → Option A → SensorError → Result A
or_fail none e = err e
or_fail (some a) e = ok a

-- When two steps in turn accept, the first one accepts.
pub accepts_first :
    {sd : SensorData} (next : SensorData → Result SensorData) (first : Result SensorData)
    → first >>= next ≡ ok sd
    → (mid : SensorData) × (first ≡ ok mid) × (next mid ≡ ok sd)
accepts_first next (ok mid) whole = (mid, refl, whole)
accepts_first next (err why) whole = cc

-- The record before the loop over the fields.
abbrev pub blank : Text → ℕ → SensorData
blank model now = record {
  hwid = [];
  model = replace_all b' ' b'_' (trim_space model);
  id = [];
  friendly_name = [];
  temperature = none;
  temp_raw = [];
  humidity = none;
  bat = [];
  switch = [];
  cmd = [];
  extra = [];
  timestamp = now;
  received_at = now;
}

-- The keys of `knownFieldKeys`, by the case that handles them.
pub data Key : Type 0 where
  id temp hum bat switch cmd unknown : Key

unfoldable pub key_of : Text → Key
key_of k =
    if text_eq k (codes "ID")
    then Key.id
    else if text_eq k (codes "TEMP")
    then Key.temp
    else if text_eq k (codes "HUM")
    then Key.hum
    else if text_eq k (codes "BAT")
    then Key.bat
    else if text_eq k (codes "SWITCH")
    then Key.switch
    else if text_eq k (codes "CMD")
    then Key.cmd
    else Key.unknown

module _ ⦃u : Unicode⦄ where
  abbrev pub field_topic_name : Text → Text
  field_topic_name key = to_lower (trim_space key)

  -- The `switch key` of the loop, with the case of an unknown key above it.
  unfoldable pub set_known : Key → Text → Text → SensorData → Result SensorData
  set_known Key.id key value sd =
      ok (record sd { id = value; hwid = to_upper (sd.model ++ b'_' ∷ value) })
  set_known Key.temp key value sd = do
    t ← or_fail (parse_uint16 value 16) bad_temperature
    ok (record sd { temp_raw = value; temperature = some t })
  set_known Key.hum key value sd = do
    h ← or_fail (parse_uint16 value 10) bad_humidity
    ok (record sd { humidity = some h })
  set_known Key.bat key value sd = ok (record sd { bat = value })
  set_known Key.switch key value sd = ok (record sd { switch = value })
  set_known Key.cmd key value sd = ok (record sd { cmd = value })
  set_known Key.unknown key value sd =
      ok (record sd { extra = insert (field_topic_name key) value sd.extra })

  -- The key and value of a piece, in the form that the loop uses.
  abbrev pub key_value : Text × Text → Text × Text
  key_value (k, v) = (to_upper (trim_space k), trim_space v)

  set_pair : Option (Text × Text) → SensorData → Result SensorData
  unfolding set_known key_of
  set_pair none sd = err invalid_field
  set_pair (some kv) sd = let (key, value) = key_value kv in set_known (key_of key) key value sd

  -- One round of the loop.
  unfoldable pub read_field : Text → SensorData → Result SensorData
  unfolding set_pair
  read_field raw sd =
      let piece = trim_space raw in if is_empty piece then ok sd else set_pair (cut b'=' piece) sd

  unfoldable pub read_fields : List Text → SensorData → Result SensorData
  read_fields [] sd = ok sd
  read_fields (p ∷ ps) sd = read_field p sd >>= read_fields ps

  require_id : SensorData → Result SensorData
  require_id sd = if is_empty sd.id then err no_id else ok sd

  read_pieces : ℕ → List Text → Result SensorData
  unfolding read_fields require_id
  read_pieces now (a ∷ b ∷ model ∷ fields) = read_fields fields (blank model now) >>= require_id
  read_pieces now _ = err too_short

  -- `SensorDataFromMessage` at time `now`.
  unfoldable pub sensor_data_from_message : ℕ → Text → Result SensorData
  unfolding read_pieces
  sensor_data_from_message now raw =
      let msg = trim_space raw in
      if is_empty msg then err empty_message else read_pieces now (split b';' msg)

abbrev pub topic_id : SensorData → Text
topic_id sd = if not (is_empty sd.hwid) then sd.hwid else sd.id

-- `StripEventFields`
unfoldable pub strip_event_fields : SensorData → SensorData
strip_event_fields sd = record sd { cmd = []; switch = [] }
