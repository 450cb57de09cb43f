-- ===== src/Control/MqttLog.antt =====
-- src/controlobject.cpp: the callbacks for mosquitto at the head of the file, which only write to
-- the log. The conversion of a number to text is an argument.
use vscp_mqtt_daemon.Prelude.{
  ℕ, Bool, true, false, ◌&&◌, List, [], ◌∷◌, ◌++◌, Option, none, some, Text, bytes, take, is_some,
  ◌≡◌, arith, if◌then◌else◌,
}

-- A line of the log with its level.
pub data Line : Type 0 where
  trace debug : Text → Line

-- Whether `mosq` and `pData`, the object, are not null, and whether spdlog has a logger named "logger".
pub record Called : Type 0 where
  pub mosq : Bool
  pub object : Bool
  pub logger : Bool

-- A `mosquitto_message`.
pub record Message : Type 0 where
  pub topic : Text
  pub payload : Text
  pub payloadlen : ℕ

abbrev log_if : Bool → Line → List Line
log_if logger l = if logger then l ∷ [] else []

unfoldable pub mqtt_log_callback : Called → Text → List Line
mqtt_log_callback c logmsg =
    if c.mosq
    then if c.object then log_if c.logger (trace (bytes "MQTT log: " ++ logmsg)) else []
    else []

unfoldable pub mqtt_on_connect : Called → List Line
mqtt_on_connect c =
    if c.mosq then if c.object then log_if c.logger (debug (bytes "MQTT connect:")) else [] else []

unfoldable pub mqtt_on_disconnect : Called → List Line
mqtt_on_disconnect c =
    if c.mosq
    then if c.object then log_if c.logger (debug (bytes "MQTT disconnect:")) else []
    else []

-- `none` is the null message.
unfoldable pub mqtt_on_message : Called → Option Message → List Line
mqtt_on_message c none = []
mqtt_on_message c (some m) =
    if c.mosq
    then if c.object
      then log_if c.logger (
          trace (
            bytes "MQTT Message: Topic = ["
            ++ (m.topic ++ (bytes "] - Payload: [" ++ (take m.payloadlen m.payload ++ bytes "]")))))
      else []
    else []

unfoldable pub mqtt_on_publish : (ℕ → Text) → Called → ℕ → List Line
mqtt_on_publish dec c mid =
    if c.mosq
    then if c.object
      then log_if c.logger (trace (bytes "MQTT Publish: message id = " ++ dec mid))
      else []
    else []

-- The callback gets that far.
abbrev all_there : Called → Bool
all_there c = c.mosq && (c.object && c.logger)

abbrev is_one : List Line → Bool
is_one [] = false
is_one (l ∷ []) = true
is_one (l ∷ m ∷ ls) = false

-- Every callback writes one line if its pointers are not null and there is a logger, and nothing
-- otherwise; that for a message needs a message too.
pub callbacks_lem :
    (dec : ℕ → Text) (c : Called) (logmsg : Text) (m : Option Message) (mid : ℕ)
    → (is_one (mqtt_log_callback c logmsg) ≡ all_there c)
      × (is_one (mqtt_on_connect c) ≡ all_there c)
      × (is_one (mqtt_on_disconnect c) ≡ all_there c)
      × (is_one (mqtt_on_message c m) ≡ (all_there c && is_some m))
      × (is_one (mqtt_on_publish dec c mid) ≡ all_there c)
unfolding mqtt_log_callback mqtt_on_connect mqtt_on_disconnect mqtt_on_message mqtt_on_publish
callbacks_lem dec c logmsg m mid = ground arith
