-- ===== src/Tests/Samples.antt =====
-- A driver, its library, messages, and stand-ins for the functions of vscphelper.
use vscp_mqtt_daemon.Prelude.{
  ℕ, ◌/◌, ◌%◌, true, false, List, [], ◌∷◌, Option, none, some, replicate, bytes, pos, ltb,
  if◌then◌else◌, refl, arith,
}
use vscp_mqtt_daemon.Device.{Guid, DeviceItem, new_device_item}
use vscp_mqtt_daemon.Event.{VscpEvent, CanalMsg, Vscp, zero_event}
use vscp_mqtt_daemon.Event.Payload.{IsHelper}
use vscp_mqtt_daemon.Event.Stamp.{IsFrame}
use vscp_mqtt_daemon.DeviceThread.{Poll, stop, quiet, failed, got}
use vscp_mqtt_daemon.DeviceThread.Start.{Library}

abbrev pub server_guid : Guid
server_guid = replicate 16 3

abbrev pub driver_guid : Guid
driver_guid = replicate 16 5

-- An identifier of more than 29 bits is no message.
abbrev convert : VscpEvent → CanalMsg → Guid → Option VscpEvent
convert e m g =
    if ltb m.id 536870912
    then some (record e {
      guid = g;
      vscp_class = m.id / 65536;
      vscp_type = m.id / 256 % 256;
      size_data = 1;
      bytes_at = m.id % 256 ∷ [];
    })
    else none

abbrev pub helper : Vscp
helper = record {
  frame_version_mask = 0x0700;
  frame_version_unix_ns = 0x0100;
  convert_canal_to_event = convert;
  convert_event_to_canal = λ e. none;
  measurement_to_double = λ e. record e { size_data = 8; bytes_at = replicate 8 0 };
  measurement_to_string = λ e. record e { size_data = 2; bytes_at = bytes "42" };
  to_unix_ns = λ y mo d h mi s t. pos 7;
}

pub helper-IsHelper : IsHelper helper
helper-IsHelper = record {
  converted = λ e m g {r} h. ground arith;
  double_sized = λ e h. (refl, omega arith);
  string_sized = λ e h. (refl, omega arith);
  double_source = λ e. (refl, refl);
  string_source = λ e. (refl, refl);
}

pub helper-IsFrame : IsFrame helper
helper-IsFrame = record { mask_fits = omega arith; value_fits = refl }

abbrev pub library : Library
library = record { loads = true; exports = λ p. true; opens = pos 7; connects = true; level = 1 }

-- The same library, with a broker that refuses the connection.
abbrev pub refused : Library
refused = record library { connects = false }

abbrev pub driver : DeviceItem
driver = record (new_device_item (replicate 16 0)) {
  name = bytes "can4vscp";
  path = bytes "/lib/can.so";
  parameter = bytes "/dev/ttyUSB0";
  driver_level = 1;
  enable = true;
  guid = driver_guid;
  translation = 4;
}

abbrev pub driver2 : DeviceItem
driver2 = record driver { name = bytes "lmsensors"; driver_level = 2 }

abbrev pub message : CanalMsg
message = record {
  flags = 1;
  obid = 9;
  id = 657409;
  size_data = 1;
  bytes_of = 1 ∷ [];
  timestamp = 0;
}

abbrev pub event : VscpEvent
event = record zero_event {
  vscp_class = 20;
  vscp_type = 3;
  guid = driver_guid;
  size_data = 3;
  bytes_at = 1 ∷ 2 ∷ 3 ∷ [];
}

abbrev pub polls1 : List (Poll CanalMsg)
polls1 = quiet ∷ got message ∷ failed ∷ got message ∷ stop ∷ got message ∷ []

abbrev pub polls2 : List (Poll (VscpEvent × ℕ))
polls2 = got (event, 1000) ∷ quiet ∷ stop ∷ []
