-- ===== src/Event.antt =====
-- The events that the device threads of src/devicethread.cpp pass on, and the translations on the
-- way. The structures `vscpEvent` and `canalMsg` and the functions of vscphelper are not in the
-- repository: the structures are records of the fields that the code uses, and the functions are
-- the parameter `Vscp`.
pub mod Translate
pub mod Stamp
pub mod Payload
use vscp_mqtt_daemon.Prelude.{ℕ, Option, List, [], replicate, ℤ, Bool}
use vscp_mqtt_daemon.Device.{Guid}

-- `vscpEvent`; vscp_class and size_data are uint16_t. `data` are the bytes behind `pdata`.
pub record VscpEvent : Type 0 where
  pub head : ℕ
  pub obid : ℕ
  pub year : ℕ
  pub month : ℕ
  pub day : ℕ
  pub hour : ℕ
  pub minute : ℕ
  pub second : ℕ
  pub timestamp : ℕ
  pub timestamp_ns : ℕ
  pub vscp_class : ℕ
  pub vscp_type : ℕ
  pub guid : Guid
  pub size_data : ℕ
  pub bytes_at : List ℕ

-- `canalMsg`
pub record CanalMsg : Type 0 where
  pub flags : ℕ
  pub obid : ℕ
  pub id : ℕ
  pub size_data : ℕ
  pub bytes_of : List ℕ
  pub timestamp : ℕ

-- The functions and constants of vscp.h and vscphelper.h that the threads use.
pub record Vscp : Type 0 where
  -- VSCP_HEADER16_FRAME_VERSION_MASK and VSCP_HEADER16_FRAME_VERSION_UNIX_NS
  pub frame_version_mask : ℕ
  pub frame_version_unix_ns : ℕ
  -- vscp_convertCanalToEvent fills in an event, or fails.
  pub convert_canal_to_event : VscpEvent → CanalMsg → Guid → Option VscpEvent
  pub convert_event_to_canal : VscpEvent → Option CanalMsg
  -- vscp_convertLevel1MeasurementToLevel2Double and …String
  pub measurement_to_double : VscpEvent → VscpEvent
  pub measurement_to_string : VscpEvent → VscpEvent
  -- vscp_to_unix_ns, from the year, month, day, hour, minute, second and timestamp
  pub to_unix_ns : ℕ → ℕ → ℕ → ℕ → ℕ → ℕ → ℕ → ℤ

-- An event after `memset(&ev, 0, sizeof(vscpEvent))`.
abbrev pub zero_event : VscpEvent
zero_event = record {
  head = 0;
  obid = 0;
  year = 0;
  month = 0;
  day = 0;
  hour = 0;
  minute = 0;
  second = 0;
  timestamp = 0;
  timestamp_ns = 0;
  vscp_class = 0;
  vscp_type = 0;
  guid = replicate 16 0;
  size_data = 0;
  bytes_at = [];
}
