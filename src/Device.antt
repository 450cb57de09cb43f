-- ===== src/Device.antt =====
-- src/devicelist.h and src/devicelist.cpp: one configured driver, the class CDeviceItem.
pub mod Lifecycle
pub mod Locks
pub mod Shutdown
pub mod Print
pub mod Fields
use vscp_mqtt_daemon.Prelude.{ℕ, Bool, true, false, List, [], Option, none, Text, ℤ, pos}

-- The bytes of a `cguid`, most significant first.
abbrev pub Guid : Type 0
Guid = List ℕ

-- `_driver_levels`
abbrev pub driver_level1 : ℕ
driver_level1 = 1

abbrev pub driver_level2 : ℕ
driver_level2 = 2

-- NO_TRANSLATION and the bits of `m_translation`.
abbrev pub no_translation : ℕ
no_translation = 0

abbrev pub out_tr_m1_m2f : ℕ
out_tr_m1_m2f = 0x01

abbrev pub out_tr_m1_m2s : ℕ
out_tr_m1_m2s = 0x02

abbrev pub out_tr_all_l2 : ℕ
out_tr_all_l2 = 0x04

-- The function pointers that are filled from the driver's shared library, named by its symbols.
pub data Proc : Type 0 where
  canal_open canal_close canal_get_level canal_send canal_data_available canal_receive : Proc
  canal_get_status canal_get_statistics canal_set_filter canal_set_mask canal_get_version : Proc
  canal_get_dll_version canal_get_vendor_string : Proc
  canal_blocking_send canal_blocking_receive canal_get_driver_info : Proc
  vscp_open vscp_close vscp_write vscp_read vscp_get_version : Proc

-- What the daemon has told the item's `vscpClientMqtt`.
pub record ClientSettings : Type 0 where
  pub if_guid : Option Guid
  pub srv_guid : Option Guid
  pub user_escapes : List (Text × Text)
  pub has_token_maps : Bool
  pub has_callback : Bool

pub record DeviceItem : Type 0 where
  pub name : Text
  pub parameter : Text
  pub path : Text
  pub driver_level : ℕ
  pub enable : Bool
  pub active : Bool
  pub quit : Bool
  pub guid : Guid
  pub thread_started : Bool
  pub device_flags : ℕ
  pub translation : ℕ
  pub json_measurement_add : Bool
  pub open_handle : ℤ
  -- The pointers that are not NULL.
  pub procs : List Proc
  pub client : ClientSettings

-- A client of which nothing has been asked yet.
abbrev pub new_client : ClientSettings
new_client = record {
  if_guid = none;
  srv_guid = none;
  user_escapes = [];
  has_token_maps = false;
  has_callback = false;
}

-- The constructor; `nil` is the value that the class cguid gives a new GUID.
abbrev pub new_device_item : Guid → DeviceItem
new_device_item nil = record {
  name = [];
  parameter = [];
  path = [];
  driver_level = 0;
  enable = false;
  active = true;
  quit = false;
  guid = nil;
  thread_started = false;
  device_flags = 0;
  translation = no_translation;
  json_measurement_add = false;
  open_handle = pos 0;
  procs = [];
  client = new_client;
}
