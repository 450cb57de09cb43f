-- ===== src/DeviceList.antt =====
-- src/devicelist.cpp: the class CDeviceList. Items are created by `new` and never removed before
-- the list is destroyed, so that the position of an item stands for its pointer, and no entry is
-- NULL. `vscp_fileExists`, the GUID of a new cguid and `cguid::operator==` are arguments.
pub mod Lookup
pub mod Count
pub mod Configured
use vscp_mqtt_daemon.Prelude.{
  ℕ, zero, suc, ◌+◌, ◌%◌, Bool, true, false, ◌&&◌, List, [], ◌∷◌, ◌++◌, Option, none, some, Text,
  text_eq, ◌==◌, if◌then◌else◌,
}
use vscp_mqtt_daemon.Device.{
  Guid, DeviceItem, ClientSettings, new_device_item, new_client, driver_level1, driver_level2,
}

-- The arguments of addItem behind the control object.
pub record NewItem : Type 0 where
  pub name : Text
  pub parameter : Text
  pub path : Text
  pub flags : ℕ
  pub guid : Guid
  pub level : ℕ
  pub translation : ℕ

-- What addItem needs from outside: the file system, a new cguid, and the control object's GUID.
pub record Site : Type 0 where
  pub file_exists : Text → Bool
  pub nil_guid : Guid
  pub server_guid : Guid

-- The item that addItem fills in.
unfoldable pub filled_item : Site → NewItem → DeviceItem
filled_item s a = record (new_device_item s.nil_guid) {
  enable = true;
  driver_level = a.level;
  name = a.name;
  parameter = a.parameter;
  path = a.path;
  guid = a.guid;
  client = record new_client { if_guid = some a.guid; srv_guid = some s.server_guid };
  translation = a.translation;
  device_flags = a.flags;
}

unfoldable pub add_item : Site → NewItem → List DeviceItem → List DeviceItem × Bool
add_item s a ds = if s.file_exists a.path then (ds ++ (filled_item s a ∷ []), true) else (ds, false)

-- removeItem does nothing and reports success.
unfoldable pub remove_item : ℕ → List DeviceItem → List DeviceItem × Bool
remove_item id ds = (ds, true)

-- The loop with `break` of the two lookups, from position `i` on.
unfoldable pub find_from : (DeviceItem → Bool) → ℕ → List DeviceItem → Option ℕ
find_from test i [] = none
find_from test i (d ∷ ds) = let rest = find_from test (suc i) ds in if test d then some i else rest

unfoldable pub get_device_item_from_guid : (Guid → Guid → Bool) → Guid → List DeviceItem → Option ℕ
get_device_item_from_guid same g ds = find_from (λ d. same d.guid g) 0 ds

unfoldable pub get_device_item_from_name : Text → List DeviceItem → Option ℕ
get_device_item_from_name n ds = find_from (λ d. text_eq d.name n) 0 ds

-- The `switch` on the type, by which an enabled driver counts; `count` is a uint16_t.
unfoldable pub count_enabled : ℕ → DeviceItem → ℕ → ℕ
count_enabled type d count =
    if type == 0
    then (count + 1) % 65536
    else if type == driver_level1
    then if d.driver_level == 0 then count else (count + 1) % 65536
    else if type == driver_level2
    then if d.driver_level == 0 then count else (count + 1) % 65536
    else count

-- One round of getCountDrivers: the same test stands on both branches of `bOnlyActive`.
unfoldable pub count_round : ℕ → Bool → DeviceItem → ℕ → ℕ
unfolding count_enabled
count_round type only_active d count =
    if only_active
    then if d.enable then count_enabled type d count else count
    else if d.enable
    then count_enabled type d count
    else count

unfoldable pub count_from : ℕ → Bool → List DeviceItem → ℕ → ℕ
count_from type only_active [] count = count
count_from type only_active (d ∷ ds) count =
    count_from type only_active ds (count_round type only_active d count)

unfoldable pub get_count_drivers : ℕ → Bool → List DeviceItem → ℕ
unfolding count_from count_round
get_count_drivers type only_active ds = count_from type only_active ds 0
