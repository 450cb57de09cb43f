-- ===== src/Control/Drivers.antt =====
-- src/controlobject.cpp: the drivers block of readJSON. The JSON library, the functions of
-- vscphelper, and the clients' initFromJson are arguments.
use vscp_mqtt_daemon.Prelude.{
  ℕ, ◌%◌, Bool, false, ◌&&◌, List, [], ◌∷◌, ◌++◌, none, some, Text, bytes, if◌then◌else◌,
}
use vscp_mqtt_daemon.Device.{Guid, DeviceItem, driver_level1, driver_level2, no_translation}
use vscp_mqtt_daemon.DeviceList.{NewItem, Site, add_item, get_device_item_from_name}
use vscp_mqtt_daemon.Control.Json.{JsonClass, Outcome, done, refused, thrown, and_then}

-- What the drivers block needs from outside: what addItem needs, the GUID of a text, and
-- vscp_readStringValue.
pub record Helpers : Type 0 where
  pub site : Site
  pub guid_of_text : Text → Guid
  pub read_string_value : Text → ℕ

module _ (C : JsonClass) where
  -- The drivers, and the client configurations: the item's position, and the value.
  pub record Drivers : Type 0 where
    pub devices : List DeviceItem
    pub configured : List (ℕ × C.J)

module _ (C : JsonClass) (h : Helpers) (init_from_json : C.J → Bool) where
  abbrev field_is_string : C.J → Text → Bool
  field_is_string e key = C.is_string (C.at key e)

  abbrev pub has_level1_fields : C.J → Bool
  has_level1_fields e =
      field_is_string e (bytes "name")
      && (field_is_string e (bytes "config")
          && (field_is_string e (bytes "path")
              && (field_is_string e (bytes "guid") && C.is_number (C.at (bytes "translation") e))))

  abbrev pub has_level2_fields : C.J → Bool
  has_level2_fields e =
      field_is_string e (bytes "name")
      && (field_is_string e (bytes "path-config")
          && (field_is_string e (bytes "path-driver") && field_is_string e (bytes "guid")))

  abbrev flags_of : C.J → ℕ
  flags_of v =
      if C.is_number v
      then C.number_of v % 4294967296
      else if C.is_string v
      then h.read_string_value (C.text_of v)
      else 0

  unfoldable pub level1_item : C.J → NewItem
  level1_item e = record {
    name = C.text_of (C.at (bytes "name") e);
    parameter = C.text_of (C.at (bytes "config") e);
    path = C.text_of (C.at (bytes "path") e);
    flags = flags_of (C.at (bytes "flags") e);
    guid = h.guid_of_text (C.text_of (C.at (bytes "guid") e));
    level = driver_level1;
    translation = C.number_of (C.at (bytes "translation") e) % 256;
  }

  unfoldable pub level2_item : C.J → NewItem
  level2_item e = record {
    name = C.text_of (C.at (bytes "name") e);
    parameter = C.text_of (C.at (bytes "path-config") e);
    path = C.text_of (C.at (bytes "path-driver") e);
    flags = 0;
    guid = h.guid_of_text (C.text_of (C.at (bytes "guid") e));
    level = driver_level2;
    translation = no_translation;
  }

  -- The client of the driver with the entry's name is configured.
  unfoldable pub configure : C.J → Text → Drivers C → Outcome (Drivers C)
  configure e name s =
      let m = C.at (bytes "mqtt") e in
      if C.contains_key (bytes "mqtt") e && C.is_object m
      then elim (get_device_item_from_name name s.devices) [
        | none ↦ done s
        | some i ↦
            if init_from_json m
            then done (record s { configured = s.configured ++ ((i, m) ∷ []) })
            else refused
      ]
      else done s

  unfoldable pub add_entry : C.J → NewItem → Drivers C → Outcome (Drivers C)
  unfolding configure
  add_entry e item s =
      let (devices, added) = add_item h.site item s.devices in
      if added
      then configure e item.name (record s { devices = devices })
      else done (record s { devices = devices })

  -- The loop over the entries of a level. An entry is skipped unless it is enabled and has all the
  -- fields.
  unfoldable pub read_entries :
      (C.J → Bool) → (C.J → NewItem) → List C.J → Drivers C → Outcome (Drivers C)
  unfolding add_entry
  read_entries has_fields item_of [] s = done s
  read_entries has_fields item_of (e ∷ es) s = elim (C.bool_value (bytes "enable") false e) [
    | none ↦ thrown
    | some enabled ↦
        and_then (if enabled && has_fields e then add_entry e (item_of e) s else done s)
          (read_entries has_fields item_of es)
  ]

  -- A level is read unless it is a JSON object.
  unfoldable pub read_level :
      Text → (C.J → Bool) → (C.J → NewItem) → C.J → Drivers C → Outcome (Drivers C)
  unfolding read_entries
  read_level key has_fields item_of drivers s =
      if C.contains_key key drivers && C.is_object (C.at key drivers)
      then done s
      else read_entries has_fields item_of (C.elements (C.at key drivers)) s

  unfoldable pub read_drivers : C.J → Drivers C → Outcome (Drivers C)
  unfolding read_level level1_item level2_item
  read_drivers j s =
      let d = C.at (bytes "drivers") j in
      if C.contains_key (bytes "drivers") j && C.is_object d
      then and_then (read_level (bytes "level1") has_level1_fields level1_item d s)
          (read_level (bytes "level2") has_level2_fields level2_item d)
      else done s
