-- ===== src/Control/ReadJson.antt =====
-- src/controlobject.cpp: readEncryptionKey, readJSON as a whole, and readConfiguration.
use vscp_mqtt_daemon.Prelude.{
  ◌&&◌, ℕ, Bool, false, List, [], Option, none, some, Text, bytes, ◌==◌, if◌then◌else◌,
}
use vscp_mqtt_daemon.Control.Json.{JsonClass, Outcome, done, refused, and_then}
use vscp_mqtt_daemon.Control.Config.{General, Topics, default_topics, read_general, read_mqtt}
use vscp_mqtt_daemon.Control.Logging.{Logging, default_logging, read_logging}
use vscp_mqtt_daemon.Control.Drivers.{Helpers, Drivers, read_drivers}

-- The contents of a file, none if reading it throws; vscp_hexStr2ByteArray, with the array before and
-- after; and vscp_makeLower.
pub record Files : Type 0 where
  pub contents : Text → Option Text
  pub hex_to_bytes : Text → List ℕ → ℕ × List ℕ
  pub make_lower : Text → Text

-- The result, and `__vscp_key` afterwards.
unfoldable pub read_encryption_key : Files → Text → List ℕ → Bool × List ℕ
read_encryption_key f path key = elim (f.contents path) [
  | none ↦ (false, key)
  | some text ↦ let (n, key') = f.hex_to_bytes text key in (n == 32, key')
]

-- The path of the key; empty if the configuration has none.
unfoldable pub key_path : (C : JsonClass) → C.J → Text
key_path C j =
    if C.contains_key (bytes "vscpkey") j then C.text_of (C.at (bytes "vscpkey") j) else []

-- What readJSON sets besides the general fields.
pub record Values (C : JsonClass) : Type 0 where
  pub key : List ℕ
  pub logging : Logging
  pub topics : Topics
  pub drivers : Drivers C

-- What the constructor sets, with the key of the program.
unfoldable pub default_values : (C : JsonClass) → List ℕ → Values C
default_values C key = record {
  key = key;
  logging = default_logging;
  topics = default_topics;
  drivers = record { devices = []; configured = [] };
}

-- How the constructor makes its two mutexes, and the memory of the object before.
pub record Birth : Type 0 where
  pub list_mutex : Bool
  pub discovery_mutex : Bool
  pub memory : Logging

-- Log settings that the constructor does not set: the texts are empty, the rest is what the memory
-- holds.
unfoldable pub unset_logging : Logging → Logging
unset_logging m = record {
  file = record m.file { pattern = []; path = [] };
  console = record m.console { pattern = [] };
  sys = record m.sys { ident = [] };
  udp = record m.udp { pattern = []; host = [] };
}

-- What a new control object holds. A mutex that cannot be made lets the constructor return before it
-- sets anything of this.
unfoldable pub new_values : (C : JsonClass) → Birth → List ℕ → Values C
unfolding default_values unset_logging
new_values C b key = if b.list_mutex && b.discovery_mutex then default_values C key else record {
  key = key;
  logging = unset_logging b.memory;
  topics = record { daemon_base = []; drivers = []; discovery = [] };
  drivers = record { devices = []; configured = [] };
}

pub record Read (C : JsonClass) : Type 0 where
  pub general : General
  pub values : Values C

module _ (C : JsonClass) (f : Files) (h : Helpers) (init_main init_driver : C.J → Bool) where
  -- `init_main` is the initFromJson of the daemon's own client, `init_driver` that of a driver's.
  unfoldable pub read_json : C.J → Values C → Outcome (Read C)
  unfolding read_general read_mqtt read_drivers read_logging read_encryption_key key_path
  read_json j v = and_then (read_general C j) (λ general.
      and_then (read_mqtt C init_main j v.topics) (λ topics.
        and_then (read_drivers C h init_driver j v.drivers) (λ drivers. done (record {
          general = general;
          values = record {
            key = (read_encryption_key f (key_path C j) v.key).1;
            logging = read_logging C f.make_lower j v.logging;
            topics = topics;
            drivers = drivers;
          };
        }))))

  -- `parsed` says what the parser makes of a file, none if it throws.
  unfoldable pub read_configuration : (Text → Option C.J) → Text → Values C → Outcome (Read C)
  unfolding read_json
  read_configuration parsed file v = elim (parsed file) [ none ↦ refused | some j ↦ read_json j v ]
