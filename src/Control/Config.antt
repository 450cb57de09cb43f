-- ===== src/Control/Config.antt =====
-- src/controlobject.cpp: the general fields and the MQTT block of readJSON. The JSON library and the
-- client's initFromJson are arguments.
use vscp_mqtt_daemon.Prelude.{Bool, not, ◌&&◌, ◌++◌, Text, bytes, length, ◌==◌, if◌then◌else◌}
use vscp_mqtt_daemon.Control.Json.{JsonClass, Outcome, done, refused, thrown, and_then}

pub record General : Type 0 where
  pub run_as_user : Text
  pub guid : Text
  pub server_name : Text
  pub class_type_db : Text
  pub main_db : Text

pub record Topics : Type 0 where
  pub daemon_base : Text
  pub drivers : Text
  pub discovery : Text

-- The topics that the constructor sets.
unfoldable pub default_topics : Topics
default_topics =
    let base = bytes "vscp-daemon/{{srvguid}}/" in
    record {
      daemon_base = base;
      drivers = base ++ bytes "drivers";
      discovery = base ++ bytes "discovery";
    }

module _ (C : JsonClass) where
  -- A field that must be there; what `get` throws is caught.
  unfoldable pub mandatory : Text → C.J → Outcome Text
  mandatory key j =
      if C.contains_key key j && C.is_string (C.at key j)
      then done (C.text_of (C.at key j))
      else refused

  -- The fields in front of the logging block. Whether the key can be read from its file is only
  -- logged.
  unfoldable pub read_general : C.J → Outcome General
  unfolding mandatory
  read_general j = and_then (mandatory (bytes "runasuser") j) (λ user.
      and_then (mandatory (bytes "guid") j) (λ guid.
        and_then (mandatory (bytes "servername") j) (λ name.
          and_then (mandatory (bytes "classtypedb") j) (λ types.
            and_then (mandatory (bytes "maindb") j) (λ main.
              if C.contains_key (bytes "vscpkey") j && not (C.is_string (C.at (bytes "vscpkey") j))
              then refused
              else done (record {
                run_as_user = user;
                guid = guid;
                server_name = name;
                class_type_db = types;
                main_db = main;
              }))))))

  -- A field that is read if it is there; what `get` throws is not caught.
  unfoldable pub optional : Text → Text → C.J → Outcome Text
  optional key default j =
      if C.contains_key key j
      then if C.is_string (C.at key j) then done (C.text_of (C.at key j)) else thrown
      else done default

  -- The MQTT block; `init_from_json` says whether the client takes the configuration.
  unfoldable pub read_mqtt : (C.J → Bool) → C.J → Topics → Outcome Topics
  unfolding optional
  read_mqtt init_from_json j t =
      let m = C.at (bytes "mqtt") j in
      if C.contains_key (bytes "mqtt") j && C.is_object m
      then if init_from_json m
        then and_then (optional (bytes "topic-daemon-base") t.daemon_base m) (λ base.
          and_then (optional (bytes "topic-drivers") t.drivers m) (λ drivers.
            and_then (optional (bytes "topic-discovery") t.discovery m) (λ discovery.
              if length base == 0
              then done (record { daemon_base = base; drivers = drivers; discovery = discovery })
              else done (record {
                daemon_base = base;
                drivers = base ++ drivers;
                discovery = base ++ discovery;
              }))))
        else refused
      else done t
