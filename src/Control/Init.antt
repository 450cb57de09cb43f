-- ===== src/Control/Init.antt =====
-- src/controlobject.cpp: `init`, over the parts that read the configuration, the tokens and the
-- discovery database; the log sinks, the change of the user, and the GUID. `init` starts on a new
-- object.
use vscp_mqtt_daemon.Prelude.{
  ℕ, Bool, not, List, [], ◌∷◌, ◌++◌, Option, none, some, Text, bytes, length, ◌==◌, if◌then◌else◌,
}
use vscp_mqtt_daemon.Discovery.{Sqlite, Registry}
use vscp_mqtt_daemon.Discovery.Database
use vscp_mqtt_daemon.Discovery.Database.{init_discovery}
use vscp_mqtt_daemon.Control.Config.{General}
use vscp_mqtt_daemon.Control.Tokens.{TokenDb, Tokens, no_tokens, init_tokens}
use vscp_mqtt_daemon.Control.Address.{GuidClass, get_mac_address, get_ip_address}
use vscp_mqtt_daemon.Control.Json.{JsonClass, Outcome, done, refused, thrown, and_then}
use vscp_mqtt_daemon.Control.Logging.{LogLevel, trace, warn, SysLog, UdpLog, Logging}
use vscp_mqtt_daemon.Control.Drivers.{Helpers}
use vscp_mqtt_daemon.Control.ReadJson.{Files, new_values, Birth, Read, read_configuration}

-- A sink of the logger, with the level that it is given, and the pattern, none if that is left at
-- the default of spdlog.
pub data Sink : Type 0 where
  console_sink : LogLevel → Option Text → Sink
  file_sink : (path : Text) (max_size max_files : ℕ) → LogLevel → Option Text → Sink
  sys_sink : (ident : Text) → LogLevel → Sink
  udp_sink : (host : Text) (port : ℕ) → (pattern : Text) → LogLevel → Sink

-- Whether the constructor of a sink returns, or throws.
pub record SinkClass : Type 0 where
  pub file_opens : (path : Text) (max_size max_files : ℕ) → Bool
  pub udp_opens : (host : Text) (port : ℕ) → Bool

unfoldable pub sys_sinks : SysLog → List Sink
sys_sinks s = if s.enabled then sys_sink s.ident s.level ∷ [] else []

unfoldable pub udp_sinks : SinkClass → UdpLog → List Sink
udp_sinks o s =
    if s.enabled
    then if o.udp_opens s.host s.port then udp_sink s.host s.port s.pattern s.level ∷ [] else []
    else []

-- The set-up of logging; only what the file sink throws is not caught.
unfoldable pub set_up_logging : SinkClass → Logging → Outcome (List Sink)
unfolding sys_sinks udp_sinks
set_up_logging o s =
    if o.file_opens s.file.path s.file.max_size s.file.max_files
    then done (
        console_sink warn (some (bytes "[%^%l%$] %v"))
        ∷ file_sink s.file.path s.file.max_size s.file.max_files trace
            (some (bytes "[%Y-%m-%d %H:%M:%S.%e] [%l] [%s:%#] %v"))
        ∷ (sys_sinks s.sys ++ udp_sinks o s.udp))
    else thrown

-- The group and the user that the process asks for.
pub data UserCall : Type 0 where
  set_gid set_uid : ℕ → UserCall

-- `passwd` gives the group and the user of a name, none if the system does not know it. How the
-- calls end is only logged.
unfoldable pub run_as : (Text → Option (ℕ × ℕ)) → Text → Outcome (List UserCall)
run_as passwd user = if length user == 0 then done [] else elim (passwd user) [
  | none ↦ refused
  | some (gid, uid) ↦ done (set_gid gid ∷ set_uid uid ∷ [])
]

-- getFromString, isNULL and getAsString of a cguid.
pub record GuidText (G : GuidClass) : Type 0 where
  pub from_text : Text → G.G
  pub is_null : G.G → Bool
  pub as_text : G.G → Text

-- What the host answers when it is asked for its addresses.
pub record Network : Type 0 where
  pub socket_opens : Bool
  pub hardware_address : Option (ℕ → ℕ)
  pub stack : List ℕ
  pub addresses : Option (List ℕ)

-- The GUID of the daemon, from the one that is configured.
unfoldable pub choose_guid : (G : GuidClass) → GuidText G → Network → G.G → G.G
unfolding get_mac_address get_ip_address
choose_guid G t n g =
    let (found, mac) = get_mac_address G n.socket_opens n.hardware_address in
    if t.is_null g then if found then mac else (get_ip_address G n.stack n.addresses).1 else g

-- What `init` needs from outside.
pub record Host (C : JsonClass) (G : GuidClass) (S : Sqlite) : Type 0 where
  pub birth : Birth
  pub helpers : Helpers
  pub files : Files
  pub file_exists : Text → Bool
  pub parsed : Text → Option C.J
  pub init_main : C.J → Bool
  pub init_driver : C.J → Bool
  pub sinks : SinkClass
  pub passwd : Text → Option (ℕ × ℕ)
  pub guid_text : GuidText G
  pub network : Network
  pub sqlite_initializes : Bool
  pub token_db : Text → Option TokenDb
  pub time : Text

-- What `init` has set when it returns true.
pub record Daemon (C : JsonClass) (G : GuidClass) (S : Sqlite) : Type 0 where
  pub root_folder : Text
  pub read : Read C
  pub sinks : List Sink
  pub user_calls : List UserCall
  pub guid : G.G
  pub tokens : Tokens
  pub registry : Registry S

module _ (C : JsonClass) (G : GuidClass) (S : Sqlite) (w : Host C G S) where
  abbrev pub discovery_host : General → G.G → Database.Host
  discovery_host g guid = record {
    path = g.main_db;
    file_exists = w.file_exists;
    time = w.time;
    guid = w.guid_text.as_text guid;
    server_name = g.server_name;
  }

  unfoldable pub open_databases : General → G.G → Outcome (Tokens × Registry S)
  unfolding init_tokens init_discovery
  open_databases g guid =
      if w.sqlite_initializes
      then elim (init_discovery S (discovery_host g guid) []) [
        | none ↦ refused
        | some registry ↦ done (init_tokens g.class_type_db w.token_db no_tokens, registry)
      ]
      else refused

  -- The rest of `init`, once the configuration is read.
  unfoldable pub init_read : Text → Read C → Outcome (Daemon C G S)
  unfolding set_up_logging run_as choose_guid open_databases
  init_read root r =
      let guid = choose_guid G w.guid_text w.network (w.guid_text.from_text r.general.guid) in
      and_then (set_up_logging w.sinks r.values.logging) (λ sinks.
        and_then (run_as w.passwd r.general.run_as_user) (λ calls.
          and_then (open_databases r.general guid) (λ (tokens, registry). done (record {
            root_folder = root;
            read = r;
            sinks = sinks;
            user_calls = calls;
            guid = guid;
            tokens = tokens;
            registry = registry;
          }))))

  -- `refused` stands for the result false; `key` is `__vscp_key` before.
  unfoldable pub init : Text → Text → List ℕ → Outcome (Daemon C G S)
  unfolding read_configuration init_read
  init config_file root key =
      if not (w.file_exists root)
      then refused
      else if not (w.file_exists config_file)
      then refused
      else and_then
          (read_configuration C w.files w.helpers w.init_main w.init_driver w.parsed config_file
            (new_values C w.birth key))
          (init_read root)
