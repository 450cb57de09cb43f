-- ===== src/Control/Logging.antt =====
-- src/controlobject.cpp: the block of readJSON on logging, and what the constructor sets before. The
-- JSON library and vscp_makeLower are arguments.
use vscp_mqtt_daemon.Prelude.{
  ℕ, ◌%◌, ◌^◌, Bool, true, false, ◌||◌, ◌&&◌, [], ◌∷◌, Text, bytes, ◌==◌, if◌then◌else◌,
}
use vscp_mqtt_daemon.Control.Json.{JsonClass}

-- `spdlog::level::level_enum`
pub data LogLevel : Type 0 where
  trace debug info warn err critical off : LogLevel

pub record FileLog : Type 0 where
  pub enabled : Bool
  pub level : LogLevel
  pub pattern : Text
  pub path : Text
  pub max_size : ℕ
  pub max_files : ℕ

pub record ConsoleLog : Type 0 where
  pub enabled : Bool
  pub level : LogLevel
  pub pattern : Text

pub record SysLog : Type 0 where
  pub enabled : Bool
  pub level : LogLevel
  pub ident : Text

pub record UdpLog : Type 0 where
  pub enabled : Bool
  pub level : LogLevel
  pub pattern : Text
  pub host : Text
  pub port : ℕ

pub record Logging : Type 0 where
  pub file : FileLog
  pub console : ConsoleLog
  pub sys : SysLog
  pub udp : UdpLog

unfoldable pub default_logging : Logging
default_logging = record {
  file = record {
    enabled = false;
    level = info;
    pattern = bytes "[mqttvscpd] [%^%l%$] %v";
    path = bytes "/var/log/vscp/mqttvscpd.log";
    max_size = 5242880;
    max_files = 7;
  };
  console = record { enabled = true; level = info; pattern = bytes "[mqttvscpd] [%^%l%$] %v" };
  sys = record { enabled = false; level = info; ident = bytes "mqttvscpd" };
  udp = record {
    enabled = false;
    level = info;
    pattern = bytes "[%Y-%m-%d %H:%M:%S.%e] [%l] %v";
    host = bytes "127.0.0.1";
    port = 9999;
  };
}

-- The second text starts with the first.
unfoldable pub starts_with : Text → Text → Bool
starts_with [] s = true
starts_with (c ∷ sub) [] = false
starts_with (c ∷ sub) (x ∷ s) = c == x && starts_with sub s

-- `std::string::npos != s.find(sub)`
unfoldable pub found : Text → Text → Bool
unfolding starts_with
found sub [] = starts_with sub []
found sub (x ∷ s) = starts_with sub (x ∷ s) || found sub s

-- The level that a text in lower case sets.
unfoldable pub log_level : Text → LogLevel → LogLevel
unfolding found
log_level str old =
    if found (bytes "off") str
    then off
    else if found (bytes "critical") str
    then critical
    else if found (bytes "err") str
    then err
    else if found (bytes "warn") str
    then warn
    else if found (bytes "info") str
    then info
    else if found (bytes "debug") str
    then debug
    else if found (bytes "trace") str
    then trace
    else old

module _ (C : JsonClass) where
  -- The fields of the block: what `get` throws is caught, and the field keeps its value.
  unfoldable pub read_flag : Text → C.J → Bool → Bool
  read_flag key j old =
      if C.contains_key key j && C.is_boolean (C.at key j) then C.is_true (C.at key j) else old

  unfoldable pub read_text : Text → C.J → Text → Text
  read_text key j old =
      if C.contains_key key j && C.is_string (C.at key j) then C.text_of (C.at key j) else old

  -- `get<uint32_t>` and `get<uint16_t>`, for a width of 32 and of 16.
  unfoldable pub read_unsigned : ℕ → Text → C.J → ℕ → ℕ
  read_unsigned width key j old =
      let v = C.at key j in
      if C.contains_key key j
      then if C.is_number v
        then C.number_of v % 2 ^ width
        else if C.is_boolean v
        then if C.is_true v then 1 else 0
        else old
      else old

  unfoldable pub read_level_name : (Text → Text) → Text → C.J → LogLevel → LogLevel
  unfolding log_level read_text
  read_level_name make_lower key j old =
      if C.contains_key key j then log_level (make_lower (read_text key j [])) old else old

module _ (C : JsonClass) (make_lower : Text → Text) where
  unfoldable pub read_file_log : C.J → FileLog → FileLog
  unfolding read_flag read_text read_unsigned read_level_name
  read_file_log j s = record {
    enabled = read_flag C (bytes "file-enable-log") j s.enabled;
    level = read_level_name C make_lower (bytes "file-log-level") j s.level;
    pattern = read_text C (bytes "file-pattern") j s.pattern;
    path = read_text C (bytes "file-path") j s.path;
    max_size = read_unsigned C 32 (bytes "file-max-size") j s.max_size;
    max_files = read_unsigned C 16 (bytes "file-max-files") j s.max_files;
  }

  unfoldable pub read_console_log : C.J → ConsoleLog → ConsoleLog
  unfolding read_flag read_text read_level_name
  read_console_log j s = record {
    enabled = read_flag C (bytes "console-enable-log") j s.enabled;
    level = read_level_name C make_lower (bytes "console-log-level") j s.level;
    pattern = read_text C (bytes "console-pattern") j s.pattern;
  }

  unfoldable pub read_sys_log : C.J → SysLog → SysLog
  unfolding read_flag read_text read_level_name
  read_sys_log j s = record {
    enabled = read_flag C (bytes "syslog-enable-log") j s.enabled;
    level = read_level_name C make_lower (bytes "syslog-log-level") j s.level;
    ident = read_text C (bytes "syslog-ident") j s.ident;
  }

  unfoldable pub read_udp_log : C.J → UdpLog → UdpLog
  unfolding read_flag read_text read_unsigned read_level_name
  read_udp_log j s = record {
    enabled = read_flag C (bytes "udp-enable-log") j s.enabled;
    level = read_level_name C make_lower (bytes "udp-log-level") j s.level;
    pattern = read_text C (bytes "udp-pattern") j s.pattern;
    host = read_text C (bytes "udp-host") j s.host;
    port = read_unsigned C 16 (bytes "udp-port") j s.port;
  }

  -- The block as a whole.
  unfoldable pub read_logging : C.J → Logging → Logging
  unfolding read_file_log read_console_log read_sys_log read_udp_log
  read_logging j s =
      let l = C.at (bytes "logging") j in
      if C.contains_key (bytes "logging") j && C.is_object l
      then record {
        file = read_file_log l s.file;
        console = read_console_log l s.console;
        sys = read_sys_log l s.sys;
        udp = read_udp_log l s.udp;
      }
      else s
