-- ===== src/Tests/Logs.antt =====
-- The theorems on the log settings, and on the sinks that they give.
use vscp_mqtt_daemon.Prelude.{
  true, false, ◌&&◌, ◌||◌, List, [], ◌∷◌, none, some, Text, bytes, text_eq, ◌≡◌, refl,
  if◌then◌else◌,
}
use vscp_mqtt_daemon.Control.Json.{done}
use vscp_mqtt_daemon.Control.Logging.{
  trace, info, warn, err, off, Logging, default_logging, log_level, read_logging,
}
use vscp_mqtt_daemon.Control.LogLevels.{level_names, IsLevelOf, log_level-IsLevelOf}
use vscp_mqtt_daemon.Control.Init.{
  Sink, SinkClass, console_sink, file_sink, sys_sink, set_up_logging,
}
use vscp_mqtt_daemon.Startup.Program.{main_sinks}
use vscp_mqtt_daemon.Startup.Logger.{is_sys, is_udp, any, file_levels, main_sinks_lem}
use vscp_mqtt_daemon.Tests.Settings.{Doc, num, yes, obj, arr, doc}

level_of_error : log_level (bytes "error") info ≡ err
unfolding log_level
level_of_error = refl

level_of_nothing : log_level (bytes "verbose") info ≡ info
unfolding log_level
level_of_nothing = refl

-- `off` is looked for first, also inside other words.
level_of_office : log_level (bytes "trace the office") info ≡ off
unfolding log_level
level_of_office = refl

log_level-IsLevelOf_example :
    IsLevelOf level_names (bytes "warning") info (log_level (bytes "warning") info)
log_level-IsLevelOf_example = log_level-IsLevelOf (bytes "warning") info

-- A block on logging that enables the system's log, and a size that does not fit in 32 bits.
abbrev logging_block : Doc
logging_block =
    obj (λ k. true)
      (λ k.
        obj (λ i. text_eq i (bytes "syslog-enable-log") || text_eq i (bytes "file-max-size"))
          (λ i. if text_eq i (bytes "file-max-size") then num 5000000000 else yes))

abbrev settings : Logging
settings = read_logging doc (λ t. t) logging_block default_logging

wrapped_size : settings.file.max_size ≡ 705032704
unfolding read_logging default_logging text_eq
wrapped_size = refl

-- A block whose fields are all arrays.
abbrev arrays : Doc
arrays = obj (λ k. true) (λ k. obj (λ i. true) (λ i. arr 0 (λ n. num 0)))

abbrev pub opens : SinkClass
opens = record { file_opens = λ path size files. true; udp_opens = λ host port. true }

abbrev log_path : Text
log_path = bytes "/var/log/vscp/mqttvscpd.log"

abbrev sinks_before : List Sink
sinks_before =
    console_sink warn (some (bytes "[%^%l%$] %v"))
    ∷ file_sink log_path 705032704 7 trace (some (bytes "[%Y-%m-%d %H:%M:%S.%e] [%l] [%s:%#] %v"))
    ∷ sys_sink (bytes "mqttvscpd") info
    ∷ []

abbrev sinks_after : List Sink
sinks_after =
    console_sink info (some (bytes "[mqttvscpd] [%^%l%$] %v"))
    ∷ file_sink log_path 705032704 7 off none
    ∷ []

before_main : set_up_logging opens settings ≡ done sinks_before
unfolding set_up_logging read_logging default_logging text_eq
before_main = refl

after_init : main_sinks opens settings ≡ some sinks_after
unfolding main_sinks read_logging default_logging text_eq
after_init = refl

main_sinks_lem_example :
    (any is_sys sinks_before ≡ settings.sys.enabled)
    × (any is_udp sinks_before
        ≡ (settings.udp.enabled && opens.udp_opens settings.udp.host settings.udp.port))
    × (file_levels sinks_before ≡ trace ∷ [])
    × (any is_sys sinks_after ≡ false)
    × (any is_udp sinks_after ≡ false)
    × (file_levels sinks_after ≡ (if settings.file.enabled then settings.file.level else off) ∷ [])
main_sinks_lem_example =
    main_sinks_lem opens settings sinks_before sinks_after before_main after_init
