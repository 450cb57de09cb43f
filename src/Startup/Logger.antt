-- ===== src/Startup/Logger.antt =====
-- The sinks of the log before and after `main` has set up its own logger.
use vscp_mqtt_daemon.Prelude.{
  Bool, true, false, ◌||◌, ◌&&◌, List, [], ◌∷◌, some, ◌≡◌, arith, if◌then◌else◌,
}
use vscp_mqtt_daemon.Control.Json.{done}
use vscp_mqtt_daemon.Control.Logging.{LogLevel, trace, off, Logging}
use vscp_mqtt_daemon.Control.Init.{
  Sink, console_sink, file_sink, sys_sink, udp_sink, SinkClass, sys_sinks, udp_sinks,
  set_up_logging,
}
use vscp_mqtt_daemon.Startup.Program.{main_sinks}

abbrev pub is_sys : Sink → Bool
is_sys (sys_sink ident level) = true
is_sys _ = false

abbrev pub is_udp : Sink → Bool
is_udp (udp_sink host port pattern level) = true
is_udp _ = false

abbrev pub any : {A : Type 0} → (A → Bool) → List A → Bool
any test [] = false
any test (a ∷ as') = test a || any test as'

-- The levels of the file sinks.
abbrev pub file_levels : List Sink → List LogLevel
file_levels [] = []
file_levels (file_sink path size files level pattern ∷ ss) = level ∷ file_levels ss
file_levels (console_sink level pattern ∷ ss) = file_levels ss
file_levels (sys_sink ident level ∷ ss) = file_levels ss
file_levels (udp_sink host port pattern level ∷ ss) = file_levels ss

-- While `init` runs, the log goes to the system's log and to the UDP host that are configured, and
-- the file takes every level, also if the log file is not enabled. The logger that `main` sets up
-- behind `init` keeps neither the system's log nor the UDP host, and its file takes the configured
-- level, or nothing if the log file is not enabled.
pub main_sinks_lem :
    (o : SinkClass) (s : Logging) (before after : List Sink)
    → set_up_logging o s ≡ done before
    → main_sinks o s ≡ some after
    → (any is_sys before ≡ s.sys.enabled)
      × (any is_udp before ≡ (s.udp.enabled && o.udp_opens s.udp.host s.udp.port))
      × (file_levels before ≡ trace ∷ [])
      × (any is_sys after ≡ false)
      × (any is_udp after ≡ false)
      × (file_levels after ≡ (if s.file.enabled then s.file.level else off) ∷ [])
unfolding set_up_logging main_sinks sys_sinks udp_sinks
main_sinks_lem o s before after e f =
    (ground arith, ground arith, ground arith, ground arith, ground arith, ground arith)
