-- ===== src/Startup/Program.antt =====
-- src/mqttvscpd.cpp: `main`. The control object is the interface `ControlObject`; its `cleanup`
-- always returns true. What is logged is left out.
use vscp_mqtt_daemon.Prelude.{
  ℕ, Bool, List, [], ◌∷◌, ◌++◌, Option, none, some, Text, bytes, if◌then◌else◌,
}
use vscp_mqtt_daemon.Device.{DeviceItem}
use vscp_mqtt_daemon.Device.Lifecycle.{items}
use vscp_mqtt_daemon.Control.Json.{Outcome, done, refused, thrown}
use vscp_mqtt_daemon.Control.Logging.{off, Logging}
use vscp_mqtt_daemon.Control.Init.{Sink, console_sink, file_sink, SinkClass}
use vscp_mqtt_daemon.Control.Run.{Session, cleanup, remaining}
use vscp_mqtt_daemon.Startup.Options.{
  Flag, Start, goes_on, exits, exit_minus_one, default_start, read_options,
}
use vscp_mqtt_daemon.Startup.Daemonize.{
  System, Process, runs, failed, parent_exits, daemonize, Signal, Handler, setup_signal_handlers,
}

-- What `main` uses of the control object: `init` for the configuration file, the root folder and
-- the key; the log settings; and `run`.
pub record ControlObject : Type 1 where
  pub D : Type 0
  pub init : Text → Text → List ℕ → Outcome D
  pub logging : D → Logging
  pub run : D → Session

pub data Effect : Type 0 where
  write_pid : Text → ℕ → Effect
  change_dir : Text → Effect
  unlink : Text → Effect
  handle : List (Signal × Handler) → Effect
  -- The folder of this file is made if it is missing, by `make_log_folder`.
  make_folder : Text → Effect
  -- The logger that replaces all others.
  set_logger : List Sink → Effect
  new_object delete_object : Effect

-- The process has exited with a status, or was aborted by an exception that nothing catches, or it
-- still runs.
pub data Ending : Type 0 where
  exited : ℕ → Ending
  aborted running : Ending

pub record Execution : Type 0 where
  pub effects : List Effect
  pub ending : Ending
  -- The drivers at the end, if there are some.
  pub drivers : List DeviceItem
  -- whether a thread was made for the driver that has not been joined
  pub alive : List Bool

-- The rest of an execution, behind some effects.
abbrev pub after : List Effect → Execution → Execution
after es x = record x { effects = es ++ x.effects }

abbrev pub ends : List Effect → Ending → Execution
ends es e = record { effects = es; ending = e; drivers = []; alive = [] }

-- How the calls of the system end.
pub record World : Type 0 where
  pub system : System
  pub pid_opens : Bool
  pub enters : Text → Bool
  pub sinks : SinkClass
  pub hex_to_bytes : Text → List ℕ → ℕ × List ℕ

abbrev pub pid_path : Text
pid_path = bytes "/var/run/vscpd.pid"

abbrev pub home : Text
home = bytes "/var/lib/vscp/mqttvscpd"

-- The sinks of the logger that `main` sets up; none if the constructor of the file sink throws.
unfoldable pub main_sinks : SinkClass → Logging → Option (List Sink)
main_sinks o s =
    if o.file_opens s.file.path s.file.max_size s.file.max_files
    then some (
        console_sink (if s.console.enabled then s.console.level else off)
          (if s.console.enabled then some s.console.pattern else none)
        ∷ file_sink s.file.path s.file.max_size s.file.max_files
            (if s.file.enabled then s.file.level else off)
            (if s.file.enabled then some s.file.pattern else none)
        ∷ [])
    else none

-- The pid file of a daemon.
unfoldable pub write_pid_file : World → Bool → ℕ → List Effect
write_pid_file w dont_run_as_daemon sid =
    if dont_run_as_daemon then [] else if w.pid_opens then write_pid pid_path sid ∷ [] else []

-- The working directory.
unfoldable pub enter_root : World → Text → List Effect
enter_root w root =
    if w.enters root
    then change_dir root ∷ []
    else if w.enters home
    then change_dir home ∷ unlink pid_path ∷ []
    else unlink pid_path ∷ []

module _ (O : ControlObject) (w : World) where
  -- The call of `run`, and what follows it. `cleanup` is called again.
  unfoldable pub main_run : Session → Execution
  main_run s =
      if s.ended
      then if s.result
        then record {
          effects = delete_object ∷ unlink (bytes "/var/run/vscp/vscpd.pid") ∷ [];
          ending = exited 0;
          drivers = items (cleanup s.drivers);
          alive = remaining s.alive (cleanup s.drivers);
        }
        else record {
          effects = unlink pid_path ∷ [];
          ending = exited 1;
          drivers = s.drivers;
          alive = s.alive;
        }
      else record { effects = []; ending = running; drivers = s.drivers; alive = s.alive }

  -- `main` from the call of `init` on.
  unfoldable pub main_init : Outcome O.D → Execution
  unfolding main_sinks main_run
  main_init refused = ends (unlink pid_path ∷ []) (exited 1)
  main_init thrown = ends [] aborted
  main_init (done d) =
      after (make_folder (O.logging d).file.path ∷ []) (elim (main_sinks w.sinks (O.logging d)) [
        | none ↦ ends [] (exited 1)
        | some sinks ↦ after (set_logger sinks ∷ []) (main_run (O.run d))
      ])

  -- `main` once it is a daemon, or has stayed in the foreground.
  unfoldable pub main_process : Start → Process → Execution
  unfolding write_pid_file enter_root setup_signal_handlers main_init
  main_process s p =
      after
        (write_pid_file w s.dont_run_as_daemon p.sid
          ++ (enter_root w s.root_folder ++ (handle setup_signal_handlers ∷ new_object ∷ [])))
        (main_init (O.init s.config_file s.root_folder s.key))

  unfoldable pub main : List Flag → Execution
  unfolding read_options daemonize main_process
  main flags = elim (read_options w.hex_to_bytes flags default_start) [
    | exits status ↦ ends [] (exited status)
    | goes_on s ↦ elim (daemonize s.dont_run_as_daemon w.system) [
      | failed ↦ ends [] (exited exit_minus_one)
      | parent_exits ↦ ends [] (exited 0)
      | runs p ↦ main_process s p
    ]
  ]
