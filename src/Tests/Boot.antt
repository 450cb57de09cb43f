-- ===== src/Tests/Boot.antt =====
-- The theorems on the start of the program: the command line, the daemon's files, `init` and `main`.
use vscp_mqtt_daemon.Prelude.{
  ℕ, ◌+◌, true, false, not, ◌&&◌, ◌||◌, List, [], ◌∷◌, ◌++◌, map, none, some, Text, bytes, text_eq,
  length, is_some, ◌==◌, ◌≡◌, ◌≢◌, refl, arith, if◌then◌else◌,
}
use vscp_mqtt_daemon.DeviceList.{add_item, get_device_item_from_name, find_from, filled_item}
use vscp_mqtt_daemon.Control.Config.{default_topics}
use vscp_mqtt_daemon.Control.Logging.{default_logging}
use vscp_mqtt_daemon.Control.LogFields.{Fits}
use vscp_mqtt_daemon.Control.Settings.{WhenDone, is_done}
use vscp_mqtt_daemon.Control.ReadJson.{default_values, new_values, read_configuration}
use vscp_mqtt_daemon.Control.Init.{GuidText, Network, choose_guid, Host, init}
use vscp_mqtt_daemon.Control.Ready.{
  IsUp, is_thrown, is_done_with, log_opens, has_surroundings, init-IsUp, init-ends,
}
use vscp_mqtt_daemon.Control.ServerGuid.{choose_guid_lem}
use vscp_mqtt_daemon.Control.Session.{all_stopped, none_alive}
use vscp_mqtt_daemon.Startup.Options.{
  Flag, flag_c, flag_r, goes_on, exits, Start, default_start, read_options, first_status, last_of,
  config_of, root_of, standalone_of, keys_of, read_keys, read_options_lem,
}
use vscp_mqtt_daemon.Startup.Daemonize.{
  in_child, sig_pipe, sig_term, sig_hup, setup_signal_handlers, Process, runs, daemonize,
  daemonize_lem,
}
use vscp_mqtt_daemon.Startup.Program.{
  ControlObject, handle, make_folder, new_object, exited, running, World, main_init, main_process,
  main,
}
use vscp_mqtt_daemon.Startup.Exits.{pid_file, removes_pid, main_process-pid_file}
use vscp_mqtt_daemon.Startup.Signals.{
  Occurrence, call, signal, on, faults, play, at_start, served, stop_among, before_handlers,
  signal_lem,
}
use vscp_mqtt_daemon.Startup.Object.{
  Surroundings, daemon_object, main-daemon_object, main-daemon_object_ended,
}
use vscp_mqtt_daemon.Tests.Nodes.{table, table-IsTable}
use vscp_mqtt_daemon.Tests.Server.{guid_class, guid_class-IsGuidClass, opened}
use vscp_mqtt_daemon.Tests.Settings.{doc, helpers, takes, document}
use vscp_mqtt_daemon.Device.Lifecycle.{
  start_driver, start_if_enabled, start_device_worker_threads, stop_device_worker_threads,
}
use vscp_mqtt_daemon.Control.Threads.{worker}
use vscp_mqtt_daemon.DeviceThread.Start.{device_thread}
use vscp_mqtt_daemon.Tests.Samples.{helper, library}
use vscp_mqtt_daemon.Tests.Session.{formats, broker, field}
use vscp_mqtt_daemon.Tests.Logs.{opens}

abbrev hex : Text → List ℕ → ℕ × List ℕ
hex text key = (length text, key)

abbrev flags : List Flag
flags = flag_c (bytes "/a.json") ∷ flag_r (bytes "/srv") ∷ flag_c (bytes "/b.json") ∷ []

abbrev started : Start
started = record default_start { config_file = bytes "/b.json"; root_folder = bytes "/srv" }

read_flags : read_options hex flags default_start ≡ goes_on started
unfolding read_options
read_flags = refl

read_options_lem_example : read_options hex flags default_start ≡ elim (first_status flags) [
  | some status ↦ exits status
  | none ↦ goes_on (record {
    dont_run_as_daemon = last_of standalone_of flags default_start.dont_run_as_daemon;
    config_file = last_of config_of flags default_start.config_file;
    root_folder = last_of root_of flags default_start.root_folder;
    key = read_keys hex (keys_of flags) default_start.key;
  })
]
read_options_lem_example = read_options_lem hex flags default_start

daemonize_lem_example :
    daemonize false (record {
      fork = in_child;
      session = some 4711;
      null_opens = true;
      files = some (bytes "tty") ∷ some (bytes "tty") ∷ some (bytes "tty") ∷ [];
    })
    ≡ runs (record {
      sid = 4711;
      files = none ∷ some (bytes "/dev/null") ∷ some (bytes "/dev/null") ∷ [];
      mask = some 63;
    })
daemonize_lem_example =
    daemonize_lem (some (bytes "tty")) (some (bytes "tty")) (some (bytes "tty")) [] 4711 true

abbrev pub guid_text : GuidText guid_class
guid_text = record { from_text = λ t i. 0; is_null = λ g. g 0 == 0; as_text = λ g. bytes "FF" }

abbrev pub network : Network
network = record {
  socket_opens = true;
  hardware_address = some (λ i. i + 1);
  stack = [];
  addresses = none;
}

choose_guid_lem_example :
    guid_class.get_at 7 (choose_guid guid_class guid_text network (λ i. 0)) ≡ (
      if guid_text.is_null (λ i. 0)
      then (if 7 == 7
          then (if true && is_some network.hardware_address then 0xfe else 0xfd)
          else 0xff)
      else 0)
choose_guid_lem_example =
    choose_guid_lem guid_class guid_class-IsGuidClass guid_text network (λ i. 0) 7 (omega arith)

abbrev pub host : Host doc guid_class table
host = record {
  birth = record { list_mutex = true; discovery_mutex = true; memory = default_logging };
  helpers = helpers;
  files = record { contents = λ path. some []; hex_to_bytes = hex; make_lower = λ t. t };
  file_exists = λ path. true;
  parsed = λ path. some document;
  init_main = takes;
  init_driver = takes;
  sinks = opens;
  passwd = λ user. some (100, 100);
  guid_text = guid_text;
  network = network;
  sqlite_initializes = true;
  token_db = opened;
  time = bytes "12:00";
}

pub memory-Fits : Fits default_logging
unfolding default_logging
memory-Fits = (omega arith, omega arith, omega arith)

abbrev pub surroundings : Surroundings doc guid_class table
surroundings = record {
  formats = formats;
  version = bytes "1.0.0";
  guid_bytes = λ g. g 0 ∷ [];
  broker = λ d. broker;
  created = λ d. true;
  helper = helper;
  field = record field { library = λ d. record library { loads = false } };
  started = 1000;
  ticks = record { quit = true; now = 1000; again = 1000 } ∷ [];
}

abbrev object : ControlObject
object = daemon_object doc guid_class table host surroundings

abbrev one_byte : List ℕ
one_byte = 7 ∷ []

init-IsUp_example :
    WhenDone
      (IsUp doc guid_class table host (length one_byte))
      (init doc guid_class table host (bytes "/b.json") (bytes "/srv") one_byte)
init-IsUp_example =
    init-IsUp doc guid_class table host table-IsTable (bytes "/b.json") (bytes "/srv") one_byte
      (λ rows. refl) (λ text key. refl) memory-Fits

-- On the sample document `init` returns true.
init_succeeds :
    is_done (init doc guid_class table host (bytes "/b.json") (bytes "/srv") one_byte) ≡ true
unfolding init text_eq read_configuration new_values default_values default_topics add_item
    get_device_item_from_name find_from filled_item
init_succeeds = refl

init-ends_example :
    let o =
      read_configuration doc host.files helpers takes takes host.parsed
        (bytes "/b.json")
        (new_values doc host.birth one_byte) in
    let there = host.file_exists (bytes "/srv") && host.file_exists (bytes "/b.json") in
    (is_done (init doc guid_class table host (bytes "/b.json") (bytes "/srv") one_byte) ≡ (
      there
      && is_done_with
          (λ r.
            log_opens doc guid_class table host r && has_surroundings doc guid_class table host r)
          o))
    × (is_thrown (init doc guid_class table host (bytes "/b.json") (bytes "/srv") one_byte) ≡ (
        there
        && (is_thrown o || is_done_with (λ r. not (log_opens doc guid_class table host r)) o)))
init-ends_example = init-ends doc guid_class table host (bytes "/b.json") (bytes "/srv") one_byte

abbrev world : World
world = record {
  system = record {
    fork = in_child;
    session = some 4711;
    null_opens = true;
    files = none ∷ none ∷ none ∷ [];
  };
  pid_opens = true;
  enters = λ path. true;
  sinks = opens;
  hex_to_bytes = hex;
}

abbrev process : Process
process = record { sid = 4711; files = none ∷ none ∷ none ∷ []; mask = some 63 }

-- The daemon ends regularly, and its pid file stays.
regular_end : (main object world flags).ending ≡ exited 0
unfolding main daemon_object text_eq default_start new_values default_values default_topics add_item
    get_device_item_from_name find_from filled_item start_device_worker_threads start_if_enabled
    start_driver worker device_thread stop_device_worker_threads
regular_end = refl

pid_file_stays : pid_file (main object world flags).effects false ≡ true
unfolding main daemon_object text_eq default_start new_values default_values default_topics add_item
    get_device_item_from_name find_from filled_item start_device_worker_threads start_if_enabled
    start_driver worker device_thread stop_device_worker_threads
pid_file_stays = refl

main_process-pid_file_example :
    pid_file (main_process object world started process).effects false ≡ (
      (if started.dont_run_as_daemon then false else true || false)
      && (true
          && not (
              removes_pid object world
                (object.init started.config_file started.root_folder started.key))))
main_process-pid_file_example = main_process-pid_file object world started process false

main-daemon_object_example :
    (all_stopped (main object world flags).drivers ≡ true)
    × (none_alive (main object world flags).alive ≡ true)
main-daemon_object_example =
    main-daemon_object doc guid_class table host surroundings table-IsTable (λ rows. refl)
      (λ text key. refl) memory-Fits world flags (λ e. ground (arith, regular_end))

main-daemon_object_ended_example : (main object world flags).ending ≢ running
main-daemon_object_ended_example =
    main-daemon_object_ended doc guid_class table host surroundings world flags refl

abbrev arrivals : List Occurrence
arrivals = signal sig_pipe ∷ call (make_folder (bytes "/var/log/a.log")) ∷ signal sig_term ∷ []

signal_lem_example :
    let first = before_handlers world started process in
    let set = handle setup_signal_handlers in
    ((main_process object world started process).effects
      ≡ first
        ++ (set
            ∷ new_object
            ∷ (main_init object world
                (object.init started.config_file started.root_folder started.key)).effects))
    × (play (map call first ++ (call set ∷ signal sig_hup ∷ [])) at_start ≡ faults)
    × (play (map call first ++ (call set ∷ call new_object ∷ arrivals)) at_start
        ≡ on (served (stop_among arrivals)))
signal_lem_example =
    signal_lem object world started process sig_hup arrivals (λ e. ground arith) refl
