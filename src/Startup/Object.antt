-- ===== src/Startup/Object.antt =====
-- The control object that src/mqttvscpd.cpp makes: `init` and `run` of src/controlobject.cpp.
use vscp_mqtt_daemon.Prelude.{
  ℕ, Bool, true, List, [], ◌∷◌, Text, All, length, ◌≡◌, ◌≢◌, refl, arith,
}
use vscp_mqtt_daemon.Device.{Guid, DeviceItem}
use vscp_mqtt_daemon.Device.Print.{Formats}
use vscp_mqtt_daemon.DeviceThread.{Loop}
use vscp_mqtt_daemon.Event.{Vscp}
use vscp_mqtt_daemon.Control.Threads.{Field, worker, worker-IsJoinable}
use vscp_mqtt_daemon.DeviceList.{Site}
use vscp_mqtt_daemon.DeviceList.Configured.{IsReady}
use vscp_mqtt_daemon.Discovery.{Sqlite}
use vscp_mqtt_daemon.Discovery.Database.{IsTable}
use vscp_mqtt_daemon.Control.Address.{GuidClass}
use vscp_mqtt_daemon.Control.Json.{JsonClass}
use vscp_mqtt_daemon.Control.LogFields.{Fits}
use vscp_mqtt_daemon.Control.Accepted.{IsHex}
use vscp_mqtt_daemon.Control.Init.{Host, Daemon, init}
use vscp_mqtt_daemon.Control.Ready.{IsUp, init-IsUp}
use vscp_mqtt_daemon.Control.Run.{Configured, Broker, Session, Tick, run}
use vscp_mqtt_daemon.Control.Session.{
  IsJoinable, all_stopped, none_alive, quits, run_ended, run_lem,
}
use vscp_mqtt_daemon.Startup.Options.{Flag}
use vscp_mqtt_daemon.Startup.Program.{ControlObject, World, running, main}
use vscp_mqtt_daemon.Startup.Exits.{Stops, main-stopped, main-ended}

-- What `run` meets: the formats, the version, the bytes of a GUID, the broker, whether a thread can
-- be made, the helpers that the threads call, what each of them meets, the time at the start, and
-- the rounds of the main loop.
pub record Surroundings (C : JsonClass) (G : GuidClass) (S : Sqlite) : Type 0 where
  pub formats : Formats
  pub version : Text
  pub guid_bytes : G.G → Guid
  pub broker : Daemon C G S → Broker
  pub created : DeviceItem → Bool
  pub helper : Vscp
  pub field : Field
  pub started : ℕ
  pub ticks : List Tick

module _ (C : JsonClass) (G : GuidClass) (S : Sqlite) (w : Host C G S)
    (s : Surroundings C G S) where
  -- What `init` leaves for `run`.
  unfoldable pub configured : Daemon C G S → Configured
  configured d = record {
    guid = s.guid_bytes d.guid;
    server_name = d.read.general.server_name;
    root_folder = d.root_folder;
    run_as_user = d.read.general.run_as_user;
    version = s.version;
    topic_daemon_base = d.read.values.topics.daemon_base;
    topic_drivers = d.read.values.topics.drivers;
  }

  -- The threads that `run` starts.
  unfoldable pub work : Daemon C G S → Bool → DeviceItem → Loop
  work d = worker s.helper (s.guid_bytes d.guid) s.field

  unfoldable pub run_daemon : Daemon C G S → Session
  unfolding configured work run
  run_daemon d =
      run s.formats (s.broker d) (configured d) s.created (work d) s.started s.ticks
        d.read.values.drivers.devices

  unfoldable pub daemon_object : ControlObject
  unfolding init run_daemon
  daemon_object = record {
    D = Daemon C G S;
    init = init C G S w;
    logging = λ d. d.read.values.logging;
    run = run_daemon;
  }

pub all_stopped-IsReady :
    (site : Site) (ds : List DeviceItem) → All (IsReady site) ds → all_stopped ds ≡ true
all_stopped-IsReady site [] h = refl
all_stopped-IsReady site (d ∷ ds) h = ground (arith, h.0.unstarted, all_stopped-IsReady site ds h.1)

module _ (C : JsonClass) (G : GuidClass) (S : Sqlite) (w : Host C G S)
    (s : Surroundings C G S) where
  work-IsJoinable : (d : Daemon C G S) → IsJoinable (work C G S w s d)
  unfolding work
  work-IsJoinable d = worker-IsJoinable s.helper (s.guid_bytes d.guid) s.field

module _ (C : JsonClass) (G : GuidClass) (S : Sqlite) (w : Host C G S) (s : Surroundings C G S)
    (table : IsTable S) (readable : (db : S.Db) → S.is_readable db ≡ true) (hex : IsHex w.files)
    (fits : Fits w.birth.memory) where
  daemon_object-Stops : Stops (daemon_object C G S w s)
  unfolding daemon_object
  daemon_object-Stops config_file root key d e =
      let up : IsUp C G S w (length key) d =
        rw e at (init-IsUp C G S w table config_file root key readable hex fits) in
      let ds = d.read.values.drivers.devices in
      let (result, ended, nothing, stopped) =
        run_lem s.formats (s.broker d) (configured C G S w s d) s.created (work C G S w s d)
          (work-IsJoinable C G S w s d) s.started s.ticks ds
          (all_stopped-IsReady w.helpers.site ds up.0.0.0) in
      stopped

  -- Whatever the command line, the configuration and the surroundings are, and whichever way `main`
  -- ends, when it has ended every thread that was made for a driver has been joined, and no driver
  -- says that it has a thread. It is relied on that the table of the nodes is
  -- kept as SQLite promises, that an existing one can be read, that reading a hex string stays
  -- inside the key, and that the memory of a new object holds numbers in the ranges of their types.
  pub main-daemon_object :
      (world : World) (flags : List Flag)
      → (main (daemon_object C G S w s) world flags).ending ≢ running
      → let x = main (daemon_object C G S w s) world flags in
        (all_stopped x.drivers ≡ true) × (none_alive x.alive ≡ true)
  main-daemon_object world flags =
      main-stopped (daemon_object C G S w s) world flags daemon_object-Stops

module _ (C : JsonClass) (G : GuidClass) (S : Sqlite) (w : Host C G S)
    (s : Surroundings C G S) where
  -- Once the main loop has been asked to quit, `main` ends, whatever the command line and the
  -- configuration are and whatever the system and the broker answer.
  pub main-daemon_object_ended :
      (world : World) (flags : List Flag)
      → quits s.ticks ≡ true
      → (main (daemon_object C G S w s) world flags).ending ≢ running
  unfolding daemon_object
  main-daemon_object_ended world flags asked =
      main-ended (daemon_object C G S w s) world flags (λ d. ground (
        arith,
        run_ended s.formats (s.broker d) (configured C G S w s d) s.created (work C G S w s d)
            (work-IsJoinable C G S w s d) s.started s.ticks d.read.values.drivers.devices,
      ))
