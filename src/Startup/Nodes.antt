-- ===== src/Startup/Nodes.antt =====
-- The nodes of the daemon that src/mqttvscpd.cpp makes: `init` and `run` of
-- src/controlobject.cpp with the threads of the drivers.
use vscp_mqtt_daemon.Prelude.{ℕ, true, not, ◌&&◌, ◌||◌, List, map, none, some, Text, length, ◌≡◌}
use vscp_mqtt_daemon.Prelude.Shuffle.{Shuffle}
use vscp_mqtt_daemon.DeviceThread.Traffic.{discovered}
use vscp_mqtt_daemon.Discovery.{Sqlite, Settings, is_known}
use vscp_mqtt_daemon.Discovery.Database.{IsTable}
use vscp_mqtt_daemon.Discovery.History.{IsWritable}
use vscp_mqtt_daemon.Discovery.Threads.{Shared, quiet, Finished, Reach}
use vscp_mqtt_daemon.Discovery.Confluence.{known_in, announced_in}
use vscp_mqtt_daemon.Control.Address.{GuidClass}
use vscp_mqtt_daemon.Control.Json.{JsonClass, done}
use vscp_mqtt_daemon.Control.LogFields.{Fits}
use vscp_mqtt_daemon.Control.Accepted.{IsHex}
use vscp_mqtt_daemon.Control.Init.{Host, Daemon, init}
use vscp_mqtt_daemon.Control.Ready.{IsUp, init-IsUp}
use vscp_mqtt_daemon.Control.Session.{quits}
use vscp_mqtt_daemon.Control.Nodes.{delivered, run_nodes}
use vscp_mqtt_daemon.Startup.Object.{
  Surroundings, configured, work, run_daemon, all_stopped-IsReady,
}

module _ (C : JsonClass) (G : GuidClass) (S : Sqlite) (w : Host C G S) (s : Surroundings C G S)
    (table : IsTable S) (readable : (db : S.Db) → S.is_readable db ≡ true) (hex : IsHex w.files)
    (fits : Fits w.birth.memory) (writable : IsWritable S) (c : Settings) where
  -- A daemon whose `init` has succeeded with a database of nodes, whose client connects and that is
  -- asked to quit, when the threads of the drivers have given all their events to discovery, in
  -- whatever order they took turns and access by access: the GUIDs known are those of the database
  -- and those that a driver with a thread has delivered before the stop, and the GUIDs announced
  -- are those of the latter that the database did not have. It is relied on that the database takes
  -- every new GUID (a failing INSERT would leave its node unknown), that the table of the nodes is
  -- kept as SQLite promises, that an existing one can be read, that reading a hex string stays
  -- inside the key, and that the memory of a new object holds numbers in the ranges of their types.
  pub daemon_nodes :
      (config_file root : Text) (key : List ℕ) (d : Daemon C G S) (db : S.Db)
      (calls : List Finished) (st : Shared S)
      → init C G S w config_file root key ≡ done d
      → d.registry.db ≡ some db
      → (s.broker d).connects ≡ true
      → quits s.ticks ≡ true
      → Reach S c (quiet S d.registry) calls st
      → st.holder ≡ none
      → Shuffle
          (map (λ l. discovered l.trace) (run_daemon C G S w s d).threads)
          (map (λ call. call.0) calls)
      → let new =
          delivered c s.helper
            (s.guid_bytes d.guid)
            s.field
            s.created
            d.read.values.drivers.devices in
        (known_in S st ≡ (λ k. new k || is_known k d.registry.names))
        × (announced_in S st ≡ (λ k. new k && not (is_known k d.registry.names)))
  unfolding run_daemon work
  daemon_nodes config_file root key d db calls st e opened connects asked reach free turns =
      let up : IsUp C G S w (length key) d =
        rw e at (init-IsUp C G S w table config_file root key readable hex fits) in
      let ds = d.read.values.drivers.devices in
      run_nodes S c table writable db d.registry opened up.1 s.helper (s.guid_bytes d.guid) s.field
        s.created s.formats (s.broker d) (configured C G S w s d) s.started s.ticks ds calls st
        (all_stopped-IsReady w.helpers.site ds up.0.0.0) connects asked reach free turns
