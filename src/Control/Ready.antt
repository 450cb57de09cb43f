-- ===== src/Control/Ready.antt =====
-- What holds of the daemon when `init` has returned true, and when it does.
use vscp_mqtt_daemon.Prelude.{
  ℕ, Bool, true, false, not, ◌&&◌, ◌||◌, List, [], Option, none, some, Text, length, is_some, ◌==◌,
  ◌≡◌, refl, arith, if_cases,
}
use vscp_mqtt_daemon.Discovery.{Sqlite, Registry}
use vscp_mqtt_daemon.Discovery.Database.{
  IsTable, IsConsistent, create_database, init_discovery, init_discovery-IsConsistent,
}
use vscp_mqtt_daemon.Discovery.Database.{Host as NodesHost}
use vscp_mqtt_daemon.Control.Tokens.{Tokens}
use vscp_mqtt_daemon.Control.Config.{General}
use vscp_mqtt_daemon.Control.Address.{GuidClass}
use vscp_mqtt_daemon.Control.Json.{JsonClass, Outcome, done, refused, thrown, and_then}
use vscp_mqtt_daemon.Control.Settings.{WhenDone, and_then-WhenDone, anything, is_done}
use vscp_mqtt_daemon.Control.ReadJson.{new_values, Read, read_configuration}
use vscp_mqtt_daemon.Control.LogFields.{Fits}
use vscp_mqtt_daemon.Control.Accepted.{IsHex, IsValid, read_configuration-IsValid}
use vscp_mqtt_daemon.Control.Init.{
  set_up_logging, run_as, choose_guid, Host, Daemon, discovery_host, open_databases, init_read,
  init,
}

abbrev pub is_thrown : {A : Type 0} → Outcome A → Bool
is_thrown (done a) = false
is_thrown refused = false
is_thrown thrown = true

-- The function returns with a value for which the test holds.
abbrev pub is_done_with : {A : Type 0} → (A → Bool) → Outcome A → Bool
is_done_with test (done a) = test a
is_done_with test refused = false
is_done_with test thrown = false

and_then-ends :
    {A B : Type 0} (o : Outcome A) (k : A → Outcome B) (ends throws : A → Bool)
    → ((a : A) → (is_done (k a) ≡ ends a) × (is_thrown (k a) ≡ throws a))
    → (is_done (and_then o k) ≡ is_done_with ends o)
      × (is_thrown (and_then o k) ≡ (is_thrown o || is_done_with throws o))
and_then-ends (done a) k ends throws h = h a
and_then-ends refused k ends throws h = (refl, refl)
and_then-ends thrown k ends throws h = (refl, refl)

module _ (C : JsonClass) (G : GuidClass) (S : Sqlite) (w : Host C G S) where
  -- The configuration is valid, with a key of `n` bytes, and the map of the nodes has the GUIDs of
  -- the table.
  abbrev pub IsUp : ℕ → Daemon C G S → Type 0
  IsUp n d =
      IsValid C w.files w.helpers w.init_main w.init_driver n d.read.values
      × IsConsistent S d.registry

  -- The GUID of the daemon.
  abbrev pub guid_of : Read C → G.G
  guid_of r = choose_guid G w.guid_text w.network (w.guid_text.from_text r.general.guid)

  found_registry :
      (o : Option (Registry S)) (t : Tokens)
      → ((r : Registry S) → o ≡ some r → IsConsistent S r)
      → WhenDone
          (λ (d : Tokens × Registry S). IsConsistent S d.1)
          (elim o [ none ↦ refused | some r ↦ done (t, r) ])
  found_registry none t h = tt
  found_registry (some r) t h = h r refl

  open_databases-IsConsistent :
      (table : IsTable S) (g : General) (guid : G.G)
      → ((db : S.Db) → S.is_readable db ≡ true)
      → WhenDone (λ d. IsConsistent S d.1) (open_databases C G S w g guid)
  unfolding open_databases
  open_databases-IsConsistent table g guid readable =
      if_cases (WhenDone (λ d. IsConsistent S d.1)) w.sqlite_initializes
        (λ _.
          found_registry (init_discovery S (discovery_host C G S w g guid) []) _
            (λ r. init_discovery-IsConsistent S table (discovery_host C G S w g guid) r readable))
        (λ _. tt)

  init_read-IsUp :
      (table : IsTable S) (root : Text) (r : Read C) (n : ℕ)
      → ((db : S.Db) → S.is_readable db ≡ true)
      → IsValid C w.files w.helpers w.init_main w.init_driver n r.values
      → WhenDone (IsUp n) (init_read C G S w root r)
  unfolding init_read
  init_read-IsUp table root r n readable valid =
      and_then-WhenDone (λ _. Unit {0}) (IsUp n) (set_up_logging w.sinks r.values.logging) _
        (anything (set_up_logging w.sinks r.values.logging))
        (λ sinks _.
          and_then-WhenDone (λ _. Unit {0}) (IsUp n) (run_as w.passwd r.general.run_as_user) _
            (anything (run_as w.passwd r.general.run_as_user))
            (λ calls _.
              and_then-WhenDone (λ d. IsConsistent S d.1) (IsUp n)
                (open_databases C G S w r.general (guid_of r)) _
                (open_databases-IsConsistent table r.general (guid_of r) readable)
                (λ d consistent. (valid, consistent))))

  -- Whenever `init` returns true, every driver of the list is ready to be started, every configured
  -- client is that of a driver in the list, the log settings are in the ranges of their types, the
  -- key has the length that it had before, and the map of the known nodes has the GUIDs of the
  -- table. It is relied on that the table is kept as SQLite promises, that an existing one can be
  -- read, that reading a hex string stays inside the key, and that the memory of a new object holds
  -- numbers in the ranges of their types, which is all there is if its mutexes cannot be made.
  pub init-IsUp :
      (table : IsTable S) (config_file root : Text) (key : List ℕ)
      → ((db : S.Db) → S.is_readable db ≡ true)
      → IsHex w.files
      → Fits w.birth.memory
      → WhenDone (IsUp (length key)) (init C G S w config_file root key)
  unfolding init
  init-IsUp table config_file root key readable hex fits =
      if_cases (WhenDone (IsUp (length key))) (not (w.file_exists root)) (λ _. tt)
        (λ _.
          if_cases (WhenDone (IsUp (length key))) (not (w.file_exists config_file)) (λ _. tt)
            (λ _.
              and_then-WhenDone
                (λ r. IsValid C w.files w.helpers w.init_main w.init_driver (length key) r.values)
                (IsUp (length key))
                (read_configuration C w.files w.helpers w.init_main w.init_driver w.parsed
                  config_file (new_values C w.birth key))
                _
                (read_configuration-IsValid C w.files w.helpers w.init_main w.init_driver w.parsed
                  config_file w.birth key hex fits)
                (λ r valid. init_read-IsUp table root r (length key) readable valid)))

  -- The log file can be opened.
  abbrev pub log_opens : Read C → Bool
  log_opens r = let l = r.values.logging.file in w.sinks.file_opens l.path l.max_size l.max_files

  -- The user that is configured, if one is, is known; SQLite initializes; and the database of the
  -- nodes is left out, opened, or created.
  -- The database of the nodes is no hindrance: it is left out, or its file exists, whether it can be
  -- opened or not, or it can be opened, which makes the file, and every statement that fills it
  -- succeeds.
  abbrev pub has_nodes : NodesHost → Bool
  has_nodes h =
      length h.path == 0
      || (h.file_exists h.path
          || elim (S.open_db h.path) [ none ↦ false | some db ↦ is_some (create_database S h db) ])

  init_discovery-has_nodes : (h : NodesHost) → is_some (init_discovery S h []) ≡ has_nodes h
  unfolding init_discovery
  init_discovery-has_nodes h = ground arith

  abbrev pub has_surroundings : Read C → Bool
  has_surroundings r =
      (length r.general.run_as_user == 0 || is_some (w.passwd r.general.run_as_user))
      && (w.sqlite_initializes && has_nodes (discovery_host C G S w r.general (guid_of r)))

  run_as-ends :
      (user : Text)
      → (is_done (run_as w.passwd user) ≡ (length user == 0 || is_some (w.passwd user)))
        × (is_thrown (run_as w.passwd user) ≡ false)
  unfolding run_as
  run_as-ends user = ground arith

  set_up_logging-ends :
      (r : Read C)
      → (is_done (set_up_logging w.sinks r.values.logging) ≡ log_opens r)
        × (is_thrown (set_up_logging w.sinks r.values.logging) ≡ not (log_opens r))
  unfolding set_up_logging
  set_up_logging-ends r = ground arith

  open_databases-ends :
      (g : General) (guid : G.G)
      → (is_done (open_databases C G S w g guid)
          ≡ (w.sqlite_initializes && has_nodes (discovery_host C G S w g guid)))
        × (is_thrown (open_databases C G S w g guid) ≡ false)
  unfolding open_databases
  open_databases-ends g guid =
      ground (arith, init_discovery-has_nodes (discovery_host C G S w g guid))

  init_read-ends :
      (root : Text) (r : Read C)
      → (is_done (init_read C G S w root r) ≡ (log_opens r && has_surroundings r))
        × (is_thrown (init_read C G S w root r) ≡ not (log_opens r))
  unfolding init_read
  init_read-ends root r = ground (
    arith,
    set_up_logging-ends r,
    run_as-ends r.general.run_as_user,
    open_databases-ends r.general (guid_of r),
  )

  -- `init` returns true exactly if the root folder and the configuration file exist, the
  -- configuration is accepted, the log file can be opened, the configured user is known or none is
  -- configured, SQLite initializes, and the database of the nodes is left out, or its file exists,
  -- even if it cannot be opened, or it can be made and filled.
  -- An exception leaves it exactly if one leaves readConfiguration, or the log file cannot be opened
  -- after the configuration is accepted.
  pub init-ends :
      (config_file root : Text) (key : List ℕ)
      → let o =
          read_configuration C w.files w.helpers w.init_main w.init_driver w.parsed config_file
            (new_values C w.birth key) in
        let there = w.file_exists root && w.file_exists config_file in
        (is_done (init C G S w config_file root key)
          ≡ (there && is_done_with (λ r. log_opens r && has_surroundings r) o))
        × (is_thrown (init C G S w config_file root key)
            ≡ (there && (is_thrown o || is_done_with (λ r. not (log_opens r)) o)))
  unfolding init
  init-ends config_file root key =
      let o =
        read_configuration C w.files w.helpers w.init_main w.init_driver w.parsed config_file
          (new_values C w.birth key) in
      ground (
        arith,
        and_then-ends o (init_read C G S w root) (λ r. log_opens r && has_surroundings r)
            (λ r. not (log_opens r)) (init_read-ends root),
      )
