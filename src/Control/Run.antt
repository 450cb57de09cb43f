-- ===== src/Control/Run.antt =====
-- src/controlobject.cpp: init_mqtt, the main loop of `run`, and cleanup. The client library's
-- `connect`, the rendering of topics for this server, and the clock are arguments; what
-- `mosquitto_publish` and periodicEvents return is only logged.
use vscp_mqtt_daemon.Prelude.{
  ℕ, ◌+◌, Bool, true, false, not, ◌&&◌, List, [], ◌∷◌, ◌++◌, Option, none, some, Text, bytes, ltb,
  map, if◌then◌else◌,
}
use vscp_mqtt_daemon.Device.{Guid, DeviceItem, ClientSettings, new_client}
use vscp_mqtt_daemon.Device.Lifecycle.{
  Ran, Runs, items, makes, joins, quit_at_join, stop_driver, start_device_worker_threads,
  stop_device_worker_threads,
}
use vscp_mqtt_daemon.DeviceThread.{Loop}
use vscp_mqtt_daemon.DeviceThread.Start.{ends}
use vscp_mqtt_daemon.Device.Print.{Formats, get_all_as_json}

-- What the configuration has set.
pub record Configured : Type 0 where
  pub guid : Guid
  pub server_name : Text
  pub root_folder : Text
  pub run_as_user : Text
  pub version : Text
  pub topic_daemon_base : Text
  pub topic_drivers : Text

-- A retained message of quality 2.
pub record Publication : Type 0 where
  pub topic : Text
  pub payload : Text

-- How the calls of the libraries end: whether the client connects, the time as text if there is
-- one, and a template rendered with the GUID of the server.
pub record Broker : Type 0 where
  pub connects : Bool
  pub start_time : Option Text
  pub render : Text → Text

abbrev start_escape : Option Text → List (Text × Text)
start_escape none = []
start_escape (some s) = (bytes "utc-start-time", s) ∷ []

abbrev pub text_of : Option Text → Text
text_of none = []
text_of (some s) = s

module _ (f : Formats) (broker : Broker) (c : Configured) where
  -- The settings of the daemon's own client before it connects.
  unfoldable pub client_settings : ClientSettings
  client_settings = record new_client {
    srv_guid = some c.guid;
    if_guid = some c.guid;
    user_escapes =
        (bytes "server-name", c.server_name)
        ∷ (bytes "root-folder", c.root_folder)
        ∷ (bytes "server-user", c.run_as_user)
        ∷ (bytes "server-version", c.version)
        ∷ (start_escape broker.start_time ++ ((bytes "server-debug-level", bytes "enabled") ∷ []));
    has_token_maps = true;
  }

  unfoldable pub init_mqtt : List DeviceItem → Bool × List Publication
  init_mqtt ds =
      if broker.connects
      then (
        true,
        record {
          topic = broker.render (c.topic_daemon_base ++ bytes "server-name");
          payload = c.server_name;
        }
            ∷ record {
              topic = broker.render (c.topic_daemon_base ++ bytes "server-version");
              payload = c.version;
            }
            ∷ record {
              topic = broker.render (c.topic_daemon_base ++ bytes "server-started-utc");
              payload = text_of broker.start_time;
            }
            ∷ record { topic = broker.render c.topic_drivers; payload = get_all_as_json f ds }
            ∷ record {
              topic = bytes "vscp-daemon/index/" ++ c.server_name;
              payload = broker.render (bytes "{{srvguid}}");
            }
            ∷ [],
      )
      else (false, [])

-- A round of the main loop: whether `m_bQuit` is set when the loop tests it, the time that it reads,
-- and the time that it reads again if it sends the heartbeat.
pub record Tick : Type 0 where
  pub quit : Bool
  pub now : ℕ
  pub again : ℕ

-- The main loop as far as the ticks go: the ticks with a heartbeat, and whether it ended. `due` is
-- `old_now.tv_sec + 60`.
pub record Main : Type 0 where
  pub due : ℕ
  pub ended : Bool
  pub beats : List Tick

unfoldable pub main_loop : List Tick → ℕ → Main
main_loop [] due = record { due = due; ended = false; beats = [] }
main_loop (t ∷ ts) due =
    let sends = ltb due t.now in
    let rest = main_loop ts (if sends then t.again + 60 else due) in
    if t.quit
    then record { due = due; ended = true; beats = [] }
    else if sends
    then record rest { beats = t ∷ rest.beats }
    else rest

-- The drivers after `stopDeviceWorkerThreads`; the client is disconnected too.
unfoldable pub cleanup : List DeviceItem → Runs
cleanup ds = (stop_device_worker_threads ds).0

-- What the thread of a driver does, if startDriver has made it: `work` gets `m_bQuit` as it is when
-- stopDriver waits for the thread. Of the item, stopDriver reads `m_bEnable` and `m_bThreadStarted`,
-- which the thread leaves alone.
unfoldable pub thread_of : (Bool → DeviceItem → Loop) → Ran → Loop
unfolding stop_driver
thread_of work r =
    let stopping = stop_driver r.item in
    if makes r.calls
    then work (quit_at_join stopping.calls stopping.item.quit) r.item
    else ends r.item []

-- Whether every `pthread_join` returns: the thread that it waits for has to.
unfoldable pub joins_return : Runs → List Loop → Bool
joins_return [] ls = true
joins_return (r ∷ rs) [] = true
joins_return (r ∷ rs) (l ∷ ls) = (if joins r.calls then l.ended else true) && joins_return rs ls

-- The threads that nobody has waited for, after the calls for each driver.
unfoldable pub remaining : List Bool → Runs → List Bool
remaining [] rs = []
remaining (alive ∷ bs) [] = alive ∷ bs
remaining (alive ∷ bs) (r ∷ rs) = (alive && not (joins r.calls)) ∷ remaining bs rs

pub record Session : Type 0 where
  -- What `run` returns, once it does.
  pub result : Bool
  pub ended : Bool
  pub publications : List Publication
  pub beats : List Tick
  -- what the drivers' threads have done, once they have been joined
  pub threads : List Loop
  pub drivers : List DeviceItem
  -- whether a thread was made for the driver that has not been joined
  pub alive : List Bool

-- `work` is what a thread does with its item, and `started` is the time that is read before the
-- loop. `run` returns if its loop ends, and then every `pthread_join`.
unfoldable pub run :
    Formats
    → Broker
    → Configured
    → (DeviceItem → Bool)
    → (Bool → DeviceItem → Loop)
    → ℕ
    → List Tick
    → List DeviceItem
    → Session
unfolding init_mqtt main_loop cleanup thread_of joins_return remaining
run f broker c created work started ticks ds =
    let (connected, publications) = init_mqtt f broker c ds in
    let starts = (start_device_worker_threads created ds).0 in
    let threads = map (thread_of work) starts in
    let stops = cleanup (map (λ l. l.item) threads) in
    let made = map (λ r. makes r.calls) starts in
    let m = main_loop ticks started in
    if connected
    then record {
      result = true;
      ended = m.ended && joins_return stops threads;
      publications = publications;
      beats = m.beats;
      threads = if m.ended then threads else [];
      drivers = if m.ended then items stops else items starts;
      alive = if m.ended then remaining made stops else made;
    }
    else record {
      result = false;
      ended = true;
      publications = publications;
      beats = [];
      threads = [];
      drivers = ds;
      alive = [];
    }
