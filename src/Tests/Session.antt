-- ===== src/Tests/Session.antt =====
-- The theorems on the control object: the heartbeat and the main loop.
use vscp_mqtt_daemon.Prelude.{
  ℕ, ◌-◌, ◌%◌, ◌^◌, ◌≤◌, ◌==◌, Bool, true, false, List, [], ◌∷◌, ◌++◌, map, all, none, some, bytes,
  length, replicate, ◌≡◌, refl, arith,
}
use vscp_mqtt_daemon.Device.{DeviceItem}
use vscp_mqtt_daemon.Device.Print.{Formats}
use vscp_mqtt_daemon.Control.Heartbeat.{
  VscpEventEx, Standard, Server, name_bytes, class1_heartbeat, class2_heartbeat, segment_heartbeat,
  capabilities, periodic_events,
}
use vscp_mqtt_daemon.Control.Bytes.{slice}
use vscp_mqtt_daemon.Control.Payload.{
  payload, read_be, IsStandard, periodic_events-payload, capabilities-payload,
}
use vscp_mqtt_daemon.Control.Run.{Configured, Broker, Tick, main_loop, run}
use vscp_mqtt_daemon.Control.Session.{Spaced, last_due, all_stopped, none_alive, main_loop_lem}
use vscp_mqtt_daemon.DeviceThread.Protocol.{watch_all, idle}
use vscp_mqtt_daemon.DeviceThread.Traffic.{published, discovered}
use vscp_mqtt_daemon.Control.Threads.{Field, worker, left_by, sent_by, run_threads}
use vscp_mqtt_daemon.Control.ItemLocks.{alive}
use vscp_mqtt_daemon.Tests.Samples.{server_guid, helper, library, polls1, polls2, driver, driver2}

abbrev standard : Standard
standard = record {
  class1_information = 20;
  node_heartbeat = 9;
  class2_information = 1040;
  heart_beat = 2;
  class1_protocol = 0;
  segctrl_heartbeat = 1;
  class2_protocol = 1024;
  high_end_server_caps = 20;
  offset_guid = 8;
  offset_ip_addr = 24;
  offset_srv_name = 40;
}

standard-IsStandard : IsStandard standard
standard-IsStandard = record {
  guid_before_ip = omega arith;
  ip_before_name = omega arith;
  name_fits = omega arith;
}

abbrev server : Server
server = record {
  guid = server_guid;
  name = bytes "cellar";
  ip_address = some (192 ∷ 168 ∷ 1 ∷ 5 ∷ []);
  clock = λ n. record { date_time = 2024 ∷ 1 ∷ 1 ∷ []; timestamp = n };
  now = 1704067200;
  takes = λ ex. false;
}

abbrev blank : VscpEventEx
blank = record {
  head = 0;
  obid = 0;
  date_time = [];
  timestamp = 0;
  vscp_class = 0;
  vscp_type = 0;
  guid = [];
  size_data = 0;
  bytes_of = replicate 512 7;
}

periodic_events-payload_example :
    let a = class1_heartbeat standard server blank in
    let b = class2_heartbeat standard server a in
    let c = segment_heartbeat standard server b in
    let d = capabilities standard server c in
    (periodic_events standard server blank ≡ (a ∷ b ∷ c ∷ d ∷ [], true))
    × (payload a ≡ 0 ∷ 0 ∷ 0 ∷ [])
    × (payload b ≡ name_bytes server.name ++ replicate (64 - length (name_bytes server.name)) 0)
    × ((bs : List ℕ) × (payload c ≡ 0 ∷ bs) × (read_be bs ≡ server.now % 2 ^ 32))
periodic_events-payload_example = periodic_events-payload standard server blank refl

capabilities-payload_example :
    let p = payload (capabilities standard server blank) in
    (slice standard.offset_guid 16 p ≡ server.guid)
    × (slice standard.offset_srv_name (length (name_bytes server.name)) p ≡ name_bytes server.name)
    × ((octets : List ℕ)
        → server.ip_address ≡ some octets
        → length octets ≡ 4
        → slice standard.offset_ip_addr 4 p ≡ octets)
capabilities-payload_example = capabilities-payload standard server blank standard-IsStandard refl

abbrev ticks : List Tick
ticks =
    record { quit = false; now = 1000; again = 1000 }
    ∷ record { quit = false; now = 1001; again = 1002 }
    ∷ record { quit = false; now = 1050; again = 1050 }
    ∷ []

abbrev last_tick : Tick
last_tick = record { quit = false; now = 1063; again = 1063 }

beats_of_ticks :
    map (λ t. t.now) (main_loop (ticks ++ (last_tick ∷ [])) 1000).beats ≡ 1001 ∷ 1063 ∷ []
unfolding main_loop
beats_of_ticks = refl

main_loop_lem_example :
    let beats = (main_loop (ticks ++ (last_tick ∷ [])) 1000).beats in
    Spaced 1000 (map (λ b. b.now) beats) × (last_tick.now ≤ last_due 1000 beats)
main_loop_lem_example =
    main_loop_lem ticks last_tick 1000
      (
        omega arith,
        omega arith,
        (omega arith, omega arith, (omega arith, omega arith, (omega arith, omega arith, tt))),
      )
      refl (omega arith)

abbrev pub formats : Formats
formats = record { dec = λ n. bytes "1"; hex4 = λ n. bytes "0004"; guid_string = λ g. bytes "FF" }

abbrev pub configured : Configured
configured = record {
  guid = server_guid;
  server_name = bytes "cellar";
  root_folder = bytes "/var/lib/vscp";
  run_as_user = [];
  version = bytes "1.0.0";
  topic_daemon_base = bytes "vscp-daemon/{{srvguid}}/";
  topic_drivers = bytes "vscp-daemon/{{srvguid}}/drivers";
}

abbrev pub broker : Broker
broker = record { connects = true; start_time = none; render = λ t. t }

abbrev drivers : List DeviceItem
drivers = driver ∷ driver2 ∷ []

abbrev pub field : Field
field = record { library = λ d. library; polls1 = λ d. polls1; polls2 = λ d. polls2 }

abbrev pub quitting : List Tick
quitting = record { quit = true; now = 1000; again = 1000 } ∷ []

-- The thread of the second driver cannot be created.
abbrev pub only_first : DeviceItem → Bool
only_first d = d.driver_level == 1

run_threads_example :
    let s =
      run formats broker configured only_first
        (worker helper server_guid field)
        1000
        quitting
        drivers in
    (s.ended ≡ true)
    × (all_stopped s.drivers ≡ true)
    × (none_alive s.alive ≡ true)
    × (all (λ l. l.ended) s.threads ≡ true)
    × (map (λ l. watch_all idle l.trace) s.threads
        ≡ map (left_by helper server_guid field only_first) drivers)
    × (map (λ l. published l.trace) s.threads
        ≡ map (sent_by helper server_guid field only_first) drivers)
    × (map (λ l. discovered l.trace) s.threads
        ≡ map (sent_by helper server_guid field only_first) drivers)
run_threads_example =
    run_threads helper server_guid field only_first formats broker configured 1000 quitting drivers
      refl refl refl
