-- ===== src/Tests/Daemon.antt =====
-- The theorem on the nodes of the daemon, on a document with one Level II driver, which delivers
-- one event.
use mathlib.Core.Path.{subst}
use mathlib.Core.List.{filter_map}
use vscp_mqtt_daemon.Prelude.{
  true, false, not, ◌&&◌, ◌||◌, [], ◌∷◌, map, some, none, bytes, text_eq, ◌≡◌, refl, sym, ap, ◌∙◌,
  if◌then◌else◌, arith,
}
use vscp_mqtt_daemon.Prelude.Shuffle.{Shuffle, all_taken, take_next}
use vscp_mqtt_daemon.Control.Json.{Outcome, done, refused, thrown}
use vscp_mqtt_daemon.Control.Settings.{is_done}
use vscp_mqtt_daemon.Control.Init.{Host, Daemon, init}
use vscp_mqtt_daemon.Startup.Object.{Surroundings, configured, work, run_daemon}
use vscp_mqtt_daemon.Startup.Nodes.{daemon_nodes}
use vscp_mqtt_daemon.Tests.Settings.{Doc, obj, str, arr, num, doc, entry_fields}
use vscp_mqtt_daemon.Discovery.{is_known}
use vscp_mqtt_daemon.Discovery.Database.{read_rows}
use vscp_mqtt_daemon.Discovery.Threads.{
  idle, arrived, holding, adding, inserted, published, leaving, update, Shared, quiet, arrive,
  take_mutex, find, insert_row, publish, add_name, give_mutex, Reach, start, later,
}
use vscp_mqtt_daemon.Prelude.Dict.{lookup, insert}
use vscp_mqtt_daemon.Event.{VscpEvent}
use vscp_mqtt_daemon.Event.Stamp.{stamp}
use vscp_mqtt_daemon.Discovery.Confluence.{known_in, announced_in}
use vscp_mqtt_daemon.DeviceThread.Traffic.{discovered}
use vscp_mqtt_daemon.Control.Session.{all_stopped}
use vscp_mqtt_daemon.Control.Threads.{sent_by, run_threads}
use vscp_mqtt_daemon.Control.Nodes.{delivered}
use vscp_mqtt_daemon.Tests.Samples.{helper, event}
use vscp_mqtt_daemon.Tests.Nodes.{table, table-IsTable, table-IsWritable, settings, registry, noon}
use vscp_mqtt_daemon.Tests.Session.{field}
use vscp_mqtt_daemon.Tests.Boot.{host, surroundings, memory-Fits}
use vscp_mqtt_daemon.Tests.Server.{guid_class}
use vscp_mqtt_daemon.Control.ReadJson.{read_configuration, new_values, default_values}
use vscp_mqtt_daemon.Control.Config.{default_topics}
use vscp_mqtt_daemon.DeviceList.{add_item, filled_item, get_device_item_from_name, find_from}

abbrev ev : VscpEvent
ev = stamp helper 1000 event

abbrev before_call : Shared table
before_call = quiet table registry

abbrev after_call : Shared table
after_call = record {
  db = some ((ev.guid, bytes "discovered") ∷ []);
  names = (ev.guid, bytes "Discovered") ∷ [];
  said = record { topic = settings.topic_discovery; guid = ev.guid; time = noon } ∷ [];
  holder = none;
  place =
      update
        (update
          (update
            (update
              (update (update (update before_call.place 0 (arrived ev)) 0 (holding ev)) 0
                (adding ev))
              0 (inserted ev noon))
            0 (published ev noon))
          0 (leaving ev noon))
        0 idle;
}

after_call-Reach : Reach table settings before_call ((ev, noon) ∷ []) after_call
unfolding lookup insert
after_call-Reach =
    later
      (later
        (later
          (later
            (later
              (later (later start (arrive 0 ev [] refl refl refl) refl)
                (take_mutex 0 ev refl refl refl) refl)
              (find 0 ev refl refl) refl)
            (insert_row 0 ev noon [] ((ev.guid, bytes "discovered") ∷ []) refl refl refl refl) refl)
          (publish 0 ev noon refl refl) refl)
        (add_name 0 ev noon refl refl) refl)
      (give_mutex 0 ev noon refl refl) refl

abbrev one_driver : Doc
one_driver =
    obj (λ k. true)
      (λ k.
        if text_eq k (bytes "drivers")
        then obj (λ i. text_eq i (bytes "level1") || text_eq i (bytes "level2"))
            (λ i. arr (if text_eq i (bytes "level2") then 1 else 0) (λ n. entry_fields))
        else if text_eq k (bytes "mqtt")
        then obj (λ i. false) (λ i. num 0)
        else str (bytes "vscp"))

abbrev home : Host doc guid_class table
home = record host { parsed = λ path. some one_driver }

abbrev around : Surroundings doc guid_class table
around = record surroundings { field = field }

false_not_true : false ≡ true → ⊥
false_not_true e = ground (arith, e)

-- The value of a result.
unfoldable value_of : {A : Type 0} (o : Outcome A) → is_done o ≡ true → (a : A) × (o ≡ done a)
value_of (done a) e = (a, refl)
value_of refused e = absurd (false_not_true e)
value_of thrown e = absurd (false_not_true e)

abbrev booted : Outcome (Daemon doc guid_class table)
booted = init doc guid_class table home (bytes "/b.json") (bytes "/srv") []

booted_done : is_done booted ≡ true
unfolding init text_eq read_configuration new_values default_values default_topics add_item
    get_device_item_from_name find_from filled_item
booted_done = refl

unfoldable daemon : Daemon doc guid_class table
unfolding value_of
daemon = (value_of booted booted_done).0

booted-daemon : booted ≡ done daemon
unfolding daemon
booted-daemon = (value_of booted booted_done).1

daemon-registry : daemon.registry ≡ registry
unfolding daemon init text_eq read_configuration new_values default_values default_topics add_item
    get_device_item_from_name find_from filled_item read_rows
daemon-registry = refl

-- The driver delivers one event.
sent_of_daemon :
    map
      (sent_by helper (around.guid_bytes daemon.guid) field around.created)
      daemon.read.values.drivers.devices
    ≡ (ev ∷ []) ∷ []
unfolding daemon filter_map init text_eq read_configuration new_values default_values default_topics
    add_item get_device_item_from_name find_from filled_item
sent_of_daemon = refl

daemon-Reach : Reach table settings (quiet table daemon.registry) ((ev, noon) ∷ []) after_call
daemon-Reach =
    subst (λ r. Reach table settings (quiet table r) ((ev, noon) ∷ []) after_call)
      (sym daemon-registry) after_call-Reach

daemon_stopped : all_stopped daemon.read.values.drivers.devices ≡ true
unfolding daemon init text_eq read_configuration new_values default_values default_topics add_item
    get_device_item_from_name find_from filled_item
daemon_stopped = refl

daemon_turns :
    Shuffle
      (map (λ l. discovered l.trace) (run_daemon doc guid_class table home around daemon).threads)
      (ev ∷ [])
unfolding run_daemon work
daemon_turns =
    let (ended, joined, none_left, over, kept, sent, found) =
      run_threads helper (around.guid_bytes daemon.guid) field around.created around.formats
        (around.broker daemon) (configured doc guid_class table home around daemon) around.started
        around.ticks daemon.read.values.drivers.devices daemon_stopped refl refl in
    subst (λ xss. Shuffle xss (ev ∷ [])) (sym (found ∙ sent_of_daemon))
      (take_next [] ev [] [] refl (all_taken refl))

daemon_nodes_example :
    let new =
      delivered settings helper
        (around.guid_bytes daemon.guid)
        field
        around.created
        daemon.read.values.drivers.devices in
    (known_in table after_call ≡ (λ k. new k || is_known k daemon.registry.names))
    × (announced_in table after_call ≡ (λ k. new k && not (is_known k daemon.registry.names)))
daemon_nodes_example =
    daemon_nodes doc guid_class table home around table-IsTable (λ rows. refl) (λ text key. refl)
      memory-Fits table-IsWritable settings (bytes "/b.json") (bytes "/srv") [] daemon []
      ((ev, noon) ∷ []) after_call booted-daemon (ap (λ r. r.db) daemon-registry) refl refl
      daemon-Reach refl daemon_turns
