-- ===== src/Tests/Nodes.antt =====
-- The theorems on the discovery of nodes, on a database that is a list of rows.
use vscp_mqtt_daemon.Prelude.{
  text_eq, true, false, List, [], ◌∷◌, ◌++◌, map, Option, none, some, Text, bytes, ◌≡◌, refl, arith,
  if◌then◌else◌,
}
use vscp_mqtt_daemon.Prelude.Dict.{lookup, insert}
use vscp_mqtt_daemon.Event.{VscpEvent}
use vscp_mqtt_daemon.Discovery.{Sqlite, Registry, Settings, is_known}
use vscp_mqtt_daemon.Discovery.Database.{
  contains, Host, init_discovery, IsTable, IsConsistent, init_discovery-IsConsistent,
}
use vscp_mqtt_daemon.Discovery.History.{IsWritable, discovery_all, first_seen}
use vscp_mqtt_daemon.Discovery.Threads.{
  idle, arrived, holding, adding, inserted, published, leaving, update, Shared, quiet, Finished,
  arrive, take_mutex, find, insert_row, publish, add_name, give_mutex, Reach, start, later,
}
use vscp_mqtt_daemon.Discovery.Linear.Calls.{view}
use vscp_mqtt_daemon.Discovery.Linear.{discovery-IsLinear}
use vscp_mqtt_daemon.Discovery.Progress.{discovery_returns}
use vscp_mqtt_daemon.Discovery.Confluence.{
  known_in, announced_in, guids_of, concurrent-first_seen, discovery_confluent,
}
use vscp_mqtt_daemon.Control.Tokens.{TokenDb}
use vscp_mqtt_daemon.Control.Handles.{token_calls, discovery_calls, node_calls, destructor_calls}
use vscp_mqtt_daemon.Control.HandleUse.{hold_all, daemon_only, handles_lem}
use vscp_mqtt_daemon.Tests.Samples.{server_guid, event}

abbrev Rows : Type 0
Rows = List (Text × Text)

abbrev keys : Rows → List Text
keys = map (λ row. row.0)

-- The column `guid` is UNIQUE.
abbrev insert_new : Text → Text → Text → Text → Rows → Option Rows
insert_new time key name description rows =
    if contains key (keys rows) then none else some (rows ++ ((key, name) ∷ []))

abbrev pub table : Sqlite
table = record {
  Db = Rows;
  open_db = λ path. some [];
  create_table = λ rows. some [];
  create_index = λ column rows. some rows;
  insert_row = insert_new;
  is_readable = λ rows. true;
  rows = λ rows. rows;
}

insert_new-some :
    (time key name description : Text) (rows : Rows) {rows' : Rows}
    → insert_new time key name description rows ≡ some rows'
    → rows' ≡ rows ++ ((key, name) ∷ [])
insert_new-some time key name description rows e = ground arith

pub table-IsTable : IsTable table
table-IsTable = record {
  created = λ rows {db'} e. ground arith;
  indexed = λ column rows {db'} e. ground arith;
  inserted =
      λ time key name description rows {db'} e. insert_new-some time key name description rows e;
}

pub table-IsWritable : IsWritable table
table-IsWritable time key name description rows new = (rows ++ ((key, name) ∷ []), rw new refl)

abbrev pub settings : Settings
settings = record { guid_string = λ g. g; topic_discovery = bytes "vscp-daemon/discovery" }

abbrev pub registry : Registry table
registry = record { db = some []; names = [] }

registry-IsConsistent : IsConsistent table registry
unfolding lookup
registry-IsConsistent k = refl

abbrev events : List (VscpEvent × Text)
events =
    (event, bytes "12:00")
    ∷ (record event { guid = server_guid }, bytes "12:01")
    ∷ (event, bytes "12:02")
    ∷ []

abbrev host : Host
host = record {
  path = bytes "/vscp.db";
  file_exists = λ path. false;
  time = bytes "12:00";
  guid = server_guid;
  server_name = bytes "cellar";
}

abbrev created : Registry table
created = record {
  db = some ((server_guid, bytes "local-vscp-daemon") ∷ []);
  names = (server_guid, bytes "cellar") ∷ [];
}

init_discovery-created : init_discovery table host [] ≡ some created
unfolding init_discovery insert
init_discovery-created = refl

init_discovery-IsConsistent_example : IsConsistent table created
init_discovery-IsConsistent_example =
    init_discovery-IsConsistent table table-IsTable host created (λ rows. refl)
      init_discovery-created

-- Two threads: the first is inside when the second comes.
abbrev at_first : Shared table
at_first = let s = quiet table registry in record s { place = update s.place 0 (arrived event) }

abbrev at_second : Shared table
at_second = record at_first { place = update at_first.place 1 (arrived event) }

abbrev first_inside : Shared table
first_inside = record at_second {
  holder = some 0;
  place = update at_second.place 0 (holding event);
}

first_inside-Reach : Reach table settings (quiet table registry) [] first_inside
first_inside-Reach =
    later
      (later (later start (arrive 0 event [] refl refl refl) refl)
        (arrive 1 event [] refl refl refl) refl)
      (take_mutex 0 event refl refl refl) refl

abbrev first_adding : Shared table
first_adding = record first_inside { place = update first_inside.place 0 (adding event) }

first_adding-Reach : Reach table settings (quiet table registry) [] first_adding
unfolding lookup
first_adding-Reach = later first_inside-Reach (find 0 event refl refl) refl

abbrev pub noon : Text
noon = bytes "12:00"

abbrev one_row : Rows
one_row = (event.guid, bytes "discovered") ∷ []

abbrev first_inserted : Shared table
first_inserted = record first_adding {
  db = some one_row;
  place = update first_adding.place 0 (inserted event noon);
}

abbrev first_published : Shared table
first_published = record first_inserted {
  said = record { topic = settings.topic_discovery; guid = event.guid; time = noon } ∷ [];
  place = update first_inserted.place 0 (published event noon);
}

abbrev first_leaving : Shared table
first_leaving = record first_published {
  names = (event.guid, bytes "Discovered") ∷ [];
  place = update first_published.place 0 (leaving event noon);
}

abbrev first_done : Shared table
first_done = record first_leaving { holder = none; place = update first_leaving.place 0 idle }

first_done-Reach : Reach table settings (quiet table registry) ((event, noon) ∷ []) first_done
unfolding insert
first_done-Reach =
    later
      (later
        (later
          (later first_adding-Reach (insert_row 0 event noon [] one_row refl refl refl refl) refl)
          (publish 0 event noon refl refl) refl)
        (add_name 0 event noon refl refl) refl)
      (give_mutex 0 event noon refl refl) refl

discovery-IsLinear_example :
    view table settings first_done ≡ discovery_all table settings ((event, noon) ∷ []) registry
discovery-IsLinear_example =
    discovery-IsLinear table settings registry ((event, noon) ∷ []) first_done first_done-Reach refl

-- The second thread waits for the first one.
discovery_returns_example :
    (earlier : List Finished) × (time : Text) × (t : Shared table) × Reach table settings
      first_inside
      (earlier ++ ((event, time) ∷ []))
      t
    × (t.holder ≡ none)
    × (t.place 1 ≡ idle)
discovery_returns_example =
    discovery_returns table settings registry [] first_inside 1 event first_inside-Reach refl

-- The second thread then finds the node in the map.
abbrev second_inside : Shared table
second_inside = record first_done {
  holder = some 1;
  place = update first_done.place 1 (holding event);
}

abbrev second_leaving : Shared table
second_leaving = record second_inside { place = update second_inside.place 1 (leaving event []) }

abbrev second_done : Shared table
second_done = record second_leaving { holder = none; place = update second_leaving.place 1 idle }

second_done-Reach :
    Reach table settings (quiet table registry) ((event, noon) ∷ (event, []) ∷ []) second_done
unfolding lookup text_eq
second_done-Reach =
    later
      (later (later first_done-Reach (take_mutex 1 event refl refl refl) refl)
        (find 1 event refl refl) refl)
      (give_mutex 1 event [] refl refl) refl

concurrent-first_seen_example :
    (map (λ a. a.guid) second_done.said
      ≡ first_seen
          (λ k. is_known k registry.names)
          (guids_of table settings ((event, noon) ∷ (event, []) ∷ [])))
    × IsConsistent table (record { db = second_done.db; names = second_done.names })
concurrent-first_seen_example =
    concurrent-first_seen table settings table-IsTable table-IsWritable [] registry refl
      registry-IsConsistent ((event, noon) ∷ (event, []) ∷ []) second_done second_done-Reach refl

discovery_confluent_example :
    (known_in table first_done ≡ known_in table second_done)
    × (announced_in table first_done ≡ announced_in table second_done)
discovery_confluent_example =
    discovery_confluent table settings table-IsTable table-IsWritable [] registry refl
      registry-IsConsistent ((event, noon) ∷ []) ((event, noon) ∷ (event, []) ∷ []) first_done
      second_done first_done-Reach second_done-Reach refl refl (λ k. ground arith)

-- The types cannot be read.
abbrev tokens : Text → Option TokenDb
tokens path = some (record { classes = some []; types = none })

handles_lem_example :
    let (cs, has_db) = discovery_calls table host in
    let init = token_calls (bytes "/events.db") tokens ++ cs in
    let rest = node_calls has_db 3 ++ destructor_calls has_db true false in
    (hold_all (daemon_only false) init ≡ some (daemon_only has_db))
    × (hold_all (daemon_only false) (init ++ rest) ≡ some (daemon_only false))
handles_lem_example = handles_lem table (bytes "/events.db") tokens host 3 true false
