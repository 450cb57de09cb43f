-- ===== src/Discovery.antt =====
-- src/controlobject.cpp: the node discovery of CControlObject, called by all device threads, as one
-- function for a whole call. Threads has the accesses of many calls at the same time, and Linear
-- shows that `m_mutex_discovery` puts them one after the other, so that a history is a list of
-- events. The database is the interface `Sqlite`; the rendering of the topic and
-- `cguid::getAsString` are parameters, and what `mosquitto_publish` returns is only logged.
pub mod Database
pub mod History
pub mod Threads
pub mod Linear
pub mod Progress
pub mod Confluence
pub mod Turns
use vscp_mqtt_daemon.Prelude.{
  Bool, List, [], ◌∷◌, Option, none, some, Text, bytes, text_eq, is_some, if◌then◌else◌,
}
use vscp_mqtt_daemon.Prelude.Dict.{lookup, insert}
use vscp_mqtt_daemon.Device.{Guid}
use vscp_mqtt_daemon.Event.{VscpEvent}

-- The calls of SQLite: each gives the database afterwards, or fails.
pub record Sqlite : Type 1 where
  pub Db : Type 0
  pub open_db : Text → Option Db
  pub create_table : Db → Option Db
  pub create_index : Text → Db → Option Db
  -- The INSERT of date, guid, name and description.
  pub insert_row : Text → Text → Text → Text → Db → Option Db
  -- `SELECT guid,name from discovery`: whether it can be prepared, and its rows.
  pub is_readable : Db → Bool
  pub rows : Db → List (Text × Text)

-- The topic, and the guid and time of the JSON payload, of a message on the discovery topic.
pub record Announcement : Type 0 where
  pub topic : Text
  pub guid : Text
  pub time : Text

module _ (S : Sqlite) where
  -- `m_db_vscp_daemon`, `none` if it is NULL, and `m_map_discoveryGuidToName`.
  pub record Registry : Type 0 where
    pub db : Option S.Db
    pub names : List (Text × Text)

-- What discovery needs of the control object and its libraries: `cguid::getAsString`, and the topic
-- `m_topicDiscovery` rendered for this server.
pub record Settings : Type 0 where
  pub guid_string : Guid → Text
  pub topic_discovery : Text

-- `find` on the map finds an entry.
abbrev pub is_known : Text → List (Text × Text) → Bool
is_known k names = is_some (lookup text_eq k names)

module _ (S : Sqlite) (c : Settings) where
  -- The branch for a GUID that is not in the map.
  unfoldable pub add_node : S.Db → Text → Text → Registry S → Registry S × List Announcement
  add_node db key time r = elim (S.insert_row time key (bytes "discovered") [] db) [
    | none ↦ (r, [])
    | some db' ↦ (
      record { db = some db'; names = insert text_eq key (bytes "Discovered") r.names },
      record { topic = c.topic_discovery; guid = key; time = time } ∷ [],
    )
  ]

  -- `none` stands for a NULL event; `time` is the current time as text.
  unfoldable pub discovery : Option VscpEvent → Text → Registry S → Registry S × List Announcement
  unfolding add_node
  discovery none time r = (r, [])
  discovery (some ev) time r = elim r.db [
    | none ↦ (r, [])
    | some db ↦
        if is_known (c.guid_string ev.guid) r.names
        then (r, [])
        else add_node db (c.guid_string ev.guid) time r
  ]
