-- ===== src/Control/Handles.antt =====
-- src/controlobject.cpp: the calls of SQLite in `init` and in the destructor, in their order, with
-- the handles and statements that they make and give back. What the calls answer is as in
-- Control.Tokens and Discovery.Database.
use vscp_mqtt_daemon.Prelude.{
  ℕ, Bool, true, false, List, [], ◌∷◌, ◌++◌, Option, none, some, Text, bytes, length, replicate,
  is_some, ◌==◌, if◌then◌else◌,
}
use vscp_mqtt_daemon.Discovery.{Sqlite}
use vscp_mqtt_daemon.Discovery.Database.{Host}
use vscp_mqtt_daemon.Control.Tokens.{TokenDb}

-- The local `db_vscp_classtype`, and the field `m_db_vscp_daemon`.
pub data Handle : Type 0 where
  class_type daemon : Handle

-- `sqlite3_open` makes a handle whether it succeeds or not. `prepare` carries whether there is a
-- statement.
pub data SqliteCall : Type 0 where
  open_handle close_handle finalize exec : Handle → SqliteCall
  prepare : Handle → Bool → SqliteCall
  shut_down : SqliteCall

-- A query whose rows are read, if it can be prepared.
unfoldable pub query : Handle → Bool → List SqliteCall
query h prepared = if prepared then prepare h true ∷ finalize h ∷ [] else prepare h false ∷ []

unfoldable pub token_calls : Text → (Text → Option TokenDb) → List SqliteCall
unfolding query
token_calls path opened =
    if length path == 0
    then []
    else open_handle class_type ∷ (elim (opened path) [
      | none ↦ close_handle class_type ∷ []
      | some db ↦
          query class_type (is_some db.classes)
          ++ (query class_type (is_some db.types) ++ (close_handle class_type ∷ []))
    ])

module _ (S : Sqlite) where
  -- The statements that fill a new database, up to the first that fails.
  unfoldable pub fill_calls : Host → S.Db → List SqliteCall
  fill_calls h db = exec daemon ∷ (elim (S.create_table db) [
    | none ↦ []
    | some a ↦ exec daemon ∷ (elim (S.create_index (bytes "guid") a) [
      | none ↦ []
      | some b ↦
          exec daemon
          ∷ (elim (S.create_index (bytes "name") b) [ none ↦ [] | some e ↦ exec daemon ∷ [] ])
    ])
  ])

  -- The calls, and whether `m_db_vscp_daemon` has a handle afterwards, also when `init` gives up.
  unfoldable pub discovery_calls : Host → List SqliteCall × Bool
  unfolding query fill_calls
  discovery_calls h = if length h.path == 0 then ([], false) else elim (S.open_db h.path) [
    | none ↦ (open_handle daemon ∷ close_handle daemon ∷ [], false)
    | some db ↦ (
      open_handle daemon
          ∷ (if h.file_exists h.path then query daemon (S.is_readable db) else fill_calls h db),
      true,
    )
  ]

-- What CControlObject::discovery does with the database, for a number of new nodes.
unfoldable pub node_calls : Bool → ℕ → List SqliteCall
node_calls has_db nodes = if has_db then replicate nodes (exec daemon) else []

-- The destructor of the control object: the database is closed, and SQLite is shut down if both
-- mutexes can be destroyed.
unfoldable pub destructor_calls : Bool → Bool → Bool → List SqliteCall
destructor_calls has_db list_mutex discovery_mutex =
    (if has_db then close_handle daemon ∷ [] else [])
    ++ (if list_mutex then if discovery_mutex then shut_down ∷ [] else [] else [])
