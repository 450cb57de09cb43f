-- ===== src/Discovery/Database.antt =====
-- src/controlobject.cpp: the part of `init` that opens the discovery database, or creates it, and
-- the consistency of the map with the table that it sets up.
use vscp_mqtt_daemon.Prelude.{
  Each, Bool, true, false, ◌||◌, List, [], ◌∷◌, ◌++◌, map, Option, none, some, Text, bytes, text_eq,
  text_eq_iff, length, ◌==◌, ◌≡◌, refl, ap, ◌∙◌, arith, if◌then◌else◌, if_cases, inl, inr,
  Option-cases,
}
use vscp_mqtt_daemon.Prelude.Checks.{and_then}
use vscp_mqtt_daemon.Prelude.Dict.{lookup, insert, lookup-insert}
use vscp_mqtt_daemon.Discovery.{Sqlite, Registry, is_known}

-- The loop that reads the rows into the map.
unfoldable pub read_rows : List (Text × Text) → List (Text × Text) → List (Text × Text)
read_rows [] names = names
read_rows ((guid, name) ∷ rows) names = read_rows rows (insert text_eq guid name names)

-- `m_pathMainDb`, whether the file is there, the time, the daemon's GUID, and `m_strServerName`.
pub record Host : Type 0 where
  pub path : Text
  pub file_exists : Text → Bool
  pub time : Text
  pub guid : Text
  pub server_name : Text

module _ (S : Sqlite) where
  unfoldable pub open_existing : S.Db → List (Text × Text) → Registry S
  open_existing db names = record {
    db = some db;
    names = if S.is_readable db then read_rows (S.rows db) names else names;
  }

  -- The statements that fill a new database.
  unfoldable pub create_database : Host → S.Db → Option S.Db
  create_database h db = and_then (S.create_table db) (λ a.
      and_then (S.create_index (bytes "guid") a) (λ b.
        and_then (S.create_index (bytes "name") b) (λ e.
          S.insert_row h.time h.guid (bytes "local-vscp-daemon")
            (bytes "The local VSCP MQTT Daemon") e)))

  -- `none` stands for the result `false`, on which the daemon does not start.
  unfoldable pub init_discovery : Host → List (Text × Text) → Option (Registry S)
  unfolding open_existing create_database
  init_discovery h names =
      if length h.path == 0
      then some (record { db = none; names = names })
      else if h.file_exists h.path
      then elim (S.open_db h.path) [
        | none ↦ some (record { db = none; names = names })
        | some db ↦ some (open_existing db names)
      ]
      else elim (and_then (S.open_db h.path) (create_database h)) [
        | none ↦ none
        | some db ↦
            some (record { db = some db; names = insert text_eq h.guid h.server_name names })
      ]

-- The text is among the texts.
abbrev pub contains : Text → List Text → Bool
contains k [] = false
contains k (j ∷ js) = text_eq j k || contains k js

pub contains-append :
    (k : Text) (xs ys : List Text) → contains k (xs ++ ys) ≡ (contains k xs || contains k ys)
contains-append k [] ys = refl
contains-append k (x ∷ xs) ys = ground (arith, contains-append k xs ys)

pub is_known-insert :
    (k j v : Text) (names : List (Text × Text))
    → is_known k (insert text_eq j v names) ≡ (text_eq j k || is_known k names)
is_known-insert k j v names = ground (arith, lookup-insert text_eq text_eq_iff j k v names)

-- The column `guid`.
abbrev pub guids : (S : Sqlite) → S.Db → List Text
guids S db = map (λ row. row.0) (S.rows db)

-- What is relied on of the database: a new table is empty, an index changes no row, and an INSERT
-- that succeeds adds its row behind the others.
pub record IsTable (S : Sqlite) : Type 0 where
  pub created : (db : S.Db) {db' : S.Db} → S.create_table db ≡ some db' → S.rows db' ≡ []
  pub indexed :
      (column : Text) (db : S.Db) {db' : S.Db}
      → S.create_index column db ≡ some db'
      → S.rows db' ≡ S.rows db
  pub inserted :
      (time key name description : Text) (db : S.Db) {db' : S.Db}
      → S.insert_row time key name description db ≡ some db'
      → S.rows db' ≡ S.rows db ++ ((key, name) ∷ [])

-- The map and the table hold the same GUIDs.
abbrev pub IsConsistent : (S : Sqlite) → Registry S → Type 0
IsConsistent S r = elim r.db [
  | none ↦ Unit
  | some db ↦ (k : Text) → is_known k r.names ≡ contains k (guids S db)
]

read_rows-is_known :
    (k : Text) (rows names : List (Text × Text))
    → is_known k (read_rows rows names) ≡ (is_known k names || contains k (map (λ row. row.0) rows))
unfolding read_rows
read_rows-is_known k [] names = ground arith
read_rows-is_known k ((guid, name) ∷ rows) names = ground (
  arith,
  read_rows-is_known k rows (insert text_eq guid name names),
  is_known-insert k guid name names,
)

and_then-some {ℓ κ} :
    {A : Type ℓ} {B : Type κ} (o : Option A) (k : A → Option B) {b : B}
    → and_then o k ≡ some b
    → (a : A) × (o ≡ some a) × (k a ≡ some b)
and_then-some none k h = ground arith
and_then-some (some a) k h = (a, refl, h)

module _ (S : Sqlite) (table : IsTable S) where
  create_database-rows :
      (h : Host) (db : S.Db) {db' : S.Db}
      → create_database S h db ≡ some db'
      → S.rows db' ≡ (h.guid, bytes "local-vscp-daemon") ∷ []
  unfolding create_database
  create_database-rows h db e =
      let (a, p, e1) = and_then-some (S.create_table db) _ e in
      let (b, q, e2) = and_then-some (S.create_index (bytes "guid") a) _ e1 in
      let (d, r, e3) = and_then-some (S.create_index (bytes "name") b) _ e2 in
      table.inserted h.time h.guid _ _ d e3
      ∙ ap (λ rows. rows ++ ((h.guid, bytes "local-vscp-daemon") ∷ []))
          (table.indexed _ b r ∙ (table.indexed _ a q ∙ table.created db p))

  existing-IsConsistent :
      (db : S.Db) → S.is_readable db ≡ true → IsConsistent S (open_existing S db [])
  unfolding open_existing lookup
  existing-IsConsistent db readable k = rw readable (read_rows-is_known k (S.rows db) [])

  created-IsConsistent :
      (h : Host) (db : S.Db) {db' : S.Db}
      → create_database S h db ≡ some db'
      → (k : Text) → is_known k (insert text_eq h.guid h.server_name []) ≡ contains k (guids S db')
  unfolding lookup
  created-IsConsistent h db e k =
      rw (create_database-rows h db e) (is_known-insert k h.guid h.server_name [])

  -- The result of the last test of `init_discovery`.
  created_result :
      (h : Host) (o : Option S.Db)
      → Each (IsConsistent S) (elim (and_then o (create_database S h)) [
        | none ↦ none
        | some db ↦ some (record { db = some db; names = insert text_eq h.guid h.server_name [] })
      ])
  created_result h none = tt
  created_result h (some db) = elim (Option-cases (create_database S h db)) [
    | inl e ↦ rw e tt
    | inr (db', e) ↦ rw e (created-IsConsistent h db e)
  ]

  existing_result :
      (o : Option S.Db)
      → ((db : S.Db) → S.is_readable db ≡ true)
      → Each (IsConsistent S) (elim o [
        | none ↦ some (record { db = none; names = [] })
        | some db ↦ some (open_existing S db [])
      ])
  existing_result none readable = tt
  existing_result (some db) readable = existing-IsConsistent db (readable db)

  result-IsConsistent :
      (h : Host)
      → ((db : S.Db) → S.is_readable db ≡ true)
      → Each (IsConsistent S) (init_discovery S h [])
  unfolding init_discovery
  result-IsConsistent h readable =
      if_cases (Each (IsConsistent S)) (length h.path == 0) (λ _. tt)
        (λ _.
          if_cases (Each (IsConsistent S)) (h.file_exists h.path)
            (λ _. existing_result (S.open_db h.path) readable)
            (λ _. created_result h (S.open_db h.path)))

  -- Whenever `init` lets the daemon start, the map and the table hold the same GUIDs, if the table
  -- of an existing database can be read: whether the file was there or is created, and whatever
  -- fails on the way.
  pub init_discovery-IsConsistent :
      (h : Host) (r : Registry S)
      → ((db : S.Db) → S.is_readable db ≡ true)
      → init_discovery S h [] ≡ some r
      → IsConsistent S r
  init_discovery-IsConsistent h r readable e = rw e at (result-IsConsistent h readable)
