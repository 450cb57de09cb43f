-- ===== src/Discovery/History.antt =====
-- Discovery over a history of events, from any of the threads.
use vscp_mqtt_daemon.Prelude.{
  Bool, true, false, ◌||◌, List, [], ◌∷◌, ◌++◌, map, some, Text, bytes, text_eq, text_eq_iff, ◌≡◌,
  refl, sym, ap, ◌∙◌, arith, if◌then◌else◌, if_cases, inl, inr, Bool-cases, Option-cases,
}
use vscp_mqtt_daemon.Event.{VscpEvent}
use vscp_mqtt_daemon.Discovery.{
  Sqlite, Announcement, Registry, Settings, is_known, add_node, discovery,
}
use vscp_mqtt_daemon.Discovery.Database.{
  contains, contains-append, is_known-insert, guids, IsTable, IsConsistent,
}

-- The keys are unique and the disk has room: an INSERT of a new GUID succeeds.
abbrev pub IsWritable : Sqlite → Type 0
IsWritable S =
    (time key name description : Text) (db : S.Db)
    → contains key (guids S db) ≡ false
    → (db' : S.Db) × (S.insert_row time key name description db ≡ some db')

-- The events, each with the time at which it is handled.
unfoldable pub discovery_all :
    (S : Sqlite) → Settings → List (VscpEvent × Text) → Registry S → Registry S × List Announcement
discovery_all S c [] r = (r, [])
discovery_all S c ((ev, time) ∷ evs) r =
    let (r1, said) = discovery S c (some ev) time r in
    let (r2, rest) = discovery_all S c evs r1 in (r2, said ++ rest)

-- The first occurrences of the texts that are not yet known, in their order.
abbrev pub first_seen : (Text → Bool) → List Text → List Text
first_seen known [] = []
first_seen known (k ∷ ks) =
    if known k then first_seen known ks else k ∷ first_seen (λ j. text_eq k j || known j) ks

map_snoc :
    (rows : List (Text × Text)) (row : Text × Text)
    → map (λ r. r.0) (rows ++ (row ∷ [])) ≡ map (λ r. r.0) rows ++ (row.0 ∷ [])
map_snoc [] row = refl
map_snoc (r ∷ rows) row = ap (◌∷◌ r.0) (map_snoc rows row)

-- Adding what is known already changes nothing.
known_already :
    (key : Text) (names : List (Text × Text))
    → is_known key names ≡ true
    → (k : Text) → is_known k names ≡ (text_eq key k || is_known k names)
known_already key names old k = elim (Bool-cases (text_eq key k)) [
  | inl e ↦ rw (e, ← (text_eq_iff key k).0 e) old
  | inr e ↦ rw e refl
]

map_guid-append :
    (xs ys : List Announcement)
    → map (λ a. a.guid) (xs ++ ys) ≡ map (λ a. a.guid) xs ++ map (λ a. a.guid) ys
map_guid-append [] ys = refl
map_guid-append (x ∷ xs) ys = ap (◌∷◌ x.guid) (map_guid-append xs ys)

module _ (S : Sqlite) (c : Settings) (table : IsTable S) where
  added-contains :
      (db : S.Db) {db' : S.Db} (time key name description k : Text)
      → S.insert_row time key name description db ≡ some db'
      → contains k (guids S db') ≡ (text_eq key k || contains k (guids S db))
  added-contains db time key name description k e =
      rw (table.inserted time key name description db e) (
        ap (contains k) (map_snoc (S.rows db) (key, name))
        ∙ ground (arith, contains-append k (guids S db) (key ∷ [])))

  -- The entry for a node, if the INSERT succeeds, and what is left if it fails.
  add_node-IsConsistent :
      (db : S.Db) (key time : Text) (r : Registry S)
      → r.db ≡ some db
      → IsConsistent S r
      → IsConsistent S (add_node S c db key time r).0
  unfolding add_node
  add_node-IsConsistent db key time r e h =
      elim (Option-cases (S.insert_row time key (bytes "discovered") [] db)) [
        | inl f ↦ rw (f, add_node) h
        | inr (db', f) ↦
            rw (f, add_node)
              (λ k.
                is_known-insert k key (bytes "Discovered") r.names
                ∙ (ap (text_eq key k ||◌) ((rw e at h) k)
                    ∙ sym (added-contains db time key (bytes "discovered") [] k f)))
      ]

  discovery-IsConsistent :
      (ev : VscpEvent) (time : Text) (r : Registry S)
      → IsConsistent S r
      → IsConsistent S (discovery S c (some ev) time r).0
  unfolding discovery
  discovery-IsConsistent ev time r h = elim (Option-cases r.db) [
    | inl e ↦ rw (e, discovery) h
    | inr (db, e) ↦
        rw (e, discovery)
          (if_cases (λ (out : Registry S × List Announcement). IsConsistent S out.0)
            (is_known (c.guid_string ev.guid) r.names) (λ _. h)
            (λ _. add_node-IsConsistent db (c.guid_string ev.guid) time r e h))
  ]

  -- Whatever events come, in whatever order, and whichever INSERT fails: the map and the table hold
  -- the same GUIDs if they did at the start.
  pub discovery_all-IsConsistent :
      (evs : List (VscpEvent × Text)) (r : Registry S)
      → IsConsistent S r
      → IsConsistent S (discovery_all S c evs r).0
  unfolding discovery_all
  discovery_all-IsConsistent [] r h = h
  discovery_all-IsConsistent ((ev, time) ∷ evs) r h =
      discovery_all-IsConsistent evs _ (discovery-IsConsistent ev time r h)

  -- The GUIDs announced, and the GUIDs known afterwards.
  abbrev Announces : Registry S × List Announcement → List Text → (Text → Bool) → Type 0
  Announces out keys known =
      (map (λ a. a.guid) out.1 ≡ keys) × ((k : Text) → is_known k out.0.names ≡ known k)

  module _ (writable : IsWritable S) where
    add_node-Announces :
        (db : S.Db) (key time : Text) (r : Registry S)
        → r.db ≡ some db
        → IsConsistent S r
        → is_known key r.names ≡ false
        → ((db' : S.Db) × ((add_node S c db key time r).0.db ≡ some db'))
          × Announces
              (add_node S c db key time r)
              (key ∷ [])
              (λ k. text_eq key k || is_known k r.names)
    unfolding add_node
    add_node-Announces db key time r e h new =
        let (db', f) = writable time key (bytes "discovered") [] db (sym ((rw e at h) key) ∙ new) in
        rw (f, add_node)
          ((db', refl), (refl, λ k. is_known-insert k key (bytes "Discovered") r.names))

    discovery-Announces :
        (db : S.Db) (ev : VscpEvent) (time : Text) (r : Registry S)
        → r.db ≡ some db
        → IsConsistent S r
        → let key = c.guid_string ev.guid in
          let out = discovery S c (some ev) time r in
          ((db' : S.Db) × (out.0.db ≡ some db'))
          × Announces out
              (if is_known key r.names then [] else key ∷ [])
              (λ k. text_eq key k || is_known k r.names)
    unfolding discovery
    discovery-Announces db ev time r e h =
        elim (Bool-cases (is_known (c.guid_string ev.guid) r.names)) [
          | inl old ↦
              rw (e, discovery, old)
                ((db, e), (refl, known_already (c.guid_string ev.guid) r.names old))
          | inr new ↦
              rw (e, discovery, new) (add_node-Announces db (c.guid_string ev.guid) time r e h new)
        ]

    -- The same, with what is known at the start given as a test.
    history :
        (evs : List (VscpEvent × Text)) (db : S.Db) (r : Registry S) (known : Text → Bool)
        → r.db ≡ some db
        → IsConsistent S r
        → ((k : Text) → is_known k r.names ≡ known k)
        → let keys = map (λ e. c.guid_string e.0.guid) evs in
          Announces
            (discovery_all S c evs r)
            (first_seen known keys)
            (λ k. contains k keys || known k)
    unfolding discovery_all
    history [] db r known e h agree = (refl, agree)
    history ((ev, time) ∷ evs) db r known e h agree =
        let key = c.guid_string ev.guid in
        let ((db', e'), (said, names)) = discovery-Announces db ev time r e h in
        let h' = discovery-IsConsistent ev time r h in
        elim (Bool-cases (known key)) [
          | inl old ↦
              let again = known_already key r.names (agree key ∙ old) in
              let ih = history evs db' _ known e' h' (λ k. names k ∙ (sym (again k) ∙ agree k)) in
              (
                ground (
                  arith,
                  map_guid-append (discovery S c (some ev) time r).1
                      (discovery_all S c evs (discovery S c (some ev) time r).0).1,
                  said,
                  agree key,
                  ih.0,
                ),
                λ k. ground (arith, ih.1 k, again k, agree k),
              )
          | inr new ↦
              let ih =
                history evs db' _ (λ k. text_eq key k || known k) e' h'
                  (λ k. names k ∙ ap (text_eq key k ||◌) (agree k)) in
              (
                ground (
                  arith,
                  map_guid-append (discovery S c (some ev) time r).1
                      (discovery_all S c evs (discovery S c (some ev) time r).0).1,
                  said,
                  agree key,
                  ih.0,
                ),
                λ k. ground (arith, ih.1 k),
              )
        ]

    -- While the database takes every new GUID, and the map agrees with it at the start, a history of
    -- events announces each GUID that was not known exactly once, in the order of the first events
    -- that carry them, and no other. Afterwards the GUIDs known are those known before and those of
    -- the events, so that neither the order of the events nor their repetition matters.
    pub discovery_all-first_seen :
        (evs : List (VscpEvent × Text)) (db : S.Db) (r : Registry S)
        → r.db ≡ some db
        → IsConsistent S r
        → let keys = map (λ e. c.guid_string e.0.guid) evs in
          let out = discovery_all S c evs r in
          (map (λ a. a.guid) out.1 ≡ first_seen (λ k. is_known k r.names) keys)
          × ((k : Text) → is_known k out.0.names ≡ (contains k keys || is_known k r.names))
    discovery_all-first_seen evs db r e h = history evs db r _ e h (λ k. refl)
