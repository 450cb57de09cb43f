-- ===== src/Discovery/Linear/Calls.antt =====
-- A whole call of discovery, and what its accesses have done before each place on the way.
use vscp_mqtt_daemon.Prelude.{
  true, false, List, [], ◌∷◌, ◌++◌, append-nil, append_assoc, Option, none, some, Text, bytes,
  text_eq, ◌≡◌, refl, sym, ap, ◌∙◌,
}
use vscp_mqtt_daemon.Prelude.Dict.{insert}
use vscp_mqtt_daemon.Event.{VscpEvent}
use vscp_mqtt_daemon.Discovery.{
  Sqlite, Announcement, Registry, Settings, is_known, add_node, discovery,
}
use vscp_mqtt_daemon.Prelude.Checks.{and_then}
use vscp_mqtt_daemon.Discovery.History.{discovery_all}
use vscp_mqtt_daemon.Discovery.Threads.{
  Place, idle, arrived, holding, adding, inserted, published, leaving, Shared, Finished,
}

-- A registry with the announcements so far.
abbrev pub State : Sqlite → Type 0
State S = Registry S × List Announcement

module _ (S : Sqlite) (c : Settings) where
  abbrev pub view : Shared S → State S
  view s = (record { db = s.db; names = s.names }, s.said)

  -- One more call.
  abbrev pub after : Finished → State S → State S
  after (ev, time) h =
      ((discovery S c (some ev) time h.0).0, h.1 ++ (discovery S c (some ev) time h.0).1)

  pub discovery_all-snoc :
      (calls : List Finished) (call : Finished) (r : Registry S)
      → discovery_all S c (calls ++ (call ∷ [])) r ≡ after call (discovery_all S c calls r)
  unfolding discovery_all
  discovery_all-snoc [] (ev, time) r =
      ap (λ said. ((discovery S c (some ev) time r).0, said)) (append-nil _)
  discovery_all-snoc ((ev, time) ∷ calls) call r =
      let (r1, said) = discovery S c (some ev) time r in
      ap (λ h. (h.0, said ++ h.1)) (discovery_all-snoc calls call r1)
      ∙ ap (λ rest. ((after call (discovery_all S c calls r1)).0, rest))
          (sym (append_assoc said _ _))

  abbrev pub announcement : VscpEvent → Text → Announcement
  announcement ev time = record {
    topic = c.topic_discovery;
    guid = c.guid_string ev.guid;
    time = time;
  }

  -- The INSERT has given a database, and these are the announcements.
  abbrev pub Inserted : State S → VscpEvent → Text → List Announcement → State S → Type 0
  Inserted h ev time said v =
      (db db' : S.Db) × (h.0.db ≡ some db)
      × (is_known (c.guid_string ev.guid) h.0.names ≡ false)
      × (S.insert_row time (c.guid_string ev.guid) (bytes "discovered") [] db ≡ some db')
      × (v ≡ (record { db = some db'; names = h.0.names }, said))

  -- What is between two accesses of the holder, at `v`, in a call that begins at `h`.
  abbrev pub Midway : State S → Place → State S → Type 0
  Midway h idle v = ⊥
  Midway h (arrived ev) v = ⊥
  Midway h (holding ev) v = v ≡ h
  Midway h (adding ev) v = (v ≡ h) × (is_known (c.guid_string ev.guid) h.0.names ≡ false)
  Midway h (inserted ev time) v = Inserted h ev time h.1 v
  Midway h (published ev time) v = Inserted h ev time (h.1 ++ (announcement ev time ∷ [])) v
  Midway h (leaving ev time) v = v ≡ after (ev, time) h

  pub after-same :
      (h : State S) (ev : VscpEvent) (time : Text)
      → discovery S c (some ev) time h.0 ≡ (h.0, [])
      → after (ev, time) h ≡ h
  after-same h ev time e =
      ap (λ out. (out.0, h.1 ++ out.1)) e ∙ ap (λ said. (h.0, said)) (append-nil h.1)

  pub discovery-known :
      (db : Option S.Db) (names : List (Text × Text)) (ev : VscpEvent) (time : Text)
      → is_known (c.guid_string ev.guid) names ≡ true
      → discovery S c (some ev) time (record { db = db; names = names })
        ≡ (record { db = db; names = names }, [])
  unfolding discovery
  discovery-known none names ev time old = refl
  discovery-known (some db) names ev time old = rw old refl

  pub discovery-fails :
      (db : Option S.Db) (names : List (Text × Text)) (ev : VscpEvent) (time : Text)
      → is_known (c.guid_string ev.guid) names ≡ false
      → and_then db (S.insert_row time (c.guid_string ev.guid) (bytes "discovered") []) ≡ none
      → discovery S c (some ev) time (record { db = db; names = names })
        ≡ (record { db = db; names = names }, [])
  unfolding discovery add_node
  discovery-fails none names ev time new f = refl
  discovery-fails (some db) names ev time new f = rw (new, add_node, f) refl

  pub after-added :
      (h : State S) (ev : VscpEvent) (time : Text) (db db' : S.Db)
      → is_known (c.guid_string ev.guid) h.0.names ≡ false
      → h.0.db ≡ some db
      → S.insert_row time (c.guid_string ev.guid) (bytes "discovered") [] db ≡ some db'
      → after (ev, time) h ≡ (
        record {
          db = some db';
          names = insert text_eq (c.guid_string ev.guid) (bytes "Discovered") h.0.names;
        },
        h.1 ++ (announcement ev time ∷ []),
      )
  unfolding discovery add_node
  after-added h ev time db db' new e f = rw (discovery, e, new, add_node, f) refl
