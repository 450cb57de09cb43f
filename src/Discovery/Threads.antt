-- ===== src/Discovery/Threads.antt =====
-- src/controlobject.cpp: the calls of CControlObject::discovery by the threads of all drivers, one
-- access of the database, the map or the mutex after the other, in any order.
use vscp_mqtt_daemon.Prelude.{
  ℕ, Bool, true, false, List, [], ◌∷◌, ◌++◌, Option, none, some, Text, bytes, text_eq, ◌==◌, ◌≡◌,
  if◌then◌else◌,
}
use vscp_mqtt_daemon.Prelude.Dict.{insert}
use vscp_mqtt_daemon.Event.{VscpEvent}
use vscp_mqtt_daemon.Discovery.{Sqlite, Announcement, Registry, Settings, is_known}

-- Where a thread stands in its call: behind the test of the database, with the mutex, behind the
-- test of the map, and so on to the unlocking. The text is the time that the call has read, empty
-- if it has found the node in the map and reads none.
pub data Place : Type 0 where
  idle : Place
  arrived holding adding : VscpEvent → Place
  inserted published leaving : VscpEvent → Text → Place

-- The thread holds `m_mutex_discovery`.
abbrev pub inside : Place → Bool
inside idle = false
inside (arrived ev) = false
inside (holding ev) = true
inside (adding ev) = true
inside (inserted ev time) = true
inside (published ev time) = true
inside (leaving ev time) = true

abbrev pub update {ℓ} : {A : Type ℓ} → (ℕ → A) → ℕ → A → ℕ → A
update f i a j = if i == j then a else f j

module _ (S : Sqlite) where
  -- The registry, the announcements so far, the thread that has the mutex, and the threads.
  pub record Shared : Type 0 where
    pub db : Option S.Db
    pub names : List (Text × Text)
    pub said : List Announcement
    pub holder : Option ℕ
    pub place : ℕ → Place

  -- No thread is in a call.
  abbrev pub quiet : Registry S → Shared
  quiet r = record { db = r.db; names = r.names; said = []; holder = none; place = λ i. idle }

-- A finished call: its event, and its time.
abbrev pub Finished : Type 0
Finished = VscpEvent × Text

module _ (S : Sqlite) (c : Settings) (s : Shared S) where
  -- A step of the thread `i`, with the call that it finishes, if it does.
  pub data Step (t : Shared S) : Option Finished → Type 0 where
    -- There is no database: the call returns.
    pass_by : s.db ≡ none → t ≡ s → Step t none
    arrive :
        (i : ℕ) (ev : VscpEvent) (db : S.Db)
        → s.place i ≡ idle
        → s.db ≡ some db
        → t ≡ record s { place = update s.place i (arrived ev) }
        → Step t none
    take_mutex :
        (i : ℕ) (ev : VscpEvent)
        → s.place i ≡ arrived ev
        → s.holder ≡ none
        → t ≡ record s { holder = some i; place = update s.place i (holding ev) }
        → Step t none
    find :
        (i : ℕ) (ev : VscpEvent)
        → s.place i ≡ holding ev
        → t ≡ record s {
          place =
              update s.place i
                (if is_known (c.guid_string ev.guid) s.names then leaving ev [] else adding ev);
        }
        → Step t none
    insert_row :
        (i : ℕ) (ev : VscpEvent) (time : Text) (db db' : S.Db)
        → s.place i ≡ adding ev
        → s.db ≡ some db
        → S.insert_row time (c.guid_string ev.guid) (bytes "discovered") [] db ≡ some db'
        → t ≡ record s { db = some db'; place = update s.place i (inserted ev time) }
        → Step t none
    insert_fails :
        (i : ℕ) (ev : VscpEvent) (time : Text) (db : S.Db)
        → s.place i ≡ adding ev
        → s.db ≡ some db
        → S.insert_row time (c.guid_string ev.guid) (bytes "discovered") [] db ≡ none
        → t ≡ record s { place = update s.place i (leaving ev time) }
        → Step t none
    publish :
        (i : ℕ) (ev : VscpEvent) (time : Text)
        → s.place i ≡ inserted ev time
        → t ≡ record s {
          said =
              s.said
              ++ (record { topic = c.topic_discovery; guid = c.guid_string ev.guid; time = time }
                  ∷ []);
          place = update s.place i (published ev time);
        }
        → Step t none
    add_name :
        (i : ℕ) (ev : VscpEvent) (time : Text)
        → s.place i ≡ published ev time
        → t ≡ record s {
          names = insert text_eq (c.guid_string ev.guid) (bytes "Discovered") s.names;
          place = update s.place i (leaving ev time);
        }
        → Step t none
    give_mutex :
        (i : ℕ) (ev : VscpEvent) (time : Text)
        → s.place i ≡ leaving ev time
        → t ≡ record s { holder = none; place = update s.place i idle }
        → Step t (some (ev, time))

abbrev pub extend : List Finished → Option Finished → List Finished
extend calls none = calls
extend calls (some call) = calls ++ (call ∷ [])

-- The states that any number of threads get to from `b`, with the calls that have finished since,
-- the first one first.
pub data Reach (S : Sqlite) (c : Settings) (b : Shared S) : List Finished → Shared S → Type 0 where
  start : Reach S c b [] b
  later :
      {calls calls' : List Finished} {s t : Shared S} {o : Option Finished}
      → Reach S c b calls s
      → Step S c s t o
      → calls' ≡ extend calls o
      → Reach S c b calls' t
