-- ===== src/Control/Nodes.antt =====
-- The nodes of a whole run: the threads of all drivers (Control.Threads) give their events to
-- CControlObject::discovery (Discovery.Threads), taking turns in any way.
use mathlib.Core.Path.{subst}
use mathlib.Core.List.{map-map}
use vscp_mqtt_daemon.Prelude.{
  ℕ, Bool, true, not, ◌&&◌, ◌||◌, List, map, none, some, Text, ◌≡◌, sym, ap, ◌∙◌,
}
use vscp_mqtt_daemon.Prelude.Shuffle.{flat, Shuffle}
use vscp_mqtt_daemon.Device.{Guid, DeviceItem}
use vscp_mqtt_daemon.Device.Print.{Formats}
use vscp_mqtt_daemon.Event.{VscpEvent, Vscp}
use vscp_mqtt_daemon.DeviceThread.Traffic.{discovered}
use vscp_mqtt_daemon.Discovery.{Sqlite, Registry, Settings, is_known}
use vscp_mqtt_daemon.Discovery.Database.{contains, IsTable, IsConsistent}
use vscp_mqtt_daemon.Discovery.History.{IsWritable}
use vscp_mqtt_daemon.Discovery.Threads.{Shared, quiet, Finished, Reach}
use vscp_mqtt_daemon.Discovery.Confluence.{
  known_in, announced_in, guids_of, known_in-calls, announced_in-calls,
}
use vscp_mqtt_daemon.Discovery.Turns.{has_key-Shuffle}
use vscp_mqtt_daemon.Control.Run.{Configured, Broker, Tick, run}
use vscp_mqtt_daemon.Control.Session.{all_stopped, quits}
use vscp_mqtt_daemon.Control.Threads.{Field, worker, sent_by, run_threads}

-- The GUIDs of the events that all drivers deliver in the run.
abbrev pub delivered :
    Settings → Vscp → Guid → Field → (DeviceItem → Bool) → List DeviceItem → Text → Bool
delivered c v server o created ds k =
    contains k (map (λ ev. c.guid_string ev.guid) (flat (map (sent_by v server o created) ds)))

module _ (S : Sqlite) (c : Settings) (table : IsTable S) (writable : IsWritable S) (db : S.Db)
    (r : Registry S) (open_at_start : r.db ≡ some db) (consistent : IsConsistent S r) where
  -- While the database takes every new GUID: at the end of a run of the daemon whose client connects and that is asked to quit, when the
  -- threads of the drivers have given all their events to discovery, in whatever order they took
  -- turns and access by access: the GUIDs known are those known before and those that a driver with
  -- a thread has delivered before the stop, and the GUIDs announced are those of the latter that
  -- were not known before.
  pub run_nodes :
      (v : Vscp) (server : Guid) (o : Field) (created : DeviceItem → Bool) (f : Formats)
      (broker : Broker) (conf : Configured) (started : ℕ) (ticks : List Tick) (ds : List DeviceItem)
      (calls : List Finished) (s : Shared S)
      → all_stopped ds ≡ true
      → broker.connects ≡ true
      → quits ticks ≡ true
      → Reach S c (quiet S r) calls s
      → s.holder ≡ none
      → Shuffle
          (map
            (λ l. discovered l.trace)
            (run f broker conf created (worker v server o) started ticks ds).threads)
          (map (λ call. call.0) calls)
      → (known_in S s ≡ (λ k. delivered c v server o created ds k || is_known k r.names))
        × (announced_in S s
            ≡ (λ k. delivered c v server o created ds k && not (is_known k r.names)))
  run_nodes v server o created f broker conf started ticks ds calls s stopped connects asked reach
        free turns =
      let (ended, joined, none_left, over, kept, sent, found) =
        run_threads v server o created f broker conf started ticks ds stopped connects asked in
      let same : (k : Text)
          → contains k (guids_of S c calls) ≡ delivered c v server o created ds k =
        λ k.
          ap (contains k) (
            sym (
              map-map (λ (ev : VscpEvent). c.guid_string ev.guid) (λ (call : Finished). call.0)
                calls))
          ∙ has_key-Shuffle (λ ev. c.guid_string ev.guid) k
              (subst (λ xss. Shuffle xss (map (λ call. call.0) calls)) found turns) in
      (
        known_in-calls S c table writable db r open_at_start consistent calls s reach free
            ∙ (λ i k. same k i || is_known k r.names),
        announced_in-calls S c table writable db r open_at_start consistent calls s reach free
            ∙ (λ i k. same k i && not (is_known k r.names)),
      )
