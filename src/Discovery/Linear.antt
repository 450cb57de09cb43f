-- ===== src/Discovery/Linear.antt =====
-- The concurrent calls of discovery against the calls one after the other.
pub mod Places
pub mod Calls
pub mod Steps
use vscp_mqtt_daemon.Prelude.{
  ℕ, Bool, true, false, List, [], ◌∷◌, ◌++◌, append-nil, append_assoc, Option, none, some, Text,
  bytes, text_eq, ◌==◌, ◌≡◌, refl, sym, ap, ◌∙◌, arith, if◌then◌else◌, inl, inr, Bool-cases,
  Option-cases,
}
use vscp_mqtt_daemon.Prelude.Dict.{insert}
use vscp_mqtt_daemon.Event.{VscpEvent}
use vscp_mqtt_daemon.Discovery.{
  Sqlite, Announcement, Registry, Settings, is_known, add_node, discovery,
}
use vscp_mqtt_daemon.Prelude.Checks.{and_then}
use vscp_mqtt_daemon.Discovery.History.{discovery_all}
use vscp_mqtt_daemon.Discovery.Threads.{
  Place, idle, arrived, holding, adding, inserted, published, leaving, inside, update, Shared,
  quiet, Finished, Step, pass_by, arrive, take_mutex, find, insert_row, insert_fails, publish,
  add_name, give_mutex, extend, Reach, start, later,
}
use vscp_mqtt_daemon.Discovery.Linear.Places.{
  holds, some-inj, update-at, update-other, update-cases, update-holds,
}
use vscp_mqtt_daemon.Discovery.Linear.Calls.{
  State, view, after, announcement, Inserted, Midway, after-same, discovery-known, discovery-fails,
  after-added, discovery_all-snoc,
}
use vscp_mqtt_daemon.Discovery.Linear.Steps.{Inv, is_holder, after_finished, Step-Inv}

module _ (S : Sqlite) (c : Settings) where
  discovery_all-extend :
      (calls : List Finished) (o : Option Finished) (r : Registry S)
      → discovery_all S c (extend calls o) r ≡ after_finished S c o (discovery_all S c calls r)
  discovery_all-extend calls none r = refl
  discovery_all-extend calls (some call) r = discovery_all-snoc S c calls call r

  pub Reach-Inv :
      (r : Registry S) {calls : List Finished} {s : Shared S}
      → Reach S c (quiet S r) calls s
      → Inv S c (discovery_all S c calls r) s
  unfolding discovery_all
  Reach-Inv r start = record {
    inside_holds = λ i. refl;
    at_rest = λ e. refl;
    amid = λ i e. absurd (ground arith);
  }
  Reach-Inv r (later {calls} {o} reach step more) =
      rw (more, discovery_all-extend calls o r) (Step-Inv S c step (Reach-Inv r reach))

  -- However the threads interleave their calls of discovery, access by access: whenever nobody has
  -- the mutex, the database, the map and the announcements are those of the finished calls made one
  -- after S c the other, in the order in which they have given the mutex back.
  pub discovery-IsLinear :
      (r : Registry S) (calls : List Finished) (s : Shared S)
      → Reach S c (quiet S r) calls s
      → s.holder ≡ none
      → view S c s ≡ discovery_all S c calls r
  discovery-IsLinear r calls s reach free = (Reach-Inv r reach).at_rest free

  pub one_inside :
      (r : Registry S) {calls : List Finished} {s : Shared S} (i j : ℕ)
      → Reach S c (quiet S r) calls s
      → inside (s.place i) ≡ true
      → inside (s.place j) ≡ true
      → i ≡ j
  one_inside r i j reach a b =
      let inv = Reach-Inv r reach in some-inj (sym (is_holder S c i inv a) ∙ is_holder S c j inv b)
