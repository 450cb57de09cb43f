-- ===== src/Discovery/Confluence.antt =====
-- What the concurrent calls of discovery come to, whatever their order.
use mathlib.Core.Path.{subst}
use vscp_mqtt_daemon.Prelude.{
  Bool, true, not, ◌&&◌, ◌||◌, List, [], ◌∷◌, map, none, some, Text, text_eq, text_eq_iff, ◌≡◌,
  refl, sym, ap, ◌∙◌, arith,
}
use vscp_mqtt_daemon.Discovery.{Sqlite, Registry, Settings, is_known}
use vscp_mqtt_daemon.Discovery.Database.{contains, IsTable, IsConsistent}
use vscp_mqtt_daemon.Discovery.History.{
  IsWritable, first_seen, discovery_all-IsConsistent, discovery_all-first_seen,
}
use vscp_mqtt_daemon.Discovery.Threads.{Shared, quiet, Finished, Reach}
use vscp_mqtt_daemon.Discovery.Linear.{discovery-IsLinear}

same_known : (known : Text → Bool) (j k : Text) → text_eq j k ≡ true → known k ≡ known j
same_known known j k e = ap known (sym ((text_eq_iff j k).0 e))

contains-first_seen :
    (k : Text) (known : Text → Bool) (keys : List Text)
    → contains k (first_seen known keys) ≡ (contains k keys && not (known k))
contains-first_seen k known [] = refl
contains-first_seen k known (j ∷ keys) = ground (
  arith,
  same_known known j k,
  contains-first_seen k known keys,
  contains-first_seen k (λ i. text_eq j i || known i) keys,
)

-- The registry as the set of the GUIDs that it knows.
abbrev pub known_in : (S : Sqlite) → Shared S → Text → Bool
known_in S s k = is_known k s.names

-- The GUIDs that have been announced, as a set.
abbrev pub announced_in : (S : Sqlite) → Shared S → Text → Bool
announced_in S s k = contains k (map (λ a. a.guid) s.said)

module _ (S : Sqlite) (c : Settings) where
  -- The GUIDs of the calls.
  abbrev pub guids_of : List Finished → List Text
  guids_of = map (λ call. c.guid_string call.0.guid)

  module _ (table : IsTable S) (writable : IsWritable S) (db : S.Db) (r : Registry S)
      (open_at_start : r.db ≡ some db) (consistent : IsConsistent S r) where
    -- While the database takes every new GUID: whenever nobody has the mutex, each GUID of the
    -- finished calls that was not known has been announced exactly once, in the order in which the
    -- calls gave the mutex back, and no other; and the map and the table hold the same GUIDs.
    pub concurrent-first_seen :
        (calls : List Finished) (s : Shared S)
        → Reach S c (quiet S r) calls s
        → s.holder ≡ none
        → (map (λ a. a.guid) s.said ≡ first_seen (λ k. is_known k r.names) (guids_of calls))
          × IsConsistent S (record { db = s.db; names = s.names })
    concurrent-first_seen calls s reach free =
        let e = discovery-IsLinear S c r calls s reach free in
        (
          ap (λ v. map (λ a. a.guid) v.1) e
              ∙ (discovery_all-first_seen S c table writable calls db r open_at_start consistent).0,
          subst (λ v. IsConsistent S v.0) (sym e)
              (discovery_all-IsConsistent S c table calls r consistent),
        )

    pub known_in-calls :
        (calls : List Finished) (s : Shared S)
        → Reach S c (quiet S r) calls s
        → s.holder ≡ none
        → known_in S s ≡ (λ k. contains k (guids_of calls) || is_known k r.names)
    known_in-calls calls s reach free i k =
        (ap (λ v. is_known k v.0.names) (discovery-IsLinear S c r calls s reach free)
            ∙ (discovery_all-first_seen S c table writable calls db r open_at_start consistent).1 k)
          i

    pub announced_in-calls :
        (calls : List Finished) (s : Shared S)
        → Reach S c (quiet S r) calls s
        → s.holder ≡ none
        → announced_in S s ≡ (λ k. contains k (guids_of calls) && not (is_known k r.names))
    announced_in-calls calls s reach free i k =
        (ap (contains k) (concurrent-first_seen calls s reach free).0
            ∙ contains-first_seen k (λ j. is_known j r.names) (guids_of calls))
          i

    -- While the database takes every new GUID and keeps its table as SQLite promises, from a start
    -- with an open database whose table has the GUIDs of the map: two runs of the threads, in
    -- whatever order and however often they have seen the nodes, know
    -- and have announced the same GUIDs, as sets, if their finished calls were for the same ones.
    pub discovery_confluent :
        (calls calls' : List Finished) (s s' : Shared S)
        → Reach S c (quiet S r) calls s
        → Reach S c (quiet S r) calls' s'
        → s.holder ≡ none
        → s'.holder ≡ none
        → ((k : Text) → contains k (guids_of calls) ≡ contains k (guids_of calls'))
        → (known_in S s ≡ known_in S s') × (announced_in S s ≡ announced_in S s')
    discovery_confluent calls calls' s s' reach reach' free free' same = (
      known_in-calls calls s reach free
          ∙ ((λ i k. same k i || is_known k r.names) ∙ sym (known_in-calls calls' s' reach' free')),
      announced_in-calls calls s reach free
          ∙ ((λ i k. same k i && not (is_known k r.names))
              ∙ sym (announced_in-calls calls' s' reach' free')),
    )
