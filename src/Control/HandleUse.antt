-- ===== src/Control/HandleUse.antt =====
-- The handles of SQLite over the life of the control object.
use vscp_mqtt_daemon.Prelude.{
  ℕ, zero, suc, Bool, true, false, not, ◌&&◌, List, [], ◌∷◌, ◌++◌, Option, none, some, Text, length,
  is_some, ◌==◌, ◌≡◌, refl, ◌∙◌, arith, if◌then◌else◌, if_cases, inl, inr, Option-cases,
}
use vscp_mqtt_daemon.Discovery.{Sqlite, Registry}
use vscp_mqtt_daemon.Discovery.Database.{Host, open_existing, init_discovery}
use vscp_mqtt_daemon.Prelude.Checks.{check_all, check_all-append}
use vscp_mqtt_daemon.Control.Tokens.{TokenDb}
use vscp_mqtt_daemon.Control.Handles.{
  Handle, class_type, daemon, SqliteCall, open_handle, close_handle, finalize, exec, prepare,
  shut_down, query, token_calls, fill_calls, discovery_calls, node_calls, destructor_calls,
}

-- The handles that there are, and whether a statement is not finalized.
pub record Held : Type 0 where
  pub has_class_type : Bool
  pub has_daemon : Bool
  pub has_statement : Bool

abbrev has : Held → Handle → Bool
has s class_type = s.has_class_type
has s daemon = s.has_daemon

abbrev with_handle : Held → Handle → Bool → Held
with_handle s class_type b = record s { has_class_type = b }
with_handle s daemon b = record s { has_daemon = b }

-- A call, if it is allowed: a handle is made where there is none, used while it is there, and given
-- back once, without a statement; SQLite is shut down when nothing is held.
abbrev pub hold : Held → SqliteCall → Option Held
hold s (open_handle h) = if has s h then none else some (with_handle s h true)
hold s (close_handle h) =
    if has s h && not s.has_statement then some (with_handle s h false) else none
hold s (finalize h) =
    if has s h && s.has_statement then some (record s { has_statement = false }) else none
hold s (exec h) = if has s h then some s else none
hold s (prepare h made) =
    if has s h && not s.has_statement then some (record s { has_statement = made }) else none
hold s shut_down =
    if s.has_class_type
    then none
    else if s.has_daemon
    then none
    else if s.has_statement
    then none
    else some s

abbrev pub hold_all : Held → List SqliteCall → Option Held
hold_all = check_all hold

-- Only the database of the daemon, if that.
abbrev pub daemon_only : Bool → Held
daemon_only b = record { has_class_type = false; has_daemon = b; has_statement = false }

queries-held :
    (a b : Bool)
    → hold_all (daemon_only false) (
        open_handle class_type
        ∷ (query class_type a ++ (query class_type b ++ (close_handle class_type ∷ []))))
      ≡ some (daemon_only false)
unfolding query
queries-held a b = ground arith

opened_held :
    (o : Option TokenDb)
    → hold_all (daemon_only false) (
        open_handle class_type ∷ (elim o [
          | none ↦ close_handle class_type ∷ []
          | some db ↦
              query class_type (is_some db.classes)
              ++ (query class_type (is_some db.types) ++ (close_handle class_type ∷ []))
        ]))
      ≡ some (daemon_only false)
opened_held none = refl
opened_held (some db) = queries-held (is_some db.classes) (is_some db.types)

token_calls-held :
    (path : Text) (opened : Text → Option TokenDb)
    → hold_all (daemon_only false) (token_calls path opened) ≡ some (daemon_only false)
unfolding token_calls
token_calls-held path opened =
    if_cases (λ cs. hold_all (daemon_only false) cs ≡ some (daemon_only false)) (length path == 0)
      (λ _. refl) (λ _. opened_held (opened path))

node_calls-held :
    (b : Bool) (nodes : ℕ) → hold_all (daemon_only b) (node_calls b nodes) ≡ some (daemon_only b)
unfolding node_calls
node_calls-held true zero = refl
node_calls-held true (suc n) = node_calls-held true n
node_calls-held false n = refl

destructor_calls-held :
    (b list_mutex discovery_mutex : Bool)
    → hold_all (daemon_only b) (destructor_calls b list_mutex discovery_mutex)
      ≡ some (daemon_only false)
unfolding destructor_calls
destructor_calls-held b l d = ground arith

module _ (S : Sqlite) where
  fill_calls-held :
      (h : Host) (db : S.Db)
      → hold_all (daemon_only true) (fill_calls S h db) ≡ some (daemon_only true)
  unfolding fill_calls
  fill_calls-held h db = ground arith

  -- What `discovery_calls` does behind the opening.
  opened_daemon :
      (h : Host) (db : S.Db)
      → hold_all
          (daemon_only true)
          (if h.file_exists h.path then query daemon (S.is_readable db) else fill_calls S h db)
        ≡ some (daemon_only true)
  unfolding query
  opened_daemon h db = ground (arith, fill_calls-held h db)

  opened_discovery :
      (h : Host) (o : Option S.Db)
      → let out : List SqliteCall × Bool = elim o [
        | none ↦ (open_handle daemon ∷ close_handle daemon ∷ [], false)
        | some db ↦ (
          open_handle daemon
              ∷ (if h.file_exists h.path
                  then query daemon (S.is_readable db)
                  else fill_calls S h db),
          true,
        )
      ] in
        hold_all (daemon_only false) out.0 ≡ some (daemon_only out.1)
  opened_discovery h none = refl
  opened_discovery h (some db) = opened_daemon h db

  discovery_calls-held :
      (h : Host)
      → hold_all (daemon_only false) (discovery_calls S h).0
        ≡ some (daemon_only (discovery_calls S h).1)
  unfolding discovery_calls
  discovery_calls-held h =
      if_cases
        (λ (out : List SqliteCall × Bool).
          hold_all (daemon_only false) out.0 ≡ some (daemon_only out.1))
        (length h.path == 0) (λ _. refl) (λ _. opened_discovery h (S.open_db h.path))

  -- The handle that `init` leaves is the one in its result.
  init_discovery-handle :
      (h : Host) (names : List (Text × Text)) (r : Registry S)
      → init_discovery S h names ≡ some r
      → is_some r.db ≡ (discovery_calls S h).1
  unfolding init_discovery discovery_calls open_existing
  init_discovery-handle h names r e = elim (Option-cases (S.open_db h.path)) [
    | inl f ↦ ground arith
    | inr (db, f) ↦ ground arith
  ]

  -- Over the life of a control object whose `init` gets to its databases, whatever SQLite answers
  -- from then on, and whether `init` succeeds or not: no handle and no statement is used that is
  -- not there, and each is given back exactly once. After `init` nothing is held but the handle of
  -- the daemon's database, if `m_db_vscp_daemon` has one; after the destructor, whatever number of
  -- nodes have been discovered and whether the mutexes can be destroyed or not, nothing is.
  pub handles_lem :
      (path : Text) (opened : Text → Option TokenDb) (h : Host) (nodes : ℕ)
      (list_mutex discovery_mutex : Bool)
      → let (cs, has_db) = discovery_calls S h in
        let init = token_calls path opened ++ cs in
        let rest = node_calls has_db nodes ++ destructor_calls has_db list_mutex discovery_mutex in
        (hold_all (daemon_only false) init ≡ some (daemon_only has_db))
        × (hold_all (daemon_only false) (init ++ rest) ≡ some (daemon_only false))
  handles_lem path opened h nodes list_mutex discovery_mutex =
      let (cs, has_db) = discovery_calls S h in
      let a =
        check_all-append hold _ _ (token_calls path opened) cs (token_calls-held path opened)
        ∙ discovery_calls-held h in
      let b =
        check_all-append hold _ _ (node_calls has_db nodes)
          (destructor_calls has_db list_mutex discovery_mutex) (node_calls-held has_db nodes)
        ∙ destructor_calls-held has_db list_mutex discovery_mutex in
      (a, check_all-append hold _ _ (token_calls path opened ++ cs) _ a ∙ b)
