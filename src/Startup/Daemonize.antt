-- ===== src/Startup/Daemonize.antt =====
-- src/mqttvscpd.cpp: daemonize, writePidFile and setupSignalHandlers. The answers of the system are
-- arguments; the table of open files is modelled.
use vscp_mqtt_daemon.Prelude.{
  ℕ, suc, Bool, true, false, List, [], ◌∷◌, Option, none, some, Text, bytes, set, get_elem?, ◌≡◌,
  refl, if◌then◌else◌,
}

-- The open files of a process by descriptor; none is a descriptor that is closed.
abbrev pub Table : Type 0
Table = List (Option Text)

unfoldable pub close : ℕ → Table → Table
close fd t = set t fd none

-- `open` takes the lowest descriptor that is free.
unfoldable pub open_file : Text → Table → ℕ × Table
open_file path [] = (0, some path ∷ [])
open_file path (none ∷ t) = (0, some path ∷ t)
open_file path (some other ∷ t) = let (fd, t') = open_file path t in (suc fd, some other ∷ t')

abbrev joined : Option (Option Text) → Option Text
joined none = none
joined (some o) = o

-- `dup2`, for a new descriptor inside the table.
unfoldable pub dup2 : ℕ → ℕ → Table → Table
dup2 old new t = set t new (joined (get_elem? t old))

-- The three standard files of a daemon; `null_opens` says whether /dev/null can be opened.
unfoldable pub redirect : Bool → Table → Table
unfolding close open_file dup2
redirect null_opens t =
    let closed = close 2 (close 1 (close 0 t)) in
    if null_opens
    then (let (fd, opened) = open_file (bytes "/dev/null") closed in
        close fd (dup2 fd 2 (dup2 fd 1 (dup2 fd 0 opened))))
    else closed

-- How `fork` returns, and in which process.
pub data Fork : Type 0 where
  fork_failed in_parent in_child : Fork

-- What the system answers while the daemon starts: `setsid`, none if it fails, and the files.
pub record System : Type 0 where
  pub fork : Fork
  pub session : Option ℕ
  pub null_opens : Bool
  pub files : Table

-- A process: its session, 0 if it has none of its own, its files, and its file mode mask if it is
-- set.
pub record Process : Type 0 where
  pub sid : ℕ
  pub files : Table
  pub mask : Option ℕ

-- `daemonize` returns true or false, or the parent exits with status 0.
pub data Daemonized : Type 0 where
  runs : Process → Daemonized
  failed parent_exits : Daemonized

unfoldable pub daemonize : Bool → System → Daemonized
unfolding redirect
daemonize dont_run_as_daemon s =
    if dont_run_as_daemon
    then runs (record { sid = 0; files = s.files; mask = none })
    else elim s.fork [
      | fork_failed ↦ failed
      | in_parent ↦ parent_exits
      | in_child ↦ elim s.session [
        | none ↦ failed
        | some sid ↦
            runs (record { sid = sid; files = redirect s.null_opens s.files; mask = some 63 })
      ]
    ]

pub data Signal : Type 0 where
  sig_pipe sig_quit sig_abrt sig_int sig_term sig_hup : Signal

pub data Handler : Type 0 where
  ignores stops : Handler

-- The calls of sigaction, in order.
unfoldable pub setup_signal_handlers : List (Signal × Handler)
setup_signal_handlers =
    (sig_pipe, ignores)
    ∷ (sig_quit, stops)
    ∷ (sig_abrt, stops)
    ∷ (sig_int, stops)
    ∷ (sig_term, stops)
    ∷ (sig_hup, stops)
    ∷ []

-- A daemon that has left its parent has a session of its own and the file mode mask 077, its output
-- and errors go to /dev/null if that can be opened, and the other files stay open. Its standard
-- input is closed: `open` gives /dev/null the descriptor 0, which is closed again.
pub daemonize_lem :
    (a b c : Option Text) (others : Table) (sid : ℕ) (null_opens : Bool)
    → let null = if null_opens then some (bytes "/dev/null") else none in
      daemonize false (record {
        fork = in_child;
        session = some sid;
        null_opens = null_opens;
        files = a ∷ b ∷ c ∷ others;
      })
      ≡ runs (record { sid = sid; files = none ∷ null ∷ null ∷ others; mask = some 63 })
unfolding daemonize
daemonize_lem a b c others sid true = refl
daemonize_lem a b c others sid false = refl
