-- ===== src/Startup/Signals.antt =====
-- src/mqttvscpd.cpp: _sighandlerStop, and signals that arrive between the effects of `main`.
-- _sighandlerRestart is installed by nothing.
use vscp_mqtt_daemon.Prelude.{
  Bool, true, false, ◌||◌, List, [], ◌∷◌, ◌++◌, map, Option, none, some, ◌≡◌, ◌≢◌, refl, arith,
  if◌then◌else◌, ◌∙◌, append_assoc,
}
use vscp_mqtt_daemon.Startup.Options.{Start}
use vscp_mqtt_daemon.Startup.Daemonize.{
  Process, Signal, sig_pipe, sig_quit, sig_abrt, sig_int, sig_term, sig_hup, Handler, ignores,
  stops, setup_signal_handlers,
}
use vscp_mqtt_daemon.Startup.Program.{
  Effect, write_pid, change_dir, unlink, handle, make_folder, set_logger, new_object, delete_object,
  World, ControlObject, main_init, main_process, write_pid_file, enter_root,
}

-- What `gpobj` points to: the control object with `m_bQuit`, or nothing that is there.
pub data Object : Type 0 where
  live : (quit : Bool) → Object
  no_object : Object

-- The actions that are set for signals, and the object.
pub record Running : Type 0 where
  pub actions : List (Signal × Handler)
  pub object : Object

-- The process goes on; it is ended by a signal that has no action; or the handler writes to an
-- object that is not there.
pub data Fate : Type 0 where
  on : Running → Fate
  killed faults : Fate

-- The object after the handler; none if there is none.
unfoldable pub sighandler_stop : Object → Option Object
sighandler_stop (live quit) = some (live true)
sighandler_stop no_object = none

abbrev map_first : Option (Object × Bool) → Option Object
map_first none = none
map_first (some (o, stop_daemon)) = some o

-- `gbStopDaemon` behind the object; nothing reads it.
unfoldable pub sighandler_restart : Object → Option (Object × Bool)
sighandler_restart (live quit) = some (live true, false)
sighandler_restart no_object = none

-- A handler for a restart would do to the object what the one for a stop does.
restart-stop : (o : Object) → map_first (sighandler_restart o) ≡ sighandler_stop o
unfolding sighandler_restart sighandler_stop
restart-stop (live quit) = refl
restart-stop no_object = refl

abbrev same : Signal → Signal → Bool
same sig_pipe sig_pipe = true
same sig_quit sig_quit = true
same sig_abrt sig_abrt = true
same sig_int sig_int = true
same sig_term sig_term = true
same sig_hup sig_hup = true
same _ _ = false

abbrev action_of : Signal → List (Signal × Handler) → Option Handler
action_of sig [] = none
action_of sig ((other, h) ∷ hs) =
    let rest = action_of sig hs in if same other sig then some h else rest

abbrev handled : Running → Option Object → Fate
handled r none = faults
handled r (some o) = on (record r { object = o })

unfoldable pub deliver : Signal → Running → Fate
unfolding sighandler_stop
deliver sig r = elim (action_of sig r.actions) [
  | none ↦ killed
  | some ignores ↦ on r
  | some stops ↦ handled r (sighandler_stop r.object)
]

-- The effect of a call of `main` on what signals meet.
unfoldable pub advance : Effect → Running → Running
advance (handle hs) r = record r { actions = hs }
advance new_object r = record r { object = live false }
advance delete_object r = record r { object = no_object }
advance (write_pid path sid) r = r
advance (change_dir path) r = r
advance (unlink path) r = r
advance (make_folder path) r = r
advance (set_logger sinks) r = r

-- A call of `main`, or a signal.
pub data Occurrence : Type 0 where
  call : Effect → Occurrence
  signal : Signal → Occurrence

unfoldable pub play : List Occurrence → Running → Fate
unfolding deliver advance
play [] r = on r
play (call e ∷ es) r = play es (advance e r)
play (signal sig ∷ es) r = elim (deliver sig r) [
  | on r' ↦ play es r'
  | killed ↦ killed
  | faults ↦ faults
]

-- Before `main` has set any action.
abbrev pub at_start : Running
at_start = record { actions = []; object = no_object }

abbrev pub is_stop : Occurrence → Bool
is_stop (signal sig_pipe) = false
is_stop (signal _) = true
is_stop (call e) = false

-- No call sets actions, or makes or deletes the object.
abbrev pub steady : List Occurrence → Bool
steady [] = true
steady (call (handle hs) ∷ es) = false
steady (call new_object ∷ es) = false
steady (call delete_object ∷ es) = false
steady (_ ∷ es) = steady es

abbrev pub stop_among : List Occurrence → Bool
stop_among [] = false
stop_among (e ∷ es) = is_stop e || stop_among es

play-calls :
    (es : List Effect) (os : List Occurrence) (r : Running)
    → steady (map call es) ≡ true
    → play (map call es ++ os) r ≡ play os r
unfolding play advance
play-calls [] os r h = refl
play-calls (write_pid path sid ∷ es) os r h = play-calls es os r h
play-calls (change_dir path ∷ es) os r h = play-calls es os r h
play-calls (unlink path ∷ es) os r h = play-calls es os r h
play-calls (handle hs ∷ es) os r h = ground arith
play-calls (make_folder path ∷ es) os r h = play-calls es os r h
play-calls (set_logger sinks ∷ es) os r h = play-calls es os r h
play-calls (new_object ∷ es) os r h = ground arith
play-calls (delete_object ∷ es) os r h = ground arith

-- The actions that `main` sets, and the object.
abbrev pub served : Bool → Running
served quit = record { actions = setup_signal_handlers; object = live quit }

play-steady :
    (os : List Occurrence) (quit : Bool)
    → steady os ≡ true
    → play os (served quit) ≡ on (served (quit || stop_among os))
unfolding play deliver advance setup_signal_handlers
play-steady [] quit h = ground arith
play-steady (signal sig_pipe ∷ os) quit h = ground (arith, play-steady os quit h)
play-steady (signal sig_quit ∷ os) quit h = ground (arith, play-steady os true h)
play-steady (signal sig_abrt ∷ os) quit h = ground (arith, play-steady os true h)
play-steady (signal sig_int ∷ os) quit h = ground (arith, play-steady os true h)
play-steady (signal sig_term ∷ os) quit h = ground (arith, play-steady os true h)
play-steady (signal sig_hup ∷ os) quit h = ground (arith, play-steady os true h)
play-steady (call (write_pid path sid) ∷ os) quit h = play-steady os quit h
play-steady (call (change_dir path) ∷ os) quit h = play-steady os quit h
play-steady (call (unlink path) ∷ os) quit h = play-steady os quit h
play-steady (call (handle hs) ∷ os) quit h = ground arith
play-steady (call (make_folder path) ∷ os) quit h = play-steady os quit h
play-steady (call (set_logger sinks) ∷ os) quit h = play-steady os quit h
play-steady (call new_object ∷ os) quit h = ground arith
play-steady (call delete_object ∷ os) quit h = ground arith

-- What `main` does before it sets the actions.
abbrev pub before_handlers : World → Start → Process → List Effect
before_handlers w s p = write_pid_file w s.dont_run_as_daemon p.sid ++ enter_root w s.root_folder

before_handlers-steady :
    (w : World) (s : Start) (p : Process) → steady (map call (before_handlers w s p)) ≡ true
unfolding write_pid_file enter_root
before_handlers-steady w s p = ground arith

fault_lem :
    (sig : Signal)
    → sig ≢ sig_pipe
    → play (call (handle setup_signal_handlers) ∷ signal sig ∷ []) at_start ≡ faults
unfolding play deliver advance setup_signal_handlers
fault_lem sig_pipe h = absurd (h refl)
fault_lem sig_quit h = refl
fault_lem sig_abrt h = refl
fault_lem sig_int h = refl
fault_lem sig_term h = refl
fault_lem sig_hup h = refl

-- `main` sets the actions for signals right before it makes the control object. A signal other than
-- SIGPIPE that arrives in between makes the handler write to an object that is not there. Once the
-- object is made, and as long as the calls of `main` neither delete it nor set other actions, no
-- signal ends the process or makes it fault, whichever signals arrive between the calls and in
-- whichever order: the object is asked to quit exactly if one of them is not SIGPIPE.
pub signal_lem :
    (O : ControlObject) (w : World) (s : Start) (p : Process) (sig : Signal) (os : List Occurrence)
    → sig ≢ sig_pipe
    → steady os ≡ true
    → let first = before_handlers w s p in
      let set = handle setup_signal_handlers in
      ((main_process O w s p).effects
        ≡ first
          ++ (set
              ∷ new_object
              ∷ (main_init O w (O.init s.config_file s.root_folder s.key)).effects))
      × (play (map call first ++ (call set ∷ signal sig ∷ [])) at_start ≡ faults)
      × (play (map call first ++ (call set ∷ call new_object ∷ os)) at_start
          ≡ on (served (stop_among os)))
unfolding main_process play
signal_lem O w s p sig os other calm =
    let first = before_handlers w s p in
    (
      simp append_assoc,
      play-calls first _ at_start (before_handlers-steady w s p) ∙ fault_lem sig other,
      play-calls first _ at_start (before_handlers-steady w s p) ∙ play-steady os false calm,
    )
