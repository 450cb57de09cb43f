-- ===== src/Startup/Exits.antt =====
-- How `main` ends, and what it leaves behind.
use vscp_mqtt_daemon.Prelude.{
  ℕ, Bool, true, false, not, ◌&&◌, ◌||◌, List, [], ◌∷◌, ◌++◌, Text, text_eq, ◌≡◌, ◌≢◌, ◌∙◌, refl,
  arith, inl, inr, Option-cases, if_cases, is_some, if◌then◌else◌,
}
use vscp_mqtt_daemon.Device.{DeviceItem}
use vscp_mqtt_daemon.Control.Json.{Outcome, done, refused, thrown}
use vscp_mqtt_daemon.Control.Run.{Session, cleanup}
use vscp_mqtt_daemon.Control.Session.{
  all_stopped, none_alive, cleanup-all_stopped, remaining-none_alive,
}
use vscp_mqtt_daemon.Startup.Options.{
  Flag, Start, Parsed, goes_on, exits, exit_minus_one, default_start, read_options,
}
use vscp_mqtt_daemon.Startup.Daemonize.{
  Process, Daemonized, runs, failed, parent_exits, daemonize, setup_signal_handlers,
}
use vscp_mqtt_daemon.Startup.Program.{
  ControlObject, Effect, write_pid, change_dir, unlink, handle, make_folder, set_logger, new_object,
  delete_object, exited, running, Execution, World, pid_path, main_sinks, write_pid_file,
  enter_root, ends, main_run, main_init, main_process, main,
}

-- Whether the pid file is there after the effects, if `b` says whether it was there before.
abbrev pub pid_file : List Effect → Bool → Bool
pid_file [] b = b
pid_file (write_pid path sid ∷ es) b = pid_file es (if text_eq path pid_path then true else b)
pid_file (unlink path ∷ es) b = pid_file es (if text_eq path pid_path then false else b)
pid_file (change_dir path ∷ es) b = pid_file es b
pid_file (handle hs ∷ es) b = pid_file es b
pid_file (make_folder path ∷ es) b = pid_file es b
pid_file (set_logger sinks ∷ es) b = pid_file es b
pid_file (new_object ∷ es) b = pid_file es b
pid_file (delete_object ∷ es) b = pid_file es b

pid_file-append :
    (es fs : List Effect) (b : Bool) → pid_file (es ++ fs) b ≡ pid_file fs (pid_file es b)
pid_file-append [] fs b = refl
pid_file-append (write_pid path sid ∷ es) fs b = pid_file-append es fs _
pid_file-append (unlink path ∷ es) fs b = pid_file-append es fs _
pid_file-append (change_dir path ∷ es) fs b = pid_file-append es fs b
pid_file-append (handle hs ∷ es) fs b = pid_file-append es fs b
pid_file-append (make_folder path ∷ es) fs b = pid_file-append es fs b
pid_file-append (set_logger sinks ∷ es) fs b = pid_file-append es fs b
pid_file-append (new_object ∷ es) fs b = pid_file-append es fs b
pid_file-append (delete_object ∷ es) fs b = pid_file-append es fs b

module _ (O : ControlObject) (w : World) where
  -- The end of `main` that removes the pid file: `init` or `run` returns false.
  abbrev pub removes_pid : Outcome O.D → Bool
  removes_pid refused = true
  removes_pid thrown = false
  removes_pid (done d) =
      is_some (main_sinks w.sinks (O.logging d)) && ((O.run d).ended && not (O.run d).result)

  main_run-pid_file :
      (s : Session) (b : Bool)
      → pid_file (main_run O w s).effects b ≡ (b && not (s.ended && not s.result))
  unfolding main_run text_eq
  main_run-pid_file s b =
      if_cases (λ (x : Execution). pid_file x.effects b ≡ (b && not (s.ended && not s.result)))
        s.ended
        (λ e.
          if_cases (λ (x : Execution). pid_file x.effects b ≡ (b && not (s.ended && not s.result)))
            s.result (λ r. ground arith) (λ r. ground arith))
        (λ e. ground arith)

  main_init-pid_file :
      (o : Outcome O.D) (b : Bool)
      → pid_file (main_init O w o).effects b ≡ (b && not (removes_pid o))
  unfolding main_init text_eq
  main_init-pid_file refused b = ground arith
  main_init-pid_file thrown b = ground arith
  main_init-pid_file (done d) b = elim (Option-cases (main_sinks w.sinks (O.logging d))) [
    | inl e ↦ rw (e, main_init) (ground arith)
    | inr (sinks, e) ↦ rw (e, main_init) (main_run-pid_file (O.run d) b)
  ]

  write_pid_file-pid_file :
      (dont : Bool) (sid : ℕ) (b : Bool)
      → pid_file (write_pid_file w dont sid) b ≡ (if dont then b else w.pid_opens || b)
  unfolding write_pid_file text_eq
  write_pid_file-pid_file dont sid b =
      if_cases (λ es. pid_file es b ≡ (if dont then b else w.pid_opens || b)) dont (λ e. rw e refl)
        (λ e.
          if_cases (λ es. pid_file es b ≡ (if dont then b else w.pid_opens || b)) w.pid_opens
            (λ f. rw (e, f) refl) (λ f. rw (e, f) refl))

  enter_root-pid_file :
      (root : Text) (b : Bool) → pid_file (enter_root w root) b ≡ (b && w.enters root)
  unfolding enter_root text_eq
  enter_root-pid_file root b =
      if_cases (λ es. pid_file es b ≡ (b && w.enters root)) (w.enters root) (λ e. ground arith)
        (λ e.
          if_cases (λ es. pid_file es b ≡ (b && w.enters root)) (w.enters _) (λ f. ground arith)
            (λ f. ground arith))

  -- The pid file of a daemon is there in the end, or as long as it runs, exactly if it could be
  -- written or was there before, the root folder could be entered, and neither `init` nor `run`
  -- returned false. So it outlives a regular end, an exception in `init`, and a log file that cannot
  -- be opened; and a daemon that goes on in another folder has none. A process in the foreground
  -- writes none, but it removes that of another one in the same cases.
  pub main_process-pid_file :
      (s : Start) (p : Process) (b : Bool)
      → pid_file (main_process O w s p).effects b ≡ (
          (if s.dont_run_as_daemon then b else w.pid_opens || b)
          && (w.enters s.root_folder
              && not (removes_pid (O.init s.config_file s.root_folder s.key))))
  unfolding main_process
  main_process-pid_file s p b =
      let dont = s.dont_run_as_daemon in
      let root = s.root_folder in
      let o = O.init s.config_file root s.key in
      let front = handle setup_signal_handlers ∷ new_object ∷ [] in
      pid_file-append (write_pid_file w dont p.sid ++ (enter_root w root ++ front))
        (main_init O w o).effects b
      ∙ (main_init-pid_file o _
          ∙ ground (
            arith,
            pid_file-append (write_pid_file w dont p.sid) (enter_root w root ++ front) b,
            pid_file-append (enter_root w root) front (pid_file (write_pid_file w dont p.sid) b),
            write_pid_file-pid_file dont p.sid b,
            enter_root-pid_file root (pid_file (write_pid_file w dont p.sid) b),
          ))

-- No driver says that it has a thread, and every thread that was made has been joined.
abbrev pub NoThread : List DeviceItem → List Bool → Type 0
NoThread drivers alive = (all_stopped drivers ≡ true) × (none_alive alive ≡ true)

-- What `main` relies on: when `run` of an object that `init` has set up has returned, no driver has a
-- thread.
abbrev pub Stops : ControlObject → Type 0
Stops O =
    (config_file root : Text) (key : List ℕ) (d : O.D)
    → O.init config_file root key ≡ done d
    → (O.run d).ended ≡ true
    → NoThread (O.run d).drivers (O.run d).alive

module _ (O : ControlObject) (w : World) where
  main_run-stopped :
      (s : Session)
      → (s.ended ≡ true → NoThread s.drivers s.alive)
      → (main_run O w s).ending ≢ running
      → NoThread (main_run O w s).drivers (main_run O w s).alive
  unfolding main_run
  main_run-stopped s h =
      if_cases (λ (x : Execution). x.ending ≢ running → NoThread x.drivers x.alive) s.ended
        (λ e.
          if_cases (λ (x : Execution). x.ending ≢ running → NoThread x.drivers x.alive) s.result
            (λ r _. (
              cleanup-all_stopped s.drivers (h e).0,
              remaining-none_alive s.alive (cleanup s.drivers) (h e).1,
            ))
            (λ r _. h e))
        (λ e n. absurd (n refl))

  main_init-stopped :
      (o : Outcome O.D)
      → ((d : O.D)
          → o ≡ done d
          → (O.run d).ended ≡ true
          → NoThread (O.run d).drivers (O.run d).alive)
      → (main_init O w o).ending ≢ running
      → NoThread (main_init O w o).drivers (main_init O w o).alive
  unfolding main_init
  main_init-stopped refused h = λ n. (refl, refl)
  main_init-stopped thrown h = λ n. (refl, refl)
  main_init-stopped (done d) h = elim (Option-cases (main_sinks w.sinks (O.logging d))) [
    | inl e ↦ rw (e, main_init) (λ n. (refl, refl))
    | inr (sinks, e) ↦ rw (e, main_init) (main_run-stopped (O.run d) (h d refl))
  ]

  daemonized-stopped :
      (s : Start) (k : Daemonized)
      → Stops O
      → let x : Execution = elim k [
        | failed ↦ ends [] (exited exit_minus_one)
        | parent_exits ↦ ends [] (exited 0)
        | runs p ↦ main_process O w s p
      ] in
        x.ending ≢ running → NoThread x.drivers x.alive
  unfolding main_process
  daemonized-stopped s failed stops n = (refl, refl)
  daemonized-stopped s parent_exits stops n = (refl, refl)
  daemonized-stopped s (runs p) stops n =
      main_init-stopped (O.init s.config_file s.root_folder s.key)
        (stops s.config_file s.root_folder s.key) n

  -- Whichever way `main` ends, with whatever options, no thread of a driver is left when it has ended.
  pub main-stopped :
      (flags : List Flag)
      → Stops O
      → (main O w flags).ending ≢ running
      → NoThread (main O w flags).drivers (main O w flags).alive
  unfolding main
  main-stopped flags stops = parsed-stopped (read_options w.hex_to_bytes flags default_start)
    where
      parsed-stopped :
          (r : Parsed)
          → let x : Execution = elim r [
            | exits status ↦ ends [] (exited status)
            | goes_on s ↦ elim (daemonize s.dont_run_as_daemon w.system) [
              | failed ↦ ends [] (exited exit_minus_one)
              | parent_exits ↦ ends [] (exited 0)
              | runs p ↦ main_process O w s p
            ]
          ] in
            x.ending ≢ running → NoThread x.drivers x.alive
      parsed-stopped (exits status) n = (refl, refl)
      parsed-stopped (goes_on s) n =
          daemonized-stopped s (daemonize s.dont_run_as_daemon w.system) stops n

module _ (O : ControlObject) (w : World) where
  main_init-ended :
      (o : Outcome O.D) → ((d : O.D) → (O.run d).ended ≡ true) → (main_init O w o).ending ≢ running
  unfolding main_init main_run
  main_init-ended refused h = λ e. ground arith
  main_init-ended thrown h = λ e. ground arith
  main_init-ended (done d) h = elim (Option-cases (main_sinks w.sinks (O.logging d))) [
    | inl e ↦ rw (e, main_init) (λ n. ground arith)
    | inr (sinks, e) ↦
        rw (e, main_init, main_run, h d)
          (if_cases (λ (x : Execution). x.ending ≢ running) (O.run d).result (λ r n. ground arith)
            (λ r n. ground arith))
  ]

  -- If `run` returns, `main` ends.
  pub main-ended :
      (flags : List Flag) → ((d : O.D) → (O.run d).ended ≡ true) → (main O w flags).ending ≢ running
  unfolding main main_process
  main-ended flags h = parsed-ended (read_options w.hex_to_bytes flags default_start)
    where
      started-ended :
          (s : Start) (k : Daemonized)
          → let x : Execution = elim k [
            | failed ↦ ends [] (exited exit_minus_one)
            | parent_exits ↦ ends [] (exited 0)
            | runs p ↦ main_process O w s p
          ] in
            x.ending ≢ running
      started-ended s failed = λ e. ground arith
      started-ended s parent_exits = λ e. ground arith
      started-ended s (runs p) = main_init-ended (O.init s.config_file s.root_folder s.key) h

      parsed-ended :
          (r : Parsed)
          → let x : Execution = elim r [
            | exits status ↦ ends [] (exited status)
            | goes_on s ↦ elim (daemonize s.dont_run_as_daemon w.system) [
              | failed ↦ ends [] (exited exit_minus_one)
              | parent_exits ↦ ends [] (exited 0)
              | runs p ↦ main_process O w s p
            ]
          ] in
            x.ending ≢ running
      parsed-ended (exits status) = λ e. ground arith
      parsed-ended (goes_on s) = started-ended s (daemonize s.dont_run_as_daemon w.system)
