-- ===== src/Control/Threads.antt =====
-- The threads of all drivers over a run of the daemon: `run` of src/controlobject.cpp over
-- deviceThread of src/devicethread.cpp.
use mathlib.Core.List.{filter_map}
use vscp_mqtt_daemon.Prelude.{
  ℕ, Bool, true, false, not, ◌&&◌, all, List, [], ◌∷◌, Option, some, map, ◌==◌, ◌≡◌, refl, arith,
  if◌then◌else◌, inl, inr, Bool-cases,
}
use vscp_mqtt_daemon.Device.{Guid, DeviceItem, canal_blocking_receive}
use vscp_mqtt_daemon.Device.Lifecycle.{
  join_thread, start_driver, stop_driver, start_if_enabled, start_device_worker_threads,
}
use vscp_mqtt_daemon.Device.Print.{Formats}
use vscp_mqtt_daemon.Event.{VscpEvent, CanalMsg, Vscp}
use vscp_mqtt_daemon.DeviceThread.{Poll, Loop}
use vscp_mqtt_daemon.DeviceThread.Start.{Library, device_thread}
use vscp_mqtt_daemon.DeviceThread.Protocol.{Monitor, watch_all, idle}
use vscp_mqtt_daemon.DeviceThread.Leaks.{left, device_thread-left}
use vscp_mqtt_daemon.DeviceThread.Traffic.{before_stop, stamped, published, discovered, Sends}
use vscp_mqtt_daemon.DeviceThread.Outcome.{outgoing, starts1, starts2}
use vscp_mqtt_daemon.DeviceThread.Sent.{device_thread-Outcome_level1, device_thread-Outcome_level2}
use vscp_mqtt_daemon.DeviceThread.Stopped.{
  requested, then_stop, before_stop-then_stop, device_thread-Keeps, device_thread_stopped,
}
use vscp_mqtt_daemon.Control.Run.{Configured, Broker, Tick, init_mqtt, thread_of, run}
use vscp_mqtt_daemon.Control.Session.{
  all_stopped, none_alive, quits, main_loop_ended, IsJoinable, threads_of, threads_ended, run_lem,
}

-- What each driver's thread meets: its library and broker, and what its driver delivers before it
-- is asked to quit.
pub record Field : Type 0 where
  pub library : DeviceItem → Library
  pub polls1 : DeviceItem → List (Poll CanalMsg)
  pub polls2 : DeviceItem → List (Poll (VscpEvent × ℕ))

module _ (v : Vscp) (server : Guid) (o : Field) where
  -- `pthread_create(…, deviceThread, this)`. `asked` is `m_bQuit` as stopDriver leaves it when it
  -- waits for the thread.
  unfoldable pub worker : Bool → DeviceItem → Loop
  worker asked d =
      device_thread v server (o.library d) (requested asked (o.polls1 d))
        (requested asked (o.polls2 d)) d

  pub worker-IsJoinable : IsJoinable worker
  unfolding worker
  worker-IsJoinable = record {
    returns = λ d. device_thread_stopped v server (o.library d) (o.polls1 d) (o.polls2 d) d;
    keeps = λ asked d.
        device_thread-Keeps v server (o.library d) (requested asked (o.polls1 d))
          (requested asked (o.polls2 d)) d;
  }

  -- The events of a driver that is neither stopped nor kept from its loop.
  abbrev pub events_of : DeviceItem → List VscpEvent
  events_of d =
      let lib = o.library d in
      if d.driver_level == 1
      then if starts1 lib && not d.quit
        then filter_map (outgoing v (lib.exports canal_blocking_receive) d)
            (before_stop (o.polls1 d))
        else []
      else if d.driver_level == 2
      then if starts2 lib && not d.quit
        then filter_map (stamped v) (before_stop (o.polls2 d))
        else []
      else []

  worker-left :
      (d : DeviceItem) → watch_all idle (worker true d).trace ≡ some (left (o.library d) d)
  unfolding worker
  worker-left d = ground (
    arith,
    device_thread-left v server (o.library d) (then_stop (o.polls1 d)) (then_stop (o.polls2 d)) d,
    device_thread_stopped v server (o.library d) (o.polls1 d) (o.polls2 d) d,
  )

  other-Sends :
      (d : DeviceItem)
      → (d.driver_level == 1) ≡ false
      → (d.driver_level == 2) ≡ false
      → Sends (worker true d).trace []
  unfolding worker device_thread
  other-Sends d not_one not_two = ground arith

  worker-Sends : (d : DeviceItem) → Sends (worker true d).trace (events_of d)
  unfolding worker
  worker-Sends d = elim (Bool-cases (d.driver_level == 1)) [
    | inl one ↦ rw one (
        rw (before_stop-then_stop (o.polls1 d)) at
          (device_thread-Outcome_level1 v server (o.library d) (then_stop (o.polls1 d))
            (then_stop (o.polls2 d)) d (ground arith)).0)
    | inr not_one ↦ elim (Bool-cases (d.driver_level == 2)) [
      | inl two ↦
          rw (not_one, two)
            (rw (before_stop-then_stop (o.polls2 d)) at
              (device_thread-Outcome_level2 v server (o.library d) (then_stop (o.polls1 d))
                (then_stop (o.polls2 d)) d (ground arith)).0)
      | inr not_two ↦ rw (not_one, not_two) (other-Sends d not_one not_two)
    ]
  ]

  module _ (created : DeviceItem → Bool) where
    -- The driver gets a thread.
    abbrev pub runs : DeviceItem → Bool
    runs d = d.enable && created d

    abbrev pub begun : DeviceItem → DeviceItem
    begun d = record d { thread_started = true }

    -- What the thread leaves loaded or open.
    abbrev pub left_by : DeviceItem → Option Monitor
    left_by d = some (if runs d then left (o.library (begun d)) d else idle)

    abbrev pub sent_by : DeviceItem → List VscpEvent
    sent_by d = if runs d then events_of (begun d) else []

    abbrev thread : DeviceItem → Loop
    thread d = thread_of worker (start_if_enabled created d)

    pub thread-left :
        (d : DeviceItem) → d.thread_started ≡ false → watch_all idle (thread d).trace ≡ left_by d
    unfolding thread_of start_if_enabled start_driver stop_driver join_thread
    thread-left d e = ground (arith, worker-left (begun d))

    thread-Sends : (d : DeviceItem) → d.thread_started ≡ false → Sends (thread d).trace (sent_by d)
    unfolding thread_of start_if_enabled start_driver stop_driver join_thread
    thread-Sends d e = ground (arith, worker-Sends (begun d))

    threads-left :
        (ds : List DeviceItem)
        → all_stopped ds ≡ true
        → map (λ l. watch_all idle l.trace) (threads_of created worker ds) ≡ map left_by ds
    unfolding start_device_worker_threads
    threads-left [] h = refl
    threads-left (d ∷ ds) h = ground (arith, thread-left d, threads-left ds)

    threads-published :
        (ds : List DeviceItem)
        → all_stopped ds ≡ true
        → map (λ l. published l.trace) (threads_of created worker ds) ≡ map sent_by ds
    unfolding start_device_worker_threads
    threads-published [] h = refl
    threads-published (d ∷ ds) h = ground (arith, thread-Sends d, threads-published ds)

    threads-discovered :
        (ds : List DeviceItem)
        → all_stopped ds ≡ true
        → map (λ l. discovered l.trace) (threads_of created worker ds) ≡ map sent_by ds
    unfolding start_device_worker_threads
    threads-discovered [] h = refl
    threads-discovered (d ∷ ds) h = ground (arith, thread-Sends d, threads-discovered ds)

    -- A run of the daemon whose client connects and that is asked to quit returns, whatever the
    -- libraries of the drivers, the brokers and the schedules do, if no driver had a thread before:
    -- every thread that was made has got to its end and has
    -- been joined, and no driver says that it has a thread. Each thread that was made has kept the order of calls that `watch`
    -- allows, with no client connected and no mutex held at its end, and exactly the libraries
    -- loaded and drivers open that `left` says; and it has given exactly the events of `events_of`,
    -- those that its driver has delivered before the request to stop, to discovery and to the
    -- broker, in their order.
    pub run_threads :
        (f : Formats) (broker : Broker) (c : Configured) (started : ℕ) (ticks : List Tick)
        (ds : List DeviceItem)
        → all_stopped ds ≡ true
        → broker.connects ≡ true
        → quits ticks ≡ true
        → let s = run f broker c created worker started ticks ds in
          (s.ended ≡ true)
          × (all_stopped s.drivers ≡ true)
          × (none_alive s.alive ≡ true)
          × (all (λ l. l.ended) s.threads ≡ true)
          × (map (λ l. watch_all idle l.trace) s.threads ≡ map left_by ds)
          × (map (λ l. published l.trace) s.threads ≡ map sent_by ds)
          × (map (λ l. discovered l.trace) s.threads ≡ map sent_by ds)
    unfolding run init_mqtt
    run_threads f broker c started ticks ds stopped connects asked = ground (
      arith,
      run_lem f broker c created worker worker-IsJoinable started ticks ds stopped,
      main_loop_ended ticks started,
      threads_ended created worker worker-IsJoinable ds,
      threads-left ds stopped,
      threads-published ds stopped,
      threads-discovered ds stopped,
    )
