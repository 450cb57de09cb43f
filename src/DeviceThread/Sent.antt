-- ===== src/DeviceThread/Sent.antt =====
-- The whole thread seen from the broker: what it sends, and when it returns.
use mathlib.Core.List.{filter_map}
use vscp_mqtt_daemon.Prelude.{
  ℕ, Bool, true, false, not, ◌&&◌, ◌||◌, List, [], ◌≡◌, refl, arith, ℤ, ◌%◌, if◌then◌else◌,
  is_positive, is_zero,
}
use vscp_mqtt_daemon.Device.{Guid, DeviceItem, Proc, canal_blocking_receive}
use vscp_mqtt_daemon.Event.{VscpEvent, CanalMsg, Vscp}
use vscp_mqtt_daemon.Event.Translate.{outgoing_blocking, outgoing_non_blocking}
use vscp_mqtt_daemon.DeviceThread.{
  has_proc-resolve_optional, has_proc, Resolution, found, missing, resolve, resolve_optional,
  required1, optional1, required2, Poll, work_loop, round_blocking, round_non_blocking,
  round_level2,
}
use vscp_mqtt_daemon.DeviceThread.Start.{
  Library, set_up_client, level1_loop, level1_open, level1_thread, level2_open, level2_thread,
  device_thread,
}
use vscp_mqtt_daemon.DeviceThread.Traffic.{
  before_stop, is_stopped, stamped, round_blocking-Converts, round_non_blocking-Converts,
  round_level2-Converts,
}
use vscp_mqtt_daemon.DeviceThread.Outcome.{
  Outcome, work_loop-Outcome, close_down-Outcome, is_some_found, outgoing, starts1, starts2, found1,
  found2,
}

module _ (v : Vscp) (server : Guid) (lib : Library) where
  -- Either loop, with the level that the driver reports.
  either_loop-Outcome :
      (blocks : Bool) (polls : List (Poll CanalMsg)) (d : DeviceItem) (level : ℕ)
      → let e = record d { driver_level = level } in
        Outcome
          (if blocks
            then work_loop (round_blocking v) polls e
            else work_loop (round_non_blocking v) polls e)
          (if d.quit then [] else filter_map (outgoing v blocks d) (before_stop polls))
          (d.quit || is_stopped polls)
  unfolding outgoing outgoing_blocking outgoing_non_blocking
  either_loop-Outcome true polls d level =
      work_loop-Outcome (round_blocking v) _ polls (record d { driver_level = level })
        (round_blocking-Converts v (record d { driver_level = level }))
  either_loop-Outcome false polls d level =
      work_loop-Outcome (round_non_blocking v) _ polls (record d { driver_level = level })
        (round_non_blocking-Converts v (record d { driver_level = level }))

  level1_loop-Outcome :
      (polls : List (Poll CanalMsg)) (d : DeviceItem)
      → Outcome
          (level1_loop v server lib polls d)
          (if d.quit
            then []
            else filter_map
                (outgoing v (has_proc canal_blocking_receive d.procs) d)
                (before_stop polls))
          (d.quit || is_stopped polls)
  unfolding level1_loop
  level1_loop-Outcome polls d =
      close_down-Outcome _
        (either_loop-Outcome (has_proc canal_blocking_receive d.procs) polls d (lib.level % 256))

  -- The settings of the client and the handle do not change what is sent.
  outgoing_set_up :
      (b : Bool) (d : DeviceItem) (h : ℤ)
      → outgoing v b (set_up_client server (record d { open_handle = h })) ≡ outgoing v b d
  unfolding outgoing set_up_client outgoing_blocking outgoing_non_blocking
  outgoing_set_up true d h = refl
  outgoing_set_up false d h = refl

  outgoing_procs :
      (b : Bool) (d : DeviceItem) (ps : List Proc)
      → outgoing v b (record d { procs = ps }) ≡ outgoing v b d
  unfolding outgoing outgoing_blocking outgoing_non_blocking
  outgoing_procs true d ps = refl
  outgoing_procs false d ps = refl

  level1_open_ready :
      (polls : List (Poll CanalMsg)) (d : DeviceItem)
      → let e = set_up_client server (record d { open_handle = lib.opens }) in
        Outcome
          (level1_loop v server lib polls e)
          (if d.quit
            then []
            else filter_map
                (outgoing v (has_proc canal_blocking_receive d.procs) d)
                (before_stop polls))
          (d.quit || is_stopped polls)
  unfolding set_up_client
  level1_open_ready polls d =
      rw (outgoing_set_up (has_proc canal_blocking_receive d.procs) d lib.opens) at
        (level1_loop-Outcome polls (set_up_client server (record d { open_handle = lib.opens })))

  level1_open-Outcome :
      (polls : List (Poll CanalMsg)) (d : DeviceItem)
      → let ready = is_positive lib.opens && lib.connects in
        Outcome
          (level1_open v server lib polls d)
          (if ready && not d.quit
            then filter_map
                (outgoing v (has_proc canal_blocking_receive d.procs) d)
                (before_stop polls)
            else [])
          (not ready || (d.quit || is_stopped polls))
  unfolding level1_open
  level1_open-Outcome polls d = ground (arith, level1_open_ready polls d)

  level2_open-Outcome :
      (polls : List (Poll (VscpEvent × ℕ))) (d : DeviceItem)
      → let ready = not (is_zero lib.opens) && lib.connects in
        Outcome
          (level2_open v server lib polls d)
          (if ready && not d.quit then filter_map (stamped v) (before_stop polls) else [])
          (not ready || (d.quit || is_stopped polls))
  unfolding level2_open set_up_client
  level2_open-Outcome polls d =
      let e = record (set_up_client server d) { open_handle = lib.opens } in
      ground (
        arith,
        close_down-Outcome (work_loop (round_level2 v) polls e)
            (work_loop-Outcome (round_level2 v) (stamped v) polls e (round_level2-Converts v e)),
      )

  level1_thread-Outcome :
      (polls : List (Poll CanalMsg)) (d : DeviceItem) (r : Resolution)
      → resolve lib.exports required1 d.procs ≡ r
      → let ready = is_some_found r && (is_positive lib.opens && lib.connects) in
        Outcome
          (level1_thread v server lib polls d)
          (if ready && not d.quit
            then filter_map (outgoing v (lib.exports canal_blocking_receive) d) (before_stop polls)
            else [])
          (not ready || (d.quit || is_stopped polls))
  unfolding level1_thread
  level1_thread-Outcome polls d (missing ps closes) e = rw (e, level1_thread) (ground arith)
  level1_thread-Outcome polls d (found ps) e =
      let qs = resolve_optional lib.exports optional1 ps in
      rw (e, level1_thread)
        (rw
          (
            has_proc-resolve_optional lib.exports ps,
            outgoing_procs (lib.exports canal_blocking_receive) d qs,
          )
          at (level1_open-Outcome polls (record d { procs = qs })))

  level2_thread-Outcome :
      (polls : List (Poll (VscpEvent × ℕ))) (d : DeviceItem) (r : Resolution)
      → resolve lib.exports required2 d.procs ≡ r
      → let ready = is_some_found r && (not (is_zero lib.opens) && lib.connects) in
        Outcome
          (level2_thread v server lib polls d)
          (if ready && not d.quit then filter_map (stamped v) (before_stop polls) else [])
          (not ready || (d.quit || is_stopped polls))
  unfolding level2_thread
  level2_thread-Outcome polls d (missing ps closes) e = rw (e, level2_thread) (ground arith)
  level2_thread-Outcome polls d (found ps) e =
      rw (e, level2_thread) (level2_open-Outcome polls (record d { procs = ps }))

  -- A Level I driver whose library loads and exports all functions, which opens with a positive
  -- handle, and whose client connects, sends exactly the messages that can be converted, in order,
  -- up to the request to stop, each one to discovery and to the broker; the conversion is that of
  -- the blocking loop if the library exports CanalBlockingReceive. Otherwise, or if the driver had
  -- been stopped before, nothing is sent. The thread returns exactly if it did not get to its
  -- loop, or a stop was requested before or during it.
  pub device_thread-Outcome_level1 :
      (polls1 : List (Poll CanalMsg)) (polls2 : List (Poll (VscpEvent × ℕ))) (d : DeviceItem)
      → d.driver_level ≡ 1
      → Outcome
          (device_thread v server lib polls1 polls2 d)
          (if starts1 lib && not d.quit
            then filter_map (outgoing v (lib.exports canal_blocking_receive) d) (before_stop polls1)
            else [])
          (not (starts1 lib) || (d.quit || is_stopped polls1))
  unfolding device_thread
  device_thread-Outcome_level1 polls1 polls2 d one =
      ground (arith, rw (found1 lib.exports d.procs) at (level1_thread-Outcome polls1 d _ refl))

  -- A Level II driver whose library loads and exports all functions, which opens with a handle
  -- other than 0, and whose client connects, sends every event that it reads up to the request to
  -- stop, in order, after `stamp`, each one to discovery and to the broker. Otherwise, or if the
  -- driver had been stopped before, nothing is sent. The thread returns exactly if it did not get
  -- to its loop, or a stop was requested before or during it.
  pub device_thread-Outcome_level2 :
      (polls1 : List (Poll CanalMsg)) (polls2 : List (Poll (VscpEvent × ℕ))) (d : DeviceItem)
      → d.driver_level ≡ 2
      → Outcome
          (device_thread v server lib polls1 polls2 d)
          (if starts2 lib && not d.quit then filter_map (stamped v) (before_stop polls2) else [])
          (not (starts2 lib) || (d.quit || is_stopped polls2))
  unfolding device_thread
  device_thread-Outcome_level2 polls1 polls2 d two =
      ground (arith, rw (found2 lib.exports d.procs) at (level2_thread-Outcome polls2 d _ refl))
