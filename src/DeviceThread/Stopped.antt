-- ===== src/DeviceThread/Stopped.antt =====
-- The driver's thread once stopDriver has asked it to quit, and what it leaves alone in its item.
use vscp_mqtt_daemon.Prelude.{
  ℕ, Bool, true, false, List, [], ◌∷◌, ◌++◌, ◌==◌, ◌%◌, ◌≡◌, refl, ap, arith, inl, inr, Bool-cases,
}
use vscp_mqtt_daemon.Device.{Guid, DeviceItem, Proc}
use vscp_mqtt_daemon.Event.{VscpEvent, CanalMsg, Vscp}
use vscp_mqtt_daemon.DeviceThread.{
  Resolution, found, missing, resolve, required1, required2, Effect, Poll, stop, quiet, failed, got,
  after_poll, work_loop, round_blocking, round_non_blocking, round_level2, resolve_optional,
  optional1,
}
use vscp_mqtt_daemon.DeviceThread.Start.{
  Library, set_up_client, close_down, level1_loop, level1_open, level1_thread, level2_open,
  level2_thread, device_thread,
}
use vscp_mqtt_daemon.DeviceThread.Traffic.{before_stop, is_stopped}
use vscp_mqtt_daemon.DeviceThread.Sent.{device_thread-Outcome_level1, device_thread-Outcome_level2}

-- The rounds of a work loop, and then the request to stop.
abbrev pub then_stop : {M : Type 0} → List (Poll M) → List (Poll M)
then_stop polls = polls ++ (stop ∷ [])

-- The rounds of a thread that another one has asked to quit, or not.
abbrev pub requested : {M : Type 0} → Bool → List (Poll M) → List (Poll M)
requested true polls = then_stop polls
requested false polls = polls

is_stopped-then_stop : {M : Type 0} (ps : List (Poll M)) → is_stopped (then_stop ps) ≡ true
is_stopped-then_stop [] = refl
is_stopped-then_stop (stop ∷ ps) = refl
is_stopped-then_stop (quiet ∷ ps) = is_stopped-then_stop ps
is_stopped-then_stop (failed ∷ ps) = is_stopped-then_stop ps
is_stopped-then_stop (got m ∷ ps) = is_stopped-then_stop ps

-- The request comes behind what the driver delivers.
pub before_stop-then_stop :
    {M : Type 0} (ps : List (Poll M)) → before_stop (then_stop ps) ≡ before_stop ps
before_stop-then_stop [] = refl
before_stop-then_stop (stop ∷ ps) = refl
before_stop-then_stop (quiet ∷ ps) = before_stop-then_stop ps
before_stop-then_stop (failed ∷ ps) = before_stop-then_stop ps
before_stop-then_stop (got m ∷ ps) = ap (◌∷◌ m) (before_stop-then_stop ps)

-- What the loops that start and stop the drivers read of an item, which a thread leaves as it was.
pub record Keeps (d e : DeviceItem) : Type 0 where
  pub enable : e.enable ≡ d.enable
  pub thread_started : e.thread_started ≡ d.thread_started

same_Keeps : (d : DeviceItem) → Keeps d d
same_Keeps d = record { enable = refl; thread_started = refl }

-- Storing the function pointers changes none of it.
Keeps-stored : (d e : DeviceItem) (ps : List Proc) → Keeps (record d { procs = ps }) e → Keeps d e
Keeps-stored d e ps k = record { enable = k.enable; thread_started = k.thread_started }

work_loop-Keeps :
    {M : Type 0} (round : DeviceItem → Poll M → List Effect) (ps : List (Poll M)) (d : DeviceItem)
    → Keeps d (work_loop round ps d).item
unfolding work_loop after_poll
work_loop-Keeps round [] d = same_Keeps d
work_loop-Keeps round (stop ∷ ps) d =
    ground (arith, work_loop-Keeps round ps (record d { quit = true }))
work_loop-Keeps round (quiet ∷ ps) d = ground (arith, work_loop-Keeps round ps d)
work_loop-Keeps round (failed ∷ ps) d = ground (arith, work_loop-Keeps round ps d)
work_loop-Keeps round (got m ∷ ps) d = ground (arith, work_loop-Keeps round ps d)

module _ (v : Vscp) (server : Guid) (lib : Library) where
  level1_loop-Keeps :
      (polls : List (Poll CanalMsg)) (d : DeviceItem)
      → Keeps d (level1_loop v server lib polls d).item
  unfolding level1_loop close_down
  level1_loop-Keeps polls d =
      let e = record d { driver_level = lib.level % 256 } in
      ground (
        arith,
        work_loop-Keeps (round_blocking v) polls e,
        work_loop-Keeps (round_non_blocking v) polls e,
      )

  level1_open-Keeps :
      (polls : List (Poll CanalMsg)) (d : DeviceItem)
      → Keeps d (level1_open v server lib polls d).item
  unfolding level1_open set_up_client
  level1_open-Keeps polls d =
      ground (
        arith,
        level1_loop-Keeps polls (set_up_client server (record d { open_handle = lib.opens })),
      )

  level1_thread-Keeps :
      (polls : List (Poll CanalMsg)) (d : DeviceItem) (r : Resolution)
      → resolve lib.exports required1 d.procs ≡ r
      → Keeps d (level1_thread v server lib polls d).item
  unfolding level1_thread
  level1_thread-Keeps polls d (missing ps closes) e =
      rw (e, level1_thread) (Keeps-stored d _ ps (same_Keeps _))
  level1_thread-Keeps polls d (found ps) e =
      let kept =
        level1_open-Keeps polls (record d { procs = resolve_optional lib.exports optional1 ps }) in
      rw (e, level1_thread) (Keeps-stored d _ (resolve_optional lib.exports optional1 ps) kept)

  level2_open-Keeps :
      (polls : List (Poll (VscpEvent × ℕ))) (d : DeviceItem)
      → Keeps d (level2_open v server lib polls d).item
  unfolding level2_open set_up_client close_down
  level2_open-Keeps polls d = ground (
    arith,
    work_loop-Keeps (round_level2 v) polls
        (record (set_up_client server d) { open_handle = lib.opens }),
  )

  level2_thread-Keeps :
      (polls : List (Poll (VscpEvent × ℕ))) (d : DeviceItem) (r : Resolution)
      → resolve lib.exports required2 d.procs ≡ r
      → Keeps d (level2_thread v server lib polls d).item
  unfolding level2_thread
  level2_thread-Keeps polls d (missing ps closes) e =
      rw (e, level2_thread) (Keeps-stored d _ ps (same_Keeps _))
  level2_thread-Keeps polls d (found ps) e =
      let kept = level2_open-Keeps polls (record d { procs = ps }) in
      rw (e, level2_thread) (Keeps-stored d _ ps kept)

  pub device_thread-Keeps :
      (polls1 : List (Poll CanalMsg)) (polls2 : List (Poll (VscpEvent × ℕ))) (d : DeviceItem)
      → Keeps d (device_thread v server lib polls1 polls2 d).item
  unfolding device_thread
  device_thread-Keeps polls1 polls2 d =
      ground (arith, level1_thread-Keeps polls1 d _ refl, level2_thread-Keeps polls2 d _ refl)

  -- Whatever the library, the broker and the schedule before the request.
  pub device_thread_stopped :
      (polls1 : List (Poll CanalMsg)) (polls2 : List (Poll (VscpEvent × ℕ))) (d : DeviceItem)
      → (device_thread v server lib (then_stop polls1) (then_stop polls2) d).ended ≡ true
  unfolding device_thread
  device_thread_stopped polls1 polls2 d = elim (Bool-cases (d.driver_level == 1)) [
    | inl one ↦ ground (
      arith,
      device_thread-Outcome_level1 v server lib (then_stop polls1) (then_stop polls2) d,
      is_stopped-then_stop polls1,
    )
    | inr not_one ↦ elim (Bool-cases (d.driver_level == 2)) [
      | inl two ↦ ground (
        arith,
        device_thread-Outcome_level2 v server lib (then_stop polls1) (then_stop polls2) d,
        is_stopped-then_stop polls2,
      )
      | inr not_two ↦ ground arith
    ]
  ]
