-- ===== src/Tests/Thread.antt =====
-- The theorems on the device threads and on events, on the samples.
use vscp_mqtt_daemon.Prelude.{
  Each, true, false, not, ◌&&◌, ◌||◌, [], ◌∷◌, some, pos, is_zero, ◌≡◌, refl, arith, if◌then◌else◌,
}
use mathlib.Core.List.{filter_map}
use vscp_mqtt_daemon.Device.{DeviceItem, canal_blocking_receive}
use vscp_mqtt_daemon.Event.Translate.{outgoing_blocking, outgoing_non_blocking}
use vscp_mqtt_daemon.Event.Payload.{IsSized, IsZeroAt, outgoing_lem}
use vscp_mqtt_daemon.Event.Stamp.{IsStamped, stamp, stamp-IsStamped}
use vscp_mqtt_daemon.DeviceThread.Start.{device_thread}
use vscp_mqtt_daemon.DeviceThread.Protocol.{watch_all, idle, busy}
use vscp_mqtt_daemon.DeviceThread.Leaks.{left, device_thread-left}
use vscp_mqtt_daemon.DeviceThread.Traffic.{before_stop, is_stopped, stamped}
use vscp_mqtt_daemon.DeviceThread.Outcome.{Outcome, outgoing, starts1, starts2}
use vscp_mqtt_daemon.DeviceThread.Sent.{device_thread-Outcome_level1, device_thread-Outcome_level2}
use vscp_mqtt_daemon.DeviceThread.Callback.{receive_event_callback}
use vscp_mqtt_daemon.DeviceThread.Delivery.{
  hold_all, handles, is_deliverable, receive_event_callback_lem,
}
use vscp_mqtt_daemon.DeviceThread.Release.{thread_released}
use vscp_mqtt_daemon.DeviceThread.Race.{
  unloaded, free, Shared, Reach, start, later, running, enter, pass, passed, thread_holds,
  call_driver_safe,
}
use vscp_mqtt_daemon.Tests.Samples.{
  server_guid, helper, helper-IsHelper, helper-IsFrame, library, refused, driver, driver2, message,
  event, polls1, polls2,
}

device_thread-left_example :
    let l = device_thread helper server_guid refused polls1 polls2 driver in
    watch_all idle l.trace ≡ some (if l.ended then left refused driver else busy)
device_thread-left_example = device_thread-left helper server_guid refused polls1 polls2 driver

device_thread-Outcome_level1_example :
    Outcome
      (device_thread helper server_guid library polls1 polls2 driver)
      (if starts1 library && not driver.quit
        then filter_map
            (outgoing helper (library.exports canal_blocking_receive) driver)
            (before_stop polls1)
        else [])
      (not (starts1 library) || (driver.quit || is_stopped polls1))
device_thread-Outcome_level1_example =
    device_thread-Outcome_level1 helper server_guid library polls1 polls2 driver refl

device_thread-Outcome_level2_example :
    Outcome
      (device_thread helper server_guid library polls1 polls2 driver2)
      (if starts2 library && not driver2.quit
        then filter_map (stamped helper) (before_stop polls2)
        else [])
      (not (starts2 library) || (driver2.quit || is_stopped polls2))
device_thread-Outcome_level2_example =
    device_thread-Outcome_level2 helper server_guid library polls1 polls2 driver2 refl

-- A callback that came in and passed its test.
abbrev inside : Shared
inside = record (running false) { holder = passed }

Reach-inside : Reach (running false) inside
Reach-inside = later (later start (enter refl refl)) (pass refl refl refl)

call_driver_safe_example :
    (inside.is_open ≡ true) × (inside.is_loaded ≡ true) × (thread_holds inside.stage ≡ false)
call_driver_safe_example = call_driver_safe Reach-inside refl

thread_released_example : (t : Shared) × Reach inside t × (t.stage ≡ unloaded) × (t.holder ≡ free)
thread_released_example = thread_released false inside Reach-inside

outgoing_lem_example :
    Each
      (λ b. IsSized 528 b × (b.obid ≡ 0) × IsZeroAt 14 b.guid)
      (outgoing_blocking helper driver message)
    × Each (λ n. IsSized 528 n × (n.obid ≡ 0)) (outgoing_non_blocking helper driver message)
outgoing_lem_example = outgoing_lem helper helper-IsHelper driver message

stamp-IsStamped_example : IsStamped helper (stamp helper 1000 event)
stamp-IsStamped_example = stamp-IsStamped helper helper-IsFrame 1000 event (omega arith)

-- An open Level II driver.
abbrev opened : DeviceItem
opened = record driver2 { open_handle = pos 7 }

receive_event_callback_lem_example :
    let calls = receive_event_callback helper (some opened) event in
    (hold_all false calls ≡ some false)
    × (handles calls ≡ (
        if not opened.quit
          && (not (is_zero opened.open_handle) && is_deliverable helper opened event)
        then opened.open_handle ∷ []
        else []))
receive_event_callback_lem_example = receive_event_callback_lem helper opened event
