-- ===== src/DeviceThread/Control.antt =====
-- What pausing and restarting a driver (Device.Lifecycle) mean for its thread.
use vscp_mqtt_daemon.Prelude.{
  ℕ, Bool, true, false, List, [], ◌≡◌, refl, sym, ◌∙◌, arith, ◌⊎◌, inl, inr,
}
use vscp_mqtt_daemon.Device.{Guid, DeviceItem, canal_blocking_receive}
use vscp_mqtt_daemon.Device.Lifecycle.{start_driver, stop_driver, pause_driver}
use vscp_mqtt_daemon.Event.{VscpEvent, CanalMsg, Vscp}
use vscp_mqtt_daemon.Event.Translate.{outgoing_blocking, outgoing_non_blocking}
use vscp_mqtt_daemon.DeviceThread.{Poll}
use vscp_mqtt_daemon.DeviceThread.Start.{Library, device_thread}
use vscp_mqtt_daemon.DeviceThread.Traffic.{published}
use vscp_mqtt_daemon.DeviceThread.Outcome.{outgoing}
use vscp_mqtt_daemon.DeviceThread.Sent.{device_thread-Outcome_level1, device_thread-Outcome_level2}

module _ (v : Vscp) (server : Guid) (lib : Library) where
  outgoing_pause : (b : Bool) (d : DeviceItem) → outgoing v b (pause_driver d).item ≡ outgoing v b d
  unfolding outgoing outgoing_blocking outgoing_non_blocking pause_driver
  outgoing_pause true d = refl
  outgoing_pause false d = refl

  -- A paused driver of either level sends what it would send if it were not paused.
  pub published-pause_driver :
      (polls1 : List (Poll CanalMsg)) (polls2 : List (Poll (VscpEvent × ℕ))) (d : DeviceItem)
      → (d.driver_level ≡ 1) ⊎ (d.driver_level ≡ 2)
      → published (device_thread v server lib polls1 polls2 (pause_driver d).item).trace
        ≡ published (device_thread v server lib polls1 polls2 d).trace
  unfolding pause_driver
  published-pause_driver polls1 polls2 d (inl one) =
      (rw (outgoing_pause (lib.exports canal_blocking_receive) d) at
        (device_thread-Outcome_level1 v server lib polls1 polls2 (pause_driver d).item one)).0.0
      ∙ sym (device_thread-Outcome_level1 v server lib polls1 polls2 d one).0.0
  published-pause_driver polls1 polls2 d (inr two) =
      (device_thread-Outcome_level2 v server lib polls1 polls2 (pause_driver d).item two).0.0
      ∙ sym (device_thread-Outcome_level2 v server lib polls1 polls2 d two).0.0

  -- A driver of either level that was stopped and is started again sends nothing, and its thread
  -- returns whatever happens: `m_bQuit` is still set.
  pub device_thread_restarted :
      (polls1 : List (Poll CanalMsg)) (polls2 : List (Poll (VscpEvent × ℕ))) (d : DeviceItem)
      → d.enable ≡ true
      → (d.driver_level ≡ 1) ⊎ (d.driver_level ≡ 2)
      → let e = (start_driver true (stop_driver d).item).item in
        let l = device_thread v server lib polls1 polls2 e in
        (published l.trace ≡ []) × (l.ended ≡ true)
  unfolding start_driver stop_driver
  device_thread_restarted polls1 polls2 d on (inl one) =
      let e = (start_driver true (stop_driver d).item).item in
      ground (arith, device_thread-Outcome_level1 v server lib polls1 polls2 e)
  device_thread_restarted polls1 polls2 d on (inr two) =
      let e = (start_driver true (stop_driver d).item).item in
      ground (arith, device_thread-Outcome_level2 v server lib polls1 polls2 e)
