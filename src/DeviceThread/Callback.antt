-- ===== src/DeviceThread/Callback.antt =====
-- src/devicethread.cpp: receive_event_callback, by which the client hands an event from the broker
-- to the driver.
use vscp_mqtt_daemon.Prelude.{
  ℕ, ◌||◌, List, [], ◌∷◌, ◌++◌, Option, none, some, ℤ, is_zero, ◌==◌, if◌then◌else◌,
}
use vscp_mqtt_daemon.Device.{DeviceItem, canal_blocking_send, driver_level1, driver_level2}
use vscp_mqtt_daemon.Event.{VscpEvent, CanalMsg, Vscp}
use vscp_mqtt_daemon.DeviceThread.Symbols.{has_proc}

-- The calls of the callback; the numbers behind a message are the timeouts.
pub data DriverCall : Type 0 where
  lock unlock : DriverCall
  canal_blocking_send_of : ℤ → CanalMsg → ℕ → DriverCall
  canal_send_of : ℤ → CanalMsg → DriverCall
  vscp_write_of : ℤ → VscpEvent → ℕ → DriverCall

-- The call into the driver, if there is one. The results of the calls are only logged.
unfoldable pub deliver : Vscp → DeviceItem → VscpEvent → List DriverCall
deliver v d ev =
    if d.driver_level == driver_level1
    then elim (v.convert_event_to_canal ev) [
      | none ↦ []
      | some msg ↦
          if has_proc canal_blocking_send d.procs
          then canal_blocking_send_of d.open_handle msg 300 ∷ []
          else canal_send_of d.open_handle msg ∷ []
    ]
    else if d.driver_level == driver_level2
    then vscp_write_of d.open_handle ev 500 ∷ []
    else []

-- `none` stands for a NULL object.
unfoldable pub receive_event_callback : Vscp → Option DeviceItem → VscpEvent → List DriverCall
unfolding deliver
receive_event_callback v none ev = []
receive_event_callback v (some d) ev =
    if d.quit || is_zero d.open_handle
    then lock ∷ unlock ∷ []
    else lock ∷ (deliver v d ev ++ (unlock ∷ []))
