-- ===== src/DeviceThread/Delivery.antt =====
-- What receive_event_callback does to the driver and to the item's mutex, on every branch.
use vscp_mqtt_daemon.Prelude.{
  Bool, true, false, not, ◌&&◌, List, [], ◌∷◌, Option, none, some, ℤ, is_zero, is_some, ◌==◌, ◌≡◌,
  arith, if◌then◌else◌,
}
use vscp_mqtt_daemon.Device.{DeviceItem}
use vscp_mqtt_daemon.Event.{VscpEvent, Vscp}
use vscp_mqtt_daemon.DeviceThread.Callback.{
  DriverCall, lock, unlock, canal_blocking_send_of, canal_send_of, vscp_write_of,
  receive_event_callback,
}

-- The mutex is taken while free and given back while held, and the driver called while held.
abbrev pub hold : Bool → DriverCall → Option Bool
hold held lock = if held then none else some true
hold held unlock = if held then some false else none
hold held (canal_blocking_send_of h m t) = if held then some true else none
hold held (canal_send_of h m) = if held then some true else none
hold held (vscp_write_of h e t) = if held then some true else none

abbrev pub hold_all : Bool → List DriverCall → Option Bool
hold_all held [] = some held
hold_all held (c ∷ cs) = elim (hold held c) [ none ↦ none | some b ↦ hold_all b cs ]

-- The handles with which the driver is called.
abbrev pub handles : List DriverCall → List ℤ
handles [] = []
handles (lock ∷ cs) = handles cs
handles (unlock ∷ cs) = handles cs
handles (canal_blocking_send_of h m t ∷ cs) = h ∷ handles cs
handles (canal_send_of h m ∷ cs) = h ∷ handles cs
handles (vscp_write_of h e t ∷ cs) = h ∷ handles cs

-- The event can be given to the driver: a Level I driver takes what can be converted.
abbrev pub is_deliverable : Vscp → DeviceItem → VscpEvent → Bool
is_deliverable v d ev =
    if d.driver_level == 1 then is_some (v.convert_event_to_canal ev) else d.driver_level == 2

-- The callback calls the driver once, with the open handle and under the item's mutex, if the
-- driver is open, not asked to quit and can take the event; otherwise it does not call it. On every
-- path the mutex is free again at the end.
pub receive_event_callback_lem :
    (v : Vscp) (d : DeviceItem) (ev : VscpEvent)
    → let calls = receive_event_callback v (some d) ev in
      (hold_all false calls ≡ some false)
      × (handles calls ≡ (
          if not d.quit && (not (is_zero d.open_handle) && is_deliverable v d ev)
          then d.open_handle ∷ []
          else []))
unfolding receive_event_callback
receive_event_callback_lem v d ev = ground arith
