-- ===== src/DeviceThread/Loops.antt =====
-- src/devicethread.cpp: the three work loops, which receive from the driver and send to the broker.
use vscp_mqtt_daemon.Prelude.{
  ℕ, Bool, true, false, List, [], ◌∷◌, ◌++◌, Option, none, some, Text, ℤ, if◌then◌else◌,
}
use vscp_mqtt_daemon.Device.{DeviceItem}
use vscp_mqtt_daemon.Event.{VscpEvent, CanalMsg, Vscp}
use vscp_mqtt_daemon.Event.Translate.{outgoing_blocking, outgoing_non_blocking}
use vscp_mqtt_daemon.Event.Stamp.{stamp}

-- The calls that the thread makes. `dl_open` and `connect` carry whether they succeeded, a call of
-- the driver carries the handle, and `open_driver` the one that it returned and whether the thread
-- accepts it.
pub data Effect : Type 0 where
  dl_open : Text → Bool → Effect
  dl_close : Effect
  open_driver : ℤ → Bool → Effect
  close_driver get_level ready receive : ℤ → Effect
  connect : Bool → Effect
  disconnect sleep lock unlock : Effect
  discover publish : VscpEvent → Effect

-- What happens in a round of a loop: another thread sets `m_bQuit` before the loop tests it again;
-- the driver has nothing; it has something but the receiving call fails; or it delivers a message.
pub data Poll (M : Type 0) : Type 0 where
  stop quiet failed : Poll M
  got : M → Poll M

-- A loop as far as the polls go. `ended` is false if it still waits for the next one.
pub record Loop : Type 0 where
  pub item : DeviceItem
  pub ended : Bool
  pub trace : List Effect

-- CDeviceItem::sendEvent. What the client's `send` returns is not looked at.
unfoldable pub send_event : Option VscpEvent → List Effect × Bool
send_event none = ([], false)
send_event (some ev) = (discover ev ∷ publish ev ∷ [], true)

-- A received message that could be converted is sent; otherwise the round is over.
unfoldable pub publish_all : Option VscpEvent → List Effect
unfolding send_event
publish_all none = []
publish_all (some ev) = (send_event (some ev)).0

unfoldable pub after_poll : {M : Type 0} → Poll M → DeviceItem → DeviceItem
after_poll stop d = record d { quit = true }
after_poll quiet d = d
after_poll failed d = d
after_poll (got m) d = d

-- `while (!m_bQuit) { … }`
unfoldable pub work_loop :
    {M : Type 0} → (DeviceItem → Poll M → List Effect) → List (Poll M) → DeviceItem → Loop
work_loop round [] d = record { item = d; ended = d.quit; trace = [] }
work_loop round (p ∷ ps) d =
    let rest = work_loop round ps (after_poll p d) in
    if d.quit
    then record { item = d; ended = true; trace = [] }
    else record rest { trace = round d p ++ rest.trace }

unfoldable pub round_blocking : Vscp → DeviceItem → Poll CanalMsg → List Effect
round_blocking v d stop = []
round_blocking v d quiet = receive d.open_handle ∷ []
round_blocking v d failed = receive d.open_handle ∷ []
round_blocking v d (got m) = receive d.open_handle ∷ publish_all (outgoing_blocking v d m)

-- Without activity the thread sleeps for 100 ms; a message that cannot be converted counts as such.
unfoldable pub round_non_blocking : Vscp → DeviceItem → Poll CanalMsg → List Effect
round_non_blocking v d stop = []
round_non_blocking v d quiet = ready d.open_handle ∷ sleep ∷ []
round_non_blocking v d failed = ready d.open_handle ∷ receive d.open_handle ∷ sleep ∷ []
round_non_blocking v d (got m) =
    ready d.open_handle ∷ receive d.open_handle ∷ publish_all (outgoing_non_blocking v d m)

-- The number beside the event is what the clock shows.
unfoldable pub round_level2 : Vscp → DeviceItem → Poll (VscpEvent × ℕ) → List Effect
round_level2 v d stop = []
round_level2 v d quiet = receive d.open_handle ∷ []
round_level2 v d failed = receive d.open_handle ∷ []
round_level2 v d (got (ev, now)) = receive d.open_handle ∷ publish_all (some (stamp v now ev))
