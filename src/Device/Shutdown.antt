-- ===== src/Device/Shutdown.antt =====
-- Threads over a whole session: `run` starts the drivers and calls `cleanup`, and `main` calls
-- `cleanup` again, so that every driver is asked to stop twice.
use vscp_mqtt_daemon.Prelude.{
  Bool, true, false, not, List, [], ◌∷◌, ◌++◌, map, ◌≡◌, refl, arith, all, if◌then◌else◌,
}
use vscp_mqtt_daemon.Device.{DeviceItem}
use vscp_mqtt_daemon.Device.Lifecycle.{
  ThreadCall, create, join, Runs, items, start_driver, stop_driver, start_if_enabled,
  start_device_worker_threads, stop_device_worker_threads,
}

-- The calls of each item over two rounds, the earlier first.
abbrev pub then_calls : List (List ThreadCall) → Runs → List (List ThreadCall)
then_calls [] _ = []
then_calls (c ∷ cs) [] = c ∷ cs
then_calls (c ∷ cs) (r ∷ rs) = (c ++ r.calls) ∷ then_calls cs rs

abbrev pub calls_of : Runs → List (List ThreadCall)
calls_of = map (λ r. r.calls)

-- What each driver's thread sees of a session.
unfoldable pub session : (DeviceItem → Bool) → List DeviceItem → List (List ThreadCall)
session created ds =
    let started = (start_device_worker_threads created ds).0 in
    let stopped = (stop_device_worker_threads (items started)).0 in
    then_calls (then_calls (calls_of started) stopped)
      (stop_device_worker_threads (items stopped)).0

abbrev pub session_of : (DeviceItem → Bool) → DeviceItem → List ThreadCall
session_of created d =
    if d.enable then if created d then create true ∷ join true ∷ [] else create false ∷ [] else []

-- In a session over drivers that have no thread yet, each enabled driver whose thread could be
-- created has it created once and joined once, in this order, with the request to quit set; no other thread is joined.
pub session-eq :
    (created : DeviceItem → Bool) (ds : List DeviceItem)
    → all (λ d. not d.thread_started) ds ≡ true
    → session created ds ≡ map (session_of created) ds
unfolding session start_device_worker_threads stop_device_worker_threads start_if_enabled
    start_driver stop_driver
session-eq created [] h = refl
session-eq created (d ∷ ds) h = ground (arith, session-eq created ds)

-- Stopping twice is stopping once: the second round changes no item and joins nothing.
pub stop_driver_idem :
    (d : DeviceItem) → (stop_driver (stop_driver d).item).item ≡ (stop_driver d).item
unfolding stop_driver
stop_driver_idem d = ground arith
