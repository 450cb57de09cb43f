-- ===== src/Device/Lifecycle.antt =====
-- src/devicelist.cpp: starting, stopping, pausing and resuming a driver, and the loops of
-- src/controlobject.cpp that start and stop all drivers. The outcome of `pthread_create` is an
-- argument; calls of the thread library are returned as a list.
use vscp_mqtt_daemon.Prelude.{Bool, true, false, ◌||◌, List, [], ◌∷◌, map, if◌then◌else◌}
use vscp_mqtt_daemon.Device.{DeviceItem}

-- `pthread_create`, with whether it makes the thread, and `pthread_join`, with what `m_bQuit` is then.
pub data ThreadCall : Type 0 where
  create : (made : Bool) → ThreadCall
  join : (quit : Bool) → ThreadCall

-- The item afterwards, the result of the method, and the calls.
pub record Ran : Type 0 where
  pub item : DeviceItem
  pub result : Bool
  pub calls : List ThreadCall

unfoldable pub start_driver : Bool → DeviceItem → Ran
start_driver created d =
    if d.enable
    then if created
      then record {
        item = record d { thread_started = true };
        result = true;
        calls = create true ∷ [];
      }
      else record { item = d; result = false; calls = create false ∷ [] }
    else record { item = d; result = true; calls = [] }

-- The branch under `m_mutexdeviceThread`.
unfoldable pub join_thread : DeviceItem → Ran
join_thread d =
    if d.thread_started
    then record {
      item = record d { thread_started = false };
      result = true;
      calls = join d.quit ∷ [];
    }
    else record { item = d; result = true; calls = [] }

unfoldable pub stop_driver : DeviceItem → Ran
unfolding join_thread
stop_driver d =
    if d.enable
    then join_thread (record d { quit = true })
    else record { item = d; result = true; calls = [] }

unfoldable pub pause_driver : DeviceItem → Ran
pause_driver d = record { item = record d { active = false }; result = true; calls = [] }

unfoldable pub resume_driver : DeviceItem → Ran
resume_driver d = record { item = record d { active = true }; result = true; calls = [] }

-- Whether the calls make a thread, and whether they wait for it.
abbrev pub makes : List ThreadCall → Bool
makes [] = false
makes (create made ∷ cs) = made || makes cs
makes (join quit ∷ cs) = makes cs

abbrev pub joins : List ThreadCall → Bool
joins [] = false
joins (create made ∷ cs) = joins cs
joins (join quit ∷ cs) = true

-- What `m_bQuit` is when the calls first wait for the thread, or else at their end.
abbrev pub quit_at_join : List ThreadCall → Bool → Bool
quit_at_join [] quit = quit
quit_at_join (create made ∷ cs) quit = quit_at_join cs quit
quit_at_join (join b ∷ cs) quit = b

-- A device list as it is run: the items, and what each did to its thread.
abbrev pub Runs : Type 0
Runs = List Ran

abbrev pub items : Runs → List DeviceItem
items = map (λ r. r.item)

-- One round of the loop in startDeviceWorkerThreads, which skips the disabled items.
unfoldable pub start_if_enabled : (DeviceItem → Bool) → DeviceItem → Ran
start_if_enabled created d =
    if d.enable then start_driver (created d) d else record { item = d; result = true; calls = [] }

-- `created` says for each item how `pthread_create` ends. The results of the items are ignored.
unfoldable pub start_device_worker_threads : (DeviceItem → Bool) → List DeviceItem → Runs × Bool
start_device_worker_threads created ds = (map (start_if_enabled created) ds, true)

unfoldable pub stop_device_worker_threads : List DeviceItem → Runs × Bool
stop_device_worker_threads ds = (map stop_driver ds, true)
