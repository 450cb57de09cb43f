-- ===== src/Device/Locks.antt =====
-- src/devicelist.cpp: the mutexes and the semaphore of a driver's item, in its constructor, in
-- stopDriver, and in the destructors of the item and of the list.
use vscp_mqtt_daemon.Prelude.{List, [], ◌∷◌, map, if◌then◌else◌}
use vscp_mqtt_daemon.Device.{DeviceItem}

-- `m_mutexdeviceThread`, `m_deviceMutex`, `m_mutexinputQueue` and `m_seminputQueue`.
pub data Lock : Type 0 where
  thread_mutex device_mutex queue_mutex queue_semaphore : Lock

pub data LockCall : Type 0 where
  make take give destroy : Lock → LockCall

unfoldable pub construct_calls : List LockCall
construct_calls =
    make thread_mutex ∷ make device_mutex ∷ make queue_mutex ∷ make queue_semaphore ∷ []

-- The thread is joined in between, if there is one.
unfoldable pub stop_calls : DeviceItem → List LockCall
stop_calls d = if d.enable then take thread_mutex ∷ give thread_mutex ∷ [] else []

unfoldable pub delete_item : List LockCall
delete_item =
    destroy queue_semaphore ∷ destroy queue_mutex ∷ destroy device_mutex ∷ destroy thread_mutex ∷ []

-- The calls for each of the items, which the list loses.
unfoldable pub delete_list : List DeviceItem → List (List LockCall) × List DeviceItem
unfolding delete_item
delete_list ds = (map (λ d. delete_item) ds, [])
