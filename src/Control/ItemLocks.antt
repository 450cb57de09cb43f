-- ===== src/Control/ItemLocks.antt =====
-- The mutexes and the semaphore of the drivers' items over a run of the daemon: Device.Locks with
-- deviceThread in between.
use vscp_mqtt_daemon.Prelude.{Bool, List, [], ◌∷◌, ◌++◌, Option, none, some, if◌then◌else◌}
use vscp_mqtt_daemon.Prelude.Checks.{check_all}
use vscp_mqtt_daemon.Device.{Guid, DeviceItem}
use vscp_mqtt_daemon.Device.Lifecycle.{start_if_enabled}
use vscp_mqtt_daemon.Device.Locks.{
  Lock, thread_mutex, device_mutex, queue_mutex, queue_semaphore, LockCall, make, take, give,
  destroy, construct_calls, stop_calls,
}
use vscp_mqtt_daemon.Event.{Vscp}
use vscp_mqtt_daemon.DeviceThread.{Effect, lock, unlock, Loop}
use vscp_mqtt_daemon.Control.Run.{thread_of}
use vscp_mqtt_daemon.Control.Threads.{Field, worker}

pub data LockState : Type 0 where
  absent unlocked locked : LockState

pub record Locks : Type 0 where
  pub thread : LockState
  pub device : LockState
  pub queue : LockState
  pub semaphore : LockState

abbrev pub state_of : Locks → Lock → LockState
state_of s thread_mutex = s.thread
state_of s device_mutex = s.device
state_of s queue_mutex = s.queue
state_of s queue_semaphore = s.semaphore

abbrev pub with_state : Locks → Lock → LockState → Locks
with_state s thread_mutex x = record s { thread = x }
with_state s device_mutex x = record s { device = x }
with_state s queue_mutex x = record s { queue = x }
with_state s queue_semaphore x = record s { semaphore = x }

-- Each lock is made once, then taken and given in turns, and destroyed when nobody has it.
abbrev pub hold : Locks → LockCall → Option Locks
hold s (make l) = elim (state_of s l) [
  | absent ↦ some (with_state s l unlocked)
  | unlocked ↦ none
  | locked ↦ none
]
hold s (take l) = elim (state_of s l) [
  | absent ↦ none
  | unlocked ↦ some (with_state s l locked)
  | locked ↦ none
]
hold s (give l) = elim (state_of s l) [
  | absent ↦ none
  | unlocked ↦ none
  | locked ↦ some (with_state s l unlocked)
]
hold s (destroy l) = elim (state_of s l) [
  | absent ↦ none
  | unlocked ↦ some (with_state s l absent)
  | locked ↦ none
]

abbrev pub hold_all : Locks → List LockCall → Option Locks
hold_all = check_all hold

-- What a thread does with the mutex of its item.
unfoldable pub lock_calls : List Effect → List LockCall
lock_calls [] = []
lock_calls (lock ∷ es) = take device_mutex ∷ lock_calls es
lock_calls (unlock ∷ es) = give device_mutex ∷ lock_calls es
lock_calls (_ ∷ es) = lock_calls es

abbrev device_state : Bool → Locks
device_state b = record {
  thread = unlocked;
  device = if b then locked else unlocked;
  queue = unlocked;
  semaphore = unlocked;
}

-- Before an item is made, and after it has been deleted.
abbrev pub no_locks : Locks
no_locks = record { thread = absent; device = absent; queue = absent; semaphore = absent }

-- The calls of each item over two parts of its life.
abbrev pub then_all : List (List LockCall) → List (List LockCall) → List (List LockCall)
then_all [] _ = []
then_all (c ∷ cs) [] = c ∷ cs
then_all (c ∷ cs) (e ∷ es) = (c ++ e) ∷ then_all cs es

module _ (v : Vscp) (server : Guid) (o : Field) (created : DeviceItem → Bool) where
  abbrev thread : DeviceItem → Loop
  thread d = thread_of (worker v server o) (start_if_enabled created d)

  -- An item from its constructor on: its thread, if it gets one, and the two calls of stopDriver in
  -- `run` and in `main`.
  abbrev pub alive : DeviceItem → List LockCall
  alive d = construct_calls ++ (lock_calls (thread d).trace ++ (stop_calls d ++ stop_calls d))
