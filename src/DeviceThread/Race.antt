-- ===== src/DeviceThread/Race.antt =====
-- src/devicethread.cpp: the callback and the end of the thread at the same time. Each step is one
-- access of the shared item, or one call, of receive_event_callback or of the code behind the work
-- loops of deviceThread; any number of callbacks may come, in any order with the other steps.
use vscp_mqtt_daemon.Prelude.{Bool, true, false, not, ◌||◌, ◌≡◌, arith}

-- Where the device thread stands, from its work loop to its return.
pub data Stage : Type 0 where
  working leaving disconnected closing driver_closed cleared released unloaded : Stage

-- Who holds `m_deviceMutex`; for a callback, how far it is: inside, past its test, before its end.
pub data Holder : Type 0 where
  free thread entered passed finished : Holder

pub record Shared : Type 0 where
  -- `m_bQuit`, and whether `m_openHandle` is other than 0
  pub quit : Bool
  pub has_handle : Bool
  -- the driver itself, and its library
  pub is_open : Bool
  pub is_loaded : Bool
  pub holder : Holder
  pub stage : Stage

pub data Step (s t : Shared) : Type 0 where
  -- stopDriver, from another thread
  request_stop : t ≡ record s { quit = true } → Step s t
  -- the device thread
  end_loop :
      s.stage ≡ working → s.quit ≡ true → t ≡ record s { quit = true; stage = leaving } → Step s t
  disconnect : s.stage ≡ leaving → t ≡ record s { stage = disconnected } → Step s t
  take_mutex :
      s.stage ≡ disconnected
      → s.holder ≡ free
      → t ≡ record s { holder = thread; stage = closing }
      → Step s t
  close_driver :
      s.stage ≡ closing → t ≡ record s { is_open = false; stage = driver_closed } → Step s t
  clear_handle :
      s.stage ≡ driver_closed → t ≡ record s { has_handle = false; stage = cleared } → Step s t
  give_mutex : s.stage ≡ cleared → t ≡ record s { holder = free; stage = released } → Step s t
  unload : s.stage ≡ released → t ≡ record s { is_loaded = false; stage = unloaded } → Step s t
  -- a callback
  enter : s.holder ≡ free → t ≡ record s { holder = entered } → Step s t
  skip :
      s.holder ≡ entered
      → (s.quit || not s.has_handle) ≡ true
      → t ≡ record s { holder = finished }
      → Step s t
  pass :
      s.holder ≡ entered
      → (s.quit || not s.has_handle) ≡ false
      → t ≡ record s { holder = passed }
      → Step s t
  call_driver : s.holder ≡ passed → t ≡ record s { holder = finished } → Step s t
  leave : s.holder ≡ finished → t ≡ record s { holder = free } → Step s t

-- The driver is open and its client has just been connected.
abbrev pub running : Bool → Shared
running quit = record {
  quit = quit;
  has_handle = true;
  is_open = true;
  is_loaded = true;
  holder = free;
  stage = working;
}

-- The states that the steps get to from `b`.
pub data Reach (b : Shared) : Shared → Type 0 where
  start : Reach b b
  later : {s t : Shared} → Reach b s → Step s t → Reach b t

abbrev open_in : Stage → Bool
open_in working = true
open_in leaving = true
open_in disconnected = true
open_in closing = true
open_in driver_closed = false
open_in cleared = false
open_in released = false
open_in unloaded = false

abbrev handle_in : Stage → Bool
handle_in working = true
handle_in leaving = true
handle_in disconnected = true
handle_in closing = true
handle_in driver_closed = true
handle_in cleared = false
handle_in released = false
handle_in unloaded = false

abbrev loaded_in : Stage → Bool
loaded_in working = true
loaded_in leaving = true
loaded_in disconnected = true
loaded_in closing = true
loaded_in driver_closed = true
loaded_in cleared = true
loaded_in released = true
loaded_in unloaded = false

abbrev pub thread_holds : Stage → Bool
thread_holds working = false
thread_holds leaving = false
thread_holds disconnected = false
thread_holds closing = true
thread_holds driver_closed = true
thread_holds cleared = true
thread_holds released = false
thread_holds unloaded = false

abbrev pub is_thread : Holder → Bool
is_thread free = false
is_thread thread = true
is_thread entered = false
is_thread passed = false
is_thread finished = false

-- The fields follow the stage, the thread holds the mutex in its closing stages, and a callback
-- past its test still has the handle.
pub record Inv (s : Shared) : Type 0 where
  pub open_fits : s.is_open ≡ open_in s.stage
  pub handle_fits : s.has_handle ≡ handle_in s.stage
  pub loaded_fits : s.is_loaded ≡ loaded_in s.stage
  pub holder_fits : is_thread s.holder ≡ thread_holds s.stage
  pub passed_fits : s.holder ≡ passed → s.has_handle ≡ true

Step-Inv : {s t : Shared} → Step s t → Inv s → Inv t
Step-Inv (request_stop e) i = ground arith
Step-Inv (end_loop a b e) i = ground arith
Step-Inv (disconnect a e) i = ground arith
Step-Inv (take_mutex a b e) i = ground arith
Step-Inv (close_driver a e) i = ground arith
Step-Inv (clear_handle a e) i = ground arith
Step-Inv (give_mutex a e) i = ground arith
Step-Inv (unload a e) i = ground arith
Step-Inv (enter a e) i = ground arith
Step-Inv (skip a b e) i = ground arith
Step-Inv (pass a b e) i = ground arith
Step-Inv (call_driver a e) i = ground arith
Step-Inv (leave a e) i = ground arith

pub Reach-Inv : (q : Bool) {s : Shared} → Reach (running q) s → Inv s
Reach-Inv q start = ground arith
Reach-Inv q (later r st) = Step-Inv st (Reach-Inv q r)

-- In every order of the steps, a callback that is about to call the driver finds it open and its
-- library loaded, and the device thread outside the stages in which it closes the driver.
pub call_driver_safe :
    {q : Bool} {s : Shared}
    → Reach (running q) s
    → s.holder ≡ passed
    → (s.is_open ≡ true) × (s.is_loaded ≡ true) × (thread_holds s.stage ≡ false)
call_driver_safe {q} r h = let i = Reach-Inv q r in ground (arith, i)
