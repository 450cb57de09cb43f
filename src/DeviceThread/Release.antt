-- ===== src/DeviceThread/Release.antt =====
-- The end of the thread comes, callbacks or not: nothing that DeviceThread.Race can do keeps the
-- device thread from closing its driver.
use vscp_mqtt_daemon.Prelude.{
  Bool, false, not, ◌||◌, ◌≡◌, refl, sym, ap, arith, inl, inr, Bool-cases,
}
use mathlib.Core.Path.{subst}
use vscp_mqtt_daemon.DeviceThread.Race.{
  Stage, working, leaving, disconnected, closing, driver_closed, cleared, released, unloaded,
  Holder, free, thread, entered, passed, finished, Shared, Step, request_stop, end_loop, disconnect,
  take_mutex, close_driver, clear_handle, give_mutex, unload, skip, pass, call_driver, leave,
  running, Reach, start, later, thread_holds, is_thread, Reach-Inv,
}

earlier : {s t u : Shared} → Step s t → Reach t u → Reach s u
earlier st start = later start st
earlier st (later r next) = later (earlier st r) next

-- The thread gets to its end from here, and leaves the mutex free.
abbrev pub Ends : Shared → Type 0
Ends s = (t : Shared) × Reach s t × (t.stage ≡ unloaded) × (t.holder ≡ free)

before : {s : Shared} (t : Shared) → Step s t → Ends t → Ends s
before t st (u, r, e, f) = (u, earlier st r, e, f)

-- A callback that has the mutex gives it back.
finished-Ends : (s : Shared) → s.holder ≡ finished → Ends (record s { holder = free }) → Ends s
finished-Ends s e ends = before _ (leave e refl) ends

passed-Ends : (s : Shared) → s.holder ≡ passed → Ends (record s { holder = free }) → Ends s
passed-Ends s e ends = before _ (call_driver e refl) (finished-Ends _ refl ends)

entered-Ends : (s : Shared) → s.holder ≡ entered → Ends (record s { holder = free }) → Ends s
entered-Ends s e ends = elim (Bool-cases (s.quit || not s.has_handle)) [
  | inl f ↦ before _ (skip e f refl) (finished-Ends _ refl ends)
  | inr f ↦ before _ (pass e f refl) (passed-Ends _ refl ends)
]

callback-Ends :
    (s : Shared) (h : Holder)
    → s.holder ≡ h
    → is_thread h ≡ false
    → Ends (record s { holder = free })
    → Ends s
callback-Ends s free e f ends = subst Ends (sym (ap (λ h. record s { holder = h }) e)) ends
callback-Ends s thread e f ends = absurd (ground (arith, f))
callback-Ends s entered e f ends = entered-Ends s e ends
callback-Ends s passed e f ends = passed-Ends s e ends
callback-Ends s finished e f ends = finished-Ends s e ends

released-Ends : (s : Shared) → s.stage ≡ released → s.holder ≡ free → Ends s
released-Ends s e f =
    (record s { is_loaded = false; stage = unloaded }, later start (unload e refl), refl, f)

cleared-Ends : (s : Shared) → s.stage ≡ cleared → Ends s
cleared-Ends s e = before _ (give_mutex e refl) (released-Ends _ refl refl)

driver_closed-Ends : (s : Shared) → s.stage ≡ driver_closed → Ends s
driver_closed-Ends s e = before _ (clear_handle e refl) (cleared-Ends _ refl)

closing-Ends : (s : Shared) → s.stage ≡ closing → Ends s
closing-Ends s e = before _ (close_driver e refl) (driver_closed-Ends _ refl)

disconnected-Ends : (s : Shared) → s.stage ≡ disconnected → is_thread s.holder ≡ false → Ends s
disconnected-Ends s e no_thread =
    callback-Ends s s.holder refl no_thread
      (before _ (take_mutex e refl refl) (closing-Ends _ refl))

leaving-Ends : (s : Shared) → s.stage ≡ leaving → is_thread s.holder ≡ false → Ends s
leaving-Ends s e no_thread = before _ (disconnect e refl) (disconnected-Ends _ refl no_thread)

working-Ends : (s : Shared) → s.stage ≡ working → is_thread s.holder ≡ false → Ends s
working-Ends s e no_thread =
    before _ (request_stop refl) (before _ (end_loop e refl refl) (leaving-Ends _ refl no_thread))

released_later-Ends : (s : Shared) → s.stage ≡ released → is_thread s.holder ≡ false → Ends s
released_later-Ends s e no_thread = callback-Ends s s.holder refl no_thread (released-Ends _ e refl)

unloaded-Ends : (s : Shared) → s.stage ≡ unloaded → is_thread s.holder ≡ false → Ends s
unloaded-Ends s e no_thread = callback-Ends s s.holder refl no_thread (_, start, e, refl)

from_stage : (s : Shared) (g : Stage) → s.stage ≡ g → is_thread s.holder ≡ thread_holds g → Ends s
from_stage s working e f = working-Ends s e f
from_stage s leaving e f = leaving-Ends s e f
from_stage s disconnected e f = disconnected-Ends s e f
from_stage s closing e f = closing-Ends s e
from_stage s driver_closed e f = driver_closed-Ends s e
from_stage s cleared e f = cleared-Ends s e
from_stage s released e f = released_later-Ends s e f
from_stage s unloaded e f = unloaded-Ends s e f

-- In every state that the steps get to, however many callbacks have come in between, there are
-- steps on which the thread closes its driver and unloads its library, and everybody has given the
-- mutex back: the callbacks and the thread never wait for each other.
pub thread_released :
    (q : Bool) (s : Shared)
    → Reach (running q) s
    → (t : Shared) × Reach s t × (t.stage ≡ unloaded) × (t.holder ≡ free)
thread_released q s r = from_stage s s.stage refl (Reach-Inv q r).holder_fits
