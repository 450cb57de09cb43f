-- ===== src/DeviceThread/Protocol.antt =====
-- The order in which the thread of a driver makes its calls, and what it leaves behind.
use vscp_mqtt_daemon.Prelude.{
  ℕ, Bool, true, false, not, ◌&&◌, List, [], ◌∷◌, ◌++◌, Option, none, some, ◌≡◌, refl, arith,
  if_cases, if◌then◌else◌, is_positive, ◌∙◌,
}
use vscp_mqtt_daemon.Device.{Guid, DeviceItem, canal_blocking_receive}
use vscp_mqtt_daemon.Event.{VscpEvent, CanalMsg, Vscp}
use vscp_mqtt_daemon.DeviceThread.{
  has_proc, Effect, dl_open, dl_close, open_driver, close_driver, get_level, connect, disconnect,
  ready, receive, discover, publish, sleep, lock, unlock, Poll, stop, quiet, failed, got, Loop,
  publish_all, after_poll, work_loop, round_blocking, round_non_blocking, round_level2,
}
use vscp_mqtt_daemon.DeviceThread.Start.{
  Library, set_up_client, close_down, level1_loop, level1_open, level2_open,
}

-- The library is loaded, the driver open, the client connected, the driver's mutex held.
pub record Monitor : Type 0 where
  pub loaded : Bool
  pub opened : Bool
  pub connected : Bool
  pub locked : Bool

-- A call that is not allowed has no successor: a function of the driver before it is open or after
-- it is closed or unloaded, a message to the broker while not connected, a driver closed while its
-- callback may still come, a mutex taken twice.
abbrev pub watch : Monitor → Effect → Option Monitor
watch m (dl_open path success) = if m.loaded then none else some (record m { loaded = success })
watch m dl_close = if m.loaded && not m.connected then some (record m { loaded = false }) else none
watch m (open_driver h accepted) =
    if m.loaded && not m.opened then some (record m { opened = accepted }) else none
watch m (close_driver h) =
    if m.loaded && (m.opened && not m.connected) then some (record m { opened = false }) else none
watch m (get_level h) = if m.loaded && m.opened then some m else none
watch m (ready h) = if m.loaded && m.opened then some m else none
watch m (receive h) = if m.loaded && m.opened then some m else none
watch m (connect success) =
    if m.opened && not m.connected then some (record m { connected = success }) else none
watch m disconnect = if m.connected then some (record m { connected = false }) else none
watch m sleep = some m
watch m lock = if m.locked then none else some (record m { locked = true })
watch m unlock = if m.locked then some (record m { locked = false }) else none
watch m (discover ev) = if m.connected then some m else none
watch m (publish ev) = if m.connected then some m else none

abbrev pub watch_all : Monitor → List Effect → Option Monitor
watch_all m [] = some m
watch_all m (e ∷ es) = elim (watch m e) [ none ↦ none | some n ↦ watch_all n es ]

abbrev pub idle : Monitor
idle = record { loaded = false; opened = false; connected = false; locked = false }

abbrev pub busy : Monitor
busy = record { loaded = true; opened = true; connected = true; locked = false }

watch_all-append :
    (m n : Monitor) (es fs : List Effect)
    → watch_all m es ≡ some n
    → watch_all m (es ++ fs) ≡ watch_all n fs
watch_all-append m n [] fs h = ground arith
watch_all-append m n (e ∷ es) fs h =
    (elim (watch m e)
        as (λ o.
          (elim o [ none ↦ none | some k ↦ watch_all k es ]) ≡ some n
          → (elim o [ none ↦ none | some k ↦ watch_all k (es ++ fs) ]) ≡ watch_all n fs) [
            | none ↦ λ g. cc
            | some k ↦ λ g. watch_all-append k n es fs g
          ])
      h

publish_all-busy : (o : Option VscpEvent) → watch_all busy (publish_all o) ≡ some busy
unfolding publish_all
publish_all-busy none = refl
publish_all-busy (some ev) = refl

-- A round of a loop that leaves the monitor as it is.
abbrev Keeps : {M : Type 0} → (DeviceItem → Poll M → List Effect) → Type 0
Keeps {M} round = (d : DeviceItem) (p : Poll M) → watch_all busy (round d p) ≡ some busy

round_blocking-Keeps : (v : Vscp) → Keeps (round_blocking v)
unfolding round_blocking
round_blocking-Keeps v d stop = refl
round_blocking-Keeps v d quiet = refl
round_blocking-Keeps v d failed = refl
round_blocking-Keeps v d (got m) = publish_all-busy _

round_non_blocking-Keeps : (v : Vscp) → Keeps (round_non_blocking v)
unfolding round_non_blocking
round_non_blocking-Keeps v d stop = refl
round_non_blocking-Keeps v d quiet = refl
round_non_blocking-Keeps v d failed = refl
round_non_blocking-Keeps v d (got m) = publish_all-busy _

round_level2-Keeps : (v : Vscp) → Keeps (round_level2 v)
unfolding round_level2
round_level2-Keeps v d stop = refl
round_level2-Keeps v d quiet = refl
round_level2-Keeps v d failed = refl
round_level2-Keeps v d (got (ev, now)) = publish_all-busy _

work_loop-busy :
    {M : Type 0} (round : DeviceItem → Poll M → List Effect) (ps : List (Poll M)) (d : DeviceItem)
    → Keeps round
    → watch_all busy (work_loop round ps d).trace ≡ some busy
unfolding work_loop
work_loop-busy round [] d keeps = refl
work_loop-busy round (p ∷ ps) d keeps =
    if_cases (λ (l : Loop). watch_all busy l.trace ≡ some busy) d.quit (λ _. refl)
      (λ _.
        watch_all-append busy busy (round d p) _ (keeps d p)
        ∙ work_loop-busy round ps (after_poll p d) keeps)

-- A loop is closed down if it ended.
abbrev pub settled : Bool → Monitor
settled ended = if ended then idle else busy

close_down-settled :
    (l : Loop)
    → watch_all busy l.trace ≡ some busy
    → watch_all busy (close_down l).trace ≡ some (settled (close_down l).ended)
unfolding close_down
close_down-settled l h =
    if_cases (λ (k : Loop). watch_all busy k.trace ≡ some (settled k.ended)) l.ended
      (λ _. watch_all-append busy busy l.trace _ h) (λ e. rw e h)

abbrev pub open_only : Monitor
open_only = record { loaded = false; opened = true; connected = false; locked = false }

abbrev pub loaded_only : Monitor
loaded_only = record { loaded = true; opened = false; connected = false; locked = false }

module _ (v : Vscp) (server : Guid) (lib : Library) where
  level1_loop-settled :
      (polls : List (Poll CanalMsg)) (d : DeviceItem)
      → let l = level1_loop v server lib polls d in watch_all busy l.trace ≡ some (settled l.ended)
  unfolding level1_loop
  level1_loop-settled polls d =
      if_cases
        (λ (l : Loop). watch_all busy (close_down l).trace ≡ some (settled (close_down l).ended))
        (has_proc canal_blocking_receive d.procs)
        (λ _.
          close_down-settled _ (work_loop-busy (round_blocking v) polls _ (round_blocking-Keeps v)))
        (λ _.
          close_down-settled _
            (work_loop-busy (round_non_blocking v) polls _ (round_non_blocking-Keeps v)))

  -- What a run from the loaded library on ends with.
  abbrev pub Ends : Loop → Monitor → Type 0
  Ends l m = watch_all loaded_only l.trace ≡ some m

  pub level1_open-Ends :
      (polls : List (Poll CanalMsg)) (d : DeviceItem)
      → let l = level1_open v server lib polls d in
        Ends l (
          if l.ended
          then if is_positive lib.opens && not lib.connects then open_only else idle
          else busy)
  unfolding level1_open
  level1_open-Ends polls d = ground (
    arith,
    level1_loop-settled polls (set_up_client server (record d { open_handle = lib.opens })),
  )

  pub level2_open-Ends :
      (polls : List (Poll (VscpEvent × ℕ))) (d : DeviceItem)
      → let l = level2_open v server lib polls d in Ends l (settled l.ended)
  unfolding level2_open
  level2_open-Ends polls d =
      let e = record (set_up_client server d) { open_handle = lib.opens } in
      ground (
        arith,
        close_down-settled (work_loop (round_level2 v) polls e)
            (work_loop-busy (round_level2 v) polls e (round_level2-Keeps v)),
      )
