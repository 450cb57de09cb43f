-- ===== src/DeviceThread/Leaks.antt =====
-- What a driver's thread leaves behind, for every library, broker and schedule.
use vscp_mqtt_daemon.Prelude.{
  ℕ, Bool, true, false, not, ◌&&◌, List, [], ◌∷◌, Option, none, some, map, ◌==◌, ◌≡◌, refl, arith,
  if◌then◌else◌, is_positive, all, ◌∙◌,
}
use vscp_mqtt_daemon.Device.{
  Guid, DeviceItem, Proc, canal_open, canal_close, canal_get_level, canal_send,
  canal_data_available, canal_receive, canal_get_status, canal_get_statistics, canal_set_filter,
  canal_set_mask, canal_get_version, canal_get_dll_version, canal_get_vendor_string, vscp_open,
  vscp_close, vscp_write, vscp_read, vscp_get_version,
}
use vscp_mqtt_daemon.Event.{VscpEvent, CanalMsg, Vscp}
use vscp_mqtt_daemon.DeviceThread.{
  Resolution, found, missing, assign, resolve, required1, required2, Poll,
}
use vscp_mqtt_daemon.DeviceThread.Start.{Library, level1_thread, level2_thread, device_thread}
use vscp_mqtt_daemon.DeviceThread.Protocol.{
  Monitor, watch_all, idle, busy, open_only, loaded_only, Ends, level1_open-Ends, level2_open-Ends,
}

-- Whether the lookups fail, and if so whether `dlclose` is called.
abbrev pub failure : Resolution → Option Bool
failure (found ps) = none
failure (missing ps closes) = some closes

abbrev tagged : Bool → List Proc → List (Proc × Bool)
tagged closes = map (λ p. (p, closes))

resolve-tagged :
    (has : Proc → Bool) (closes : Bool) (ps qs : List Proc)
    → failure (resolve has (tagged closes ps) qs) ≡ (if all has ps then none else some closes)
unfolding resolve
resolve-tagged has closes [] qs = refl
resolve-tagged has closes (p ∷ ps) qs =
    ground (arith, resolve-tagged has closes ps (assign p true qs))

resolve-cons :
    (has : Proc → Bool) (p : Proc) (closes : Bool) (rest : List (Proc × Bool)) (qs : List Proc)
    → failure (resolve has ((p, closes) ∷ rest) qs)
      ≡ (if has p then failure (resolve has rest (assign p true qs)) else some closes)
unfolding resolve
resolve-cons has p closes rest qs = ground arith

-- The functions that a Level I driver has to export besides CanalOpen.
abbrev pub others1 : List Proc
others1 =
    canal_close ∷ canal_get_level ∷ canal_send ∷ canal_data_available ∷ canal_receive
    ∷ canal_get_status ∷ canal_get_statistics ∷ canal_set_filter ∷ canal_set_mask
    ∷ canal_get_version ∷ canal_get_dll_version ∷ canal_get_vendor_string ∷ []

-- The functions that a Level II driver has to export.
abbrev pub procs2 : List Proc
procs2 = vscp_open ∷ vscp_close ∷ vscp_write ∷ vscp_read ∷ vscp_get_version ∷ []

pub required1-failure :
    (has : Proc → Bool) (qs : List Proc)
    → failure (resolve has required1 qs)
      ≡ (if has canal_open then if all has others1 then none else some true else some false)
unfolding required1
required1-failure has qs =
    resolve-cons has canal_open false (tagged true others1) qs
    ∙ rw (resolve-tagged has true others1 (assign canal_open true qs))

pub required2-failure :
    (has : Proc → Bool) (qs : List Proc)
    → failure (resolve has required2 qs) ≡ (if all has procs2 then none else some false)
unfolding required2
required2-failure has qs = resolve-tagged has false procs2 qs

-- The library stays loaded: it was loaded, but CanalOpen, or any function of a Level II driver, is
-- missing, or the configured level is neither 1 nor 2.
abbrev pub leaves_loaded : Library → DeviceItem → Bool
leaves_loaded lib d =
    lib.loads
    && (if d.driver_level == 1
        then not (lib.exports canal_open)
        else if d.driver_level == 2
        then not (all lib.exports procs2)
        else true)

-- The driver stays open: it is a Level I driver that opened, and the broker refused the connection.
abbrev pub leaves_open : Library → DeviceItem → Bool
leaves_open lib d =
    lib.loads
    && (d.driver_level == 1
        && (lib.exports canal_open
            && (all lib.exports others1 && (is_positive lib.opens && not lib.connects))))

abbrev pub left : Library → DeviceItem → Monitor
left lib d = record {
  loaded = leaves_loaded lib d;
  opened = leaves_open lib d;
  connected = false;
  locked = false;
}

module _ (v : Vscp) (server : Guid) (lib : Library) where
  level1_thread-Ends :
      (polls : List (Poll CanalMsg)) (d : DeviceItem) (r : Resolution)
      → resolve lib.exports required1 d.procs ≡ r
      → let l = level1_thread v server lib polls d in
        Ends v server lib l (
          if l.ended
          then elim (failure r) [
            | none ↦ if is_positive lib.opens && not lib.connects then open_only else idle
            | some closes ↦ if closes then idle else loaded_only
          ]
          else busy)
  unfolding level1_thread
  level1_thread-Ends polls d (missing ps closes) e = rw (e, level1_thread) (ground arith)
  level1_thread-Ends polls d (found ps) e =
      rw (e, level1_thread) (level1_open-Ends v server lib polls _)

  level2_thread-Ends :
      (polls : List (Poll (VscpEvent × ℕ))) (d : DeviceItem) (r : Resolution)
      → resolve lib.exports required2 d.procs ≡ r
      → let l = level2_thread v server lib polls d in
        Ends v server lib l (
          if l.ended
          then elim (failure r) [ none ↦ idle | some closes ↦ if closes then idle else loaded_only ]
          else busy)
  unfolding level2_thread
  level2_thread-Ends polls d (missing ps closes) e = rw (e, level2_thread) (ground arith)
  level2_thread-Ends polls d (found ps) e =
      rw (e, level2_thread) (level2_open-Ends v server lib polls _)

  -- Whatever the library, the broker and the other threads do, the thread keeps the order of calls
  -- that `watch` allows. While it runs, its library is loaded, its driver open and its client
  -- connected. When it has returned, the client is not connected and no mutex is held. The library
  -- stays loaded exactly if it could be loaded and a Level I driver lacks CanalOpen, a Level II
  -- driver lacks some function, or the level is neither 1 nor 2. The driver stays open exactly if a
  -- Level I driver with all functions could be opened and the broker refused the connection.
  pub device_thread-left :
      (polls1 : List (Poll CanalMsg)) (polls2 : List (Poll (VscpEvent × ℕ))) (d : DeviceItem)
      → let l = device_thread v server lib polls1 polls2 d in
        watch_all idle l.trace ≡ some (if l.ended then left lib d else busy)
  unfolding device_thread
  device_thread-left polls1 polls2 d = ground (
    arith,
    level1_thread-Ends polls1 d (resolve lib.exports required1 d.procs) refl,
    required1-failure lib.exports d.procs,
    level2_thread-Ends polls2 d (resolve lib.exports required2 d.procs) refl,
    required2-failure lib.exports d.procs,
  )
