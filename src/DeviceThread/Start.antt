-- ===== src/DeviceThread/Start.antt =====
-- src/devicethread.cpp: the function deviceThread, from loading the library to unloading it.
use vscp_mqtt_daemon.Prelude.{
  ℕ, ◌%◌, Bool, true, false, List, [], ◌∷◌, ◌++◌, some, Text, bytes, ℤ, pos, is_zero, is_positive,
  ◌==◌, if◌then◌else◌,
}
use vscp_mqtt_daemon.Device.{
  Guid, DeviceItem, Proc, canal_blocking_receive, driver_level1, driver_level2,
}
use vscp_mqtt_daemon.Event.{VscpEvent, CanalMsg, Vscp}
use vscp_mqtt_daemon.DeviceThread.Symbols.{
  has_proc, found, missing, resolve, resolve_optional, required1, optional1, required2,
}
use vscp_mqtt_daemon.DeviceThread.Loops.{
  Effect, dl_open, dl_close, open_driver, close_driver, get_level, connect, disconnect, lock,
  unlock, Poll, Loop, work_loop, round_blocking, round_non_blocking, round_level2,
}

-- How the calls end that the thread makes once: `dlopen`, `dlsym` for each function, CanalOpen or
-- VSCPOpen, the client's `connect`, and CanalGetLevel.
pub record Library : Type 0 where
  pub loads : Bool
  pub exports : Proc → Bool
  pub opens : ℤ
  pub connects : Bool
  pub level : ℕ

abbrev pub level_text : ℕ → Text
level_text level = if level == driver_level1 then bytes "level1" else bytes "level2"

-- The client's settings before it connects: GUIDs, escapes, token maps and the callback.
unfoldable pub set_up_client : Guid → DeviceItem → DeviceItem
set_up_client server d = record d {
  client = record {
    if_guid = some d.guid;
    srv_guid = some server;
    user_escapes =
        d.client.user_escapes
        ++ ((bytes "driver-name", d.name) ∷ (bytes "driver-level", level_text d.driver_level) ∷ []);
    has_token_maps = true;
    has_callback = true;
  };
}

-- Behind a loop that ended: no more callbacks, then the driver is closed under `m_deviceMutex`.
unfoldable pub close_down : Loop → Loop
close_down l =
    if l.ended
    then record {
      item = record l.item { quit = true; open_handle = pos 0 };
      ended = true;
      trace =
          l.trace ++ (disconnect ∷ lock ∷ close_driver l.item.open_handle ∷ unlock ∷ dl_close ∷ []);
    }
    else l

-- Effects in front of a loop's.
abbrev pub behind : List Effect → Loop → Loop
behind es l = record l { trace = es ++ l.trace }

-- The thread returns.
abbrev pub ends : DeviceItem → List Effect → Loop
ends d es = record { item = d; ended = true; trace = es }

module _ (v : Vscp) (server : Guid) (lib : Library) where
  -- From a connected Level I driver on: its level is asked for, and the loop depends on whether it
  -- can block.
  unfoldable pub level1_loop : List (Poll CanalMsg) → DeviceItem → Loop
  level1_loop polls d =
      let e = record d { driver_level = lib.level % 256 } in
      behind (get_level d.open_handle ∷ []) (
        close_down (
          if has_proc canal_blocking_receive d.procs
          then work_loop (round_blocking v) polls e
          else work_loop (round_non_blocking v) polls e))

  -- With all functions at hand. A refused connection unloads the library, and leaves the driver
  -- open and its handle in place.
  unfoldable pub level1_open : List (Poll CanalMsg) → DeviceItem → Loop
  level1_open polls d =
      let e = record d { open_handle = lib.opens } in
      if is_positive lib.opens
      then if lib.connects
        then behind (open_driver lib.opens true ∷ connect true ∷ [])
            (level1_loop polls (set_up_client server e))
        else ends (set_up_client server e)
            (open_driver lib.opens true ∷ connect false ∷ dl_close ∷ [])
      else ends e (open_driver lib.opens false ∷ dl_close ∷ [])

  unfoldable pub level1_thread : List (Poll CanalMsg) → DeviceItem → Loop
  level1_thread polls d = elim (resolve lib.exports required1 d.procs) [
    | missing ps closes ↦ ends (record d { procs = ps }) (if closes then dl_close ∷ [] else [])
    | found ps ↦ level1_open polls (record d { procs = resolve_optional lib.exports optional1 ps })
  ]

  -- A refused connection closes the driver before the library is unloaded.
  unfoldable pub level2_open : List (Poll (VscpEvent × ℕ)) → DeviceItem → Loop
  level2_open polls d =
      let e = record (set_up_client server d) { open_handle = lib.opens } in
      if is_zero lib.opens
      then ends e (open_driver lib.opens false ∷ dl_close ∷ [])
      else if lib.connects
      then behind (open_driver lib.opens true ∷ connect true ∷ [])
          (close_down (work_loop (round_level2 v) polls e))
      else ends (record e { open_handle = pos 0 })
          (open_driver lib.opens true ∷ connect false ∷ close_driver lib.opens ∷ dl_close ∷ [])

  unfoldable pub level2_thread : List (Poll (VscpEvent × ℕ)) → DeviceItem → Loop
  level2_thread polls d = elim (resolve lib.exports required2 d.procs) [
    | missing ps closes ↦ ends (record d { procs = ps }) (if closes then dl_close ∷ [] else [])
    | found ps ↦ level2_open polls (record d { procs = ps })
  ]

  -- `polls1` are the rounds of a Level I driver, `polls2` those of a Level II driver.
  unfoldable pub device_thread :
      List (Poll CanalMsg) → List (Poll (VscpEvent × ℕ)) → DeviceItem → Loop
  device_thread polls1 polls2 d =
      if lib.loads
      then behind (dl_open d.path true ∷ []) (
          if d.driver_level == driver_level1
          then level1_thread polls1 d
          else if d.driver_level == driver_level2
          then level2_thread polls2 d
          else ends d [])
      else ends d (dl_open d.path false ∷ [])
