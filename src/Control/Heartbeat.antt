-- ===== src/Control/Heartbeat.antt =====
-- src/controlobject.cpp: periodicEvents, the four events that the daemon itself sends every minute.
-- The constants of vscp.h and vscp_class.h, the functions that write the time into an event, and the
-- class cguid are arguments; so is what the uninitialised event holds at first.
use vscp_mqtt_daemon.Prelude.{
  ℕ, zero, suc, ◌/◌, ◌%◌, ◌^◌, min, Bool, true, false, List, [], ◌∷◌, ◌++◌, Option, none, some,
  Text, length, take, replicate, set, ◌==◌, if◌then◌else◌,
}
use vscp_mqtt_daemon.Device.{Guid}

-- `vscpEventEx`; `bytes_of` is its array `data`, of 512 bytes.
pub record VscpEventEx : Type 0 where
  pub head : ℕ
  pub obid : ℕ
  pub date_time : List ℕ
  pub timestamp : ℕ
  pub vscp_class : ℕ
  pub vscp_type : ℕ
  pub guid : Guid
  pub size_data : ℕ
  pub bytes_of : List ℕ

-- The classes, types and offsets of the standard.
pub record Standard : Type 0 where
  pub class1_information : ℕ
  pub node_heartbeat : ℕ
  pub class2_information : ℕ
  pub heart_beat : ℕ
  pub class1_protocol : ℕ
  pub segctrl_heartbeat : ℕ
  pub class2_protocol : ℕ
  pub high_end_server_caps : ℕ
  -- VSCP_CAPABILITY_OFFSET_GUID, …_IP_ADDR and …_SRV_NAME
  pub offset_guid : ℕ
  pub offset_ip_addr : ℕ
  pub offset_srv_name : ℕ

-- The date and time that vscp_setEventExToNow writes, and what vscp_makeTimeStamp returns.
pub record Moment : Type 0 where
  pub date_time : List ℕ
  pub timestamp : ℕ

-- What the daemon is and what it reads: `m_guid`, `m_strServerName`, the four octets at position 8
-- of the GUID that getIPAddress fills in, `none` if it fails; what the clocks show for each of the
-- four events, what `time` returns, and whether the client takes an event.
pub record Server : Type 0 where
  pub guid : Guid
  pub name : Text
  pub ip_address : Option (List ℕ)
  pub clock : ℕ → Moment
  pub now : ℕ
  pub takes : VscpEventEx → Bool

-- `memcpy(data + offset, bytes, …)`
unfoldable pub write_at : ℕ → List ℕ → List ℕ → List ℕ
write_at offset bytes [] = []
write_at zero [] (d ∷ ds) = d ∷ ds
write_at zero (b ∷ bs) (d ∷ ds) = b ∷ write_at zero bs ds
write_at (suc offset) bytes (d ∷ ds) = d ∷ write_at offset bytes ds

-- A text up to its first zero byte.
unfoldable pub c_str : Text → Text
c_str [] = []
c_str (x ∷ xs) = let rest = c_str xs in if x == 0 then [] else x ∷ rest

-- The first `min(strlen(name), 64)` bytes of the name.
unfoldable pub name_bytes : Text → List ℕ
unfolding c_str
name_bytes name = take (min (length (c_str name)) 64) (c_str name)

-- The octets of the address, if there is one.
unfoldable pub write_address : Standard → Option (List ℕ) → List ℕ → List ℕ
unfolding write_at
write_address std none ds = ds
write_address std (some octets) ds = write_at std.offset_ip_addr octets ds

-- CControlObject::sendEvent: what is given to the client, and whether it takes it.
unfoldable pub send_event : Server → Option VscpEventEx → List VscpEventEx × Bool
send_event server none = ([], false)
send_event server (some ex) = (ex ∷ [], server.takes ex)

module _ (std : Standard) (server : Server) where
  -- What all four events have in common: everything but the size and the data.
  -- `number` is the position of the event among the four.
  unfoldable pub addressed : ℕ → ℕ → ℕ → VscpEventEx → VscpEventEx
  addressed number vscp_class vscp_type ex = record ex {
    obid = 0;
    head = 0;
    timestamp = (server.clock number).timestamp;
    date_time = (server.clock number).date_time;
    vscp_class = vscp_class;
    vscp_type = vscp_type;
    guid = server.guid;
  }

  unfoldable pub class1_heartbeat : VscpEventEx → VscpEventEx
  unfolding addressed write_at
  class1_heartbeat ex = record (addressed 1 std.class1_information std.node_heartbeat ex) {
    size_data = 3;
    bytes_of = set (set (set (write_at std.offset_guid server.guid ex.bytes_of) 0 0) 1 0) 2 0;
  }

  -- The zeros overwrite the GUID that the code writes into the data first.
  unfoldable pub class2_heartbeat : VscpEventEx → VscpEventEx
  unfolding addressed write_at name_bytes
  class2_heartbeat ex = record (addressed 2 std.class2_information std.heart_beat ex) {
    size_data = 64;
    bytes_of = write_at 0 (name_bytes server.name) (replicate 512 0);
  }

  unfoldable pub segment_heartbeat : VscpEventEx → VscpEventEx
  unfolding addressed write_at
  segment_heartbeat ex =
      let time32 = server.now % 2 ^ 32 in
      record (addressed 3 std.class1_protocol std.segctrl_heartbeat ex) {
        size_data = 5;
        bytes_of =
            set
              (set
                (set
                  (set (set (write_at std.offset_guid server.guid ex.bytes_of) 0 0) 1
                    (time32 / 2 ^ 24 % 256))
                  2 (time32 / 2 ^ 16 % 256))
                3 (time32 / 2 ^ 8 % 256))
              4 (time32 % 256);
      }

  -- getVscpCapabilities leaves the data as it is.
  unfoldable pub get_vscp_capabilities : List ℕ → List ℕ
  get_vscp_capabilities caps = caps

  unfoldable pub capabilities : VscpEventEx → VscpEventEx
  unfolding addressed write_at write_address name_bytes get_vscp_capabilities
  capabilities ex =
      let with_guid = write_at std.offset_guid server.guid (replicate 512 0) in
      let with_ip = write_address std server.ip_address with_guid in
      record (addressed 4 std.class2_protocol std.high_end_server_caps ex) {
        bytes_of =
            get_vscp_capabilities (write_at std.offset_srv_name (name_bytes server.name) with_ip);
        size_data = 104;
      }

  -- One event is filled in and sent after the other. What sending returns is only logged.
  unfoldable pub periodic_events : VscpEventEx → List VscpEventEx × Bool
  unfolding class1_heartbeat class2_heartbeat segment_heartbeat capabilities send_event
  periodic_events ex =
      let a = class1_heartbeat ex in
      let b = class2_heartbeat a in
      let c = segment_heartbeat b in
      let d = capabilities c in
      let sent = λ (e : VscpEventEx). (send_event server (some e)).0 in
      (sent a ++ (sent b ++ (sent c ++ sent d)), true)
