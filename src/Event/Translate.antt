-- ===== src/Event/Translate.antt =====
-- src/devicethread.cpp: how a CANAL message becomes the event that is sent to the broker, in the
-- blocking and in the non-blocking loop of a Level I driver.
use Prim.Native.Nat.{bit_and, bit_or}
use vscp_mqtt_daemon.Prelude.{
  ℕ, ◌+◌, ◌-◌, ◌%◌, Bool, not, Option, none, some, ◌++◌, take, set, replicate, ◌==◌, if◌then◌else◌,
}
use vscp_mqtt_daemon.Device.{DeviceItem, out_tr_m1_m2f, out_tr_m1_m2s, out_tr_all_l2}
use vscp_mqtt_daemon.Event.{VscpEvent, CanalMsg, Vscp, zero_event}

-- `translation & bit` as a condition.
abbrev pub has_bit : ℕ → ℕ → Bool
has_bit translation bit = not (bit_and translation bit == 0)

-- A Level I event as a Level I over Level II event: 16 zero bytes in front of the data.
unfoldable pub level1_over_level2 : VscpEvent → VscpEvent
level1_over_level2 ev = record ev {
  vscp_class = (ev.vscp_class + 512) % 65536;
  size_data = (ev.size_data + 16) % 65536;
  bytes_at = replicate 16 0 ++ take ev.size_data ev.bytes_at;
}

-- A translation that is carried out if its bit is set.
unfoldable pub when_bit : ℕ → ℕ → (VscpEvent → VscpEvent) → VscpEvent → VscpEvent
when_bit translation bit change ev = if has_bit translation bit then change ev else ev

-- The three outgoing translations, in the order of the source.
unfoldable pub translate : Vscp → ℕ → VscpEvent → VscpEvent
translate v tr ev = when_bit tr out_tr_all_l2 level1_over_level2 (
    when_bit tr out_tr_m1_m2s v.measurement_to_string
      (when_bit tr out_tr_m1_m2f v.measurement_to_double ev))

-- The blocking loop: the GUID is written first, and the nickname's high byte is cleared.
unfoldable pub outgoing_blocking : Vscp → DeviceItem → CanalMsg → Option VscpEvent
outgoing_blocking v d msg =
    elim (v.convert_canal_to_event (record zero_event { guid = d.guid }) msg d.guid) [
      | none ↦ none
      | some ev ↦ some (translate v d.translation (record ev { obid = 0; guid = set ev.guid 14 0 }))
    ]

-- `(head & ~VSCP_HEADER16_FRAME_VERSION_MASK) | VSCP_HEADER16_FRAME_VERSION_UNIX_NS` on 16 bits.
abbrev pub set_frame_version : Vscp → ℕ → ℕ
set_frame_version v head =
    bit_or (bit_and head (65535 - v.frame_version_mask)) v.frame_version_unix_ns

-- The non-blocking loop: the frame version is set first, and the GUID is left as it is.
unfoldable pub outgoing_non_blocking : Vscp → DeviceItem → CanalMsg → Option VscpEvent
outgoing_non_blocking v d msg =
    elim (v.convert_canal_to_event (record zero_event { head = set_frame_version v 0 }) msg
      d.guid) [ none ↦ none | some ev ↦ some (translate v d.translation (record ev { obid = 0 })) ]
