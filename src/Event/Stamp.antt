-- ===== src/Event/Stamp.antt =====
-- src/devicethread.cpp: the time stamp of an event that a Level II driver delivers.
use Prim.Native.Nat.{bit_and}
use vscp_mqtt_daemon.Prelude.{
  ℕ, zero, suc, ◌<◌, ◌^◌, Bool, ◌&&◌, ◌==◌, ltb, leb, ◌≡◌, arith, ℤ, pos, negsuc, if◌then◌else◌,
}
use vscp_mqtt_daemon.Prelude.Bits.{bit_and-write_field}
use vscp_mqtt_daemon.Event.{VscpEvent, Vscp}
use vscp_mqtt_daemon.Event.Translate.{set_frame_version}

-- The datetime block is filled in and within its ranges.
unfoldable pub has_date_time : VscpEvent → Bool
has_date_time ev =
    ltb 0 ev.year
    && (ltb ev.year 0xffff
        && (leb 1 ev.month
            && (leb ev.month 12
                && (leb 1 ev.day
                    && (leb ev.day 31
                        && (leb ev.hour 23 && (leb ev.minute 59 && leb ev.second 59)))))))

-- `(ns > 0) ? (uint64_t) ns : vscp_makeTimeStampNs()`
abbrev pub positive_or : ℤ → ℕ → ℕ
positive_or (pos zero) now = now
positive_or (pos (suc n)) now = suc n
positive_or (negsuc n) now = now

abbrev pub frame_version : Vscp → VscpEvent → ℕ
frame_version v ev = bit_and ev.head v.frame_version_mask

-- `now` is what vscp_makeTimeStampNs returns.
unfoldable pub stamp : Vscp → ℕ → VscpEvent → VscpEvent
unfolding has_date_time
stamp v now ev =
    let ns : ℤ =
      if has_date_time ev
      then v.to_unix_ns ev.year ev.month ev.day ev.hour ev.minute ev.second ev.timestamp
      else negsuc 0 in
    if frame_version v ev == v.frame_version_unix_ns
    then if ev.timestamp_ns == 0 then record ev { timestamp_ns = now } else ev
    else record ev {
      head = set_frame_version v ev.head;
      year = 0xffff;
      month = 0xff;
      timestamp_ns = positive_or ns now;
    }

-- The constants of vscp.h: the value lies under the mask, and the mask in a 16-bit word.
pub record IsFrame (v : Vscp) : Type 0 where
  pub mask_fits : v.frame_version_mask < 2 ^ 16
  pub value_fits : bit_and v.frame_version_unix_ns v.frame_version_mask ≡ v.frame_version_unix_ns

abbrev pub IsStamped : Vscp → VscpEvent → Type 0
IsStamped v ev = (frame_version v ev ≡ v.frame_version_unix_ns) × (0 < ev.timestamp_ns)

positive_or-pos : (z : ℤ) (now : ℕ) → 0 < now → 0 < positive_or z now
positive_or-pos (pos zero) now h = h
positive_or-pos (pos (suc n)) now h = omega arith
positive_or-pos (negsuc n) now h = h

module _ (v : Vscp) (frame : IsFrame v) where
  -- Every event that the loop sends has the new frame version and a time stamp, whatever the
  -- driver delivered, if the clock is past the epoch.
  pub stamp-IsStamped : (now : ℕ) (ev : VscpEvent) → 0 < now → IsStamped v (stamp v now ev)
  unfolding stamp
  stamp-IsStamped now ev h = ground (
    arith,
    bit_and-write_field 16 ev.head v.frame_version_mask v.frame_version_unix_ns frame.mask_fits
        frame.value_fits,
    positive_or-pos (v.to_unix_ns ev.year ev.month ev.day ev.hour ev.minute ev.second ev.timestamp)
        now h,
  )

  -- An event that has both is sent as it is, so that passing through a second daemon changes
  -- nothing.
  pub stamp-eq_self : (now : ℕ) (ev : VscpEvent) → IsStamped v ev → stamp v now ev ≡ ev
  unfolding stamp
  stamp-eq_self now ev (framed, timed) = ground arith

  -- Stamping an event once more, at any later time, changes nothing, if the clock was past the
  -- epoch the first time.
  pub stamp_idem :
      (now later : ℕ) (ev : VscpEvent) → 0 < now → stamp v later (stamp v now ev) ≡ stamp v now ev
  stamp_idem now later ev h = stamp-eq_self later (stamp v now ev) (stamp-IsStamped now ev h)
