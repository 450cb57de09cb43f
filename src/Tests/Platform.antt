-- ===== src/Tests/Platform.antt =====
-- The theorems on what is compiled for Windows and for macOS only.
use vscp_mqtt_daemon.Prelude.{
  ℕ, ◌+◌, ◌*◌, ◌/◌, ◌%◌, ◌^◌, ◌≤◌, ◌<◌, true, false, List, [], ◌∷◌, ◌++◌, none, some, map, drop, ℤ,
  pos, negsuc, negated, ◌≡◌, ◌≢◌, refl, arith,
}
use vscp_mqtt_daemon.Control.Address.{get_mac_address}
use vscp_mqtt_daemon.Control.HostGuid.{mac_bytes}
use vscp_mqtt_daemon.Control.Run.{main_loop}
use vscp_mqtt_daemon.Platform.Clock.{
  System, Clock, new_clock, Host, Round, elapsed, clock_gettime, tick,
}
use vscp_mqtt_daemon.Platform.Silence.{IsSeconds, clock_gettime_lem, heartbeats_end}
use vscp_mqtt_daemon.Platform.Mac.{
  Adapter, SockAddr, get_mac_address_windows, choose_guid_windows, get_mac_address_macos,
}
use vscp_mqtt_daemon.Platform.HostMac.{
  hardware_address, hex_text, get_mac_address_macos-get_mac_address, get_mac_address_windows_lem,
}
use vscp_mqtt_daemon.Control.Init.{choose_guid}
use vscp_mqtt_daemon.Tests.Boot.{guid_text, network}
use vscp_mqtt_daemon.Tests.Server.{guid_class}

abbrev microseconds : ℤ → ℕ → ℤ
microseconds (pos n) f = pos (n * 1000000 / f)
microseconds (negsuc n) f = negated ((n + 1) * 1000000 / f)

-- Exact quotients.
abbrev host : Host
host = record { epoch = record { high = 27111902; low = 3577643008 }; microseconds = microseconds }

-- A counter of 10 MHz that was read as 5 before, at some seconds.
abbrev at : ℕ → System
at seconds = record {
  frequency = some 10000000;
  counter_before = 5;
  counter = seconds * 10000000 + 5;
  system_time = record { high = 0; low = 0 };
}

abbrev ready : Clock
ready = record { initialized = true; use_counter = true; offset = 5; frequency = 10000000 }

clock_gettime_lem_example :
    let (tv, again) = clock_gettime host (at 2148) new_clock in
    (2148000000 < 2 ^ 31 → tv.tv_sec ≡ pos (2148000000 / 1000000))
    × (tv.tv_usec ≡ pos (2148000000 % 1000000))
    × IsSeconds tv.tv_sec
    × (2148000000 ≤ 2148000000 → tv.tv_sec ≢ pos (2148000000 / 1000000))
    × ((clock_gettime host (at 2149) again).1 ≡ again)
unfolding clock_gettime elapsed
clock_gettime_lem_example = clock_gettime_lem host (at 2148) (at 2149) new_clock 2148000000 refl

abbrev round_at : ℕ → Round
round_at seconds = record { quit = false; now = at seconds; again = at seconds }

abbrev rounds : List Round
rounds = round_at 1 ∷ round_at 2100 ∷ []

abbrev later_rounds : List Round
later_rounds = round_at 2200 ∷ round_at 4000 ∷ round_at 100000 ∷ []

-- The heartbeats at the seconds 1 and 2100 are the only ones.
heartbeats_end_example :
    (main_loop (map (tick host ready) (rounds ++ (round_at 2147 ∷ later_rounds))) 2147).beats
    ≡ (main_loop
        (map (tick host ready) rounds ++ (tick host ready (round_at 2147) ∷ []))
        2147).beats
unfolding tick clock_gettime
heartbeats_end_example =
    heartbeats_end host ready rounds later_rounds (round_at 2147) 2147 refl refl (omega arith)

seconds_of_beats :
    map (λ t. t.now) (main_loop (map (tick host ready) (rounds ++ later_rounds)) 2147).beats
    ≡ 2148 ∷ 4247 ∷ []
unfolding tick clock_gettime main_loop
seconds_of_beats = refl

abbrev card : SockAddr
card = record { is_link = true; alen = 6; lladdr = λ i. 16 + i }

abbrev loopback : SockAddr
loopback = record { is_link = true; alen = 6; lladdr = λ i. 0 }

get_mac_address_macos-get_mac_address_example :
    let found = hardware_address (some loopback ∷ some card ∷ []) in
    (get_mac_address_macos guid_class (some (some loopback ∷ some card ∷ []))
      ≡ some (get_mac_address guid_class true found))
    × (get_mac_address_macos guid_class (some (some loopback ∷ some card ∷ none ∷ []))
        ≡ elim found [ none ↦ none | some m ↦ some (get_mac_address guid_class true (some m)) ])
    × (get_mac_address_macos guid_class none ≡ some (get_mac_address guid_class false found))
get_mac_address_macos-get_mac_address_example =
    get_mac_address_macos-get_mac_address guid_class (some loopback ∷ some card ∷ []) [] refl

abbrev adapter : Adapter
adapter = record {
  reset_result = 0;
  reset_code = 0;
  status_result = 0;
  status_code = 0;
  adapter_address = λ i. 16 + i;
}

get_mac_address_windows_lem_example :
    let (result, left, text) = get_mac_address_windows guid_class adapter guid_class.clear in
    (result ≡ false)
    × (left ≡ guid_class.clear)
    × (text ≡ some (hex_text 0xff (drop 1 (mac_bytes adapter.adapter_address))))
    × (choose_guid_windows guid_class guid_text network adapter guid_class.clear
        ≡ choose_guid guid_class guid_text
            (record network { hardware_address = none })
            guid_class.clear)
get_mac_address_windows_lem_example =
    get_mac_address_windows_lem guid_class guid_text network adapter guid_class.clear
