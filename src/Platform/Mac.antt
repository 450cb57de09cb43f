-- ===== src/Platform/Mac.antt =====
-- src/controlobject.cpp: GetAdapterInfo for Windows, and getMacAddress for Windows and for macOS.
-- What NetBIOS and getifaddrs answer, and the class cguid, are arguments.
use vscp_mqtt_daemon.Prelude.{
  ℕ, ◌+◌, ◌/◌, ◌%◌, Bool, true, false, ◌&&◌, List, [], ◌∷◌, ◌++◌, Option, none, some, Text, bytes,
  ltb, ◌==◌, if◌then◌else◌,
}
use vscp_mqtt_daemon.Control.Heartbeat.{c_str}
use vscp_mqtt_daemon.Control.Address.{GuidClass, set_from, get_ip_address}
use vscp_mqtt_daemon.Control.Init.{GuidText, Network}

-- The answers to NCBRESET and to NCBASTAT: what `Netbios` returns, the code in the control block, and
-- the address of the adapter.
pub record Adapter : Type 0 where
  pub reset_result : ℕ
  pub reset_code : ℕ
  pub status_result : ℕ
  pub status_code : ℕ
  pub adapter_address : ℕ → ℕ

-- `%02X` of an `unsigned char`.
abbrev digit : ℕ → ℕ
digit d = if ltb d 10 then 48 + d else 55 + d

abbrev pub hex2 : ℕ → Text
hex2 b = digit (b / 16 % 16) ∷ digit (b % 16) ∷ []

abbrev pub colon : Text
colon = bytes ":"

-- The result, and the text `sMAC`. `ncb_retcode` is an unsigned char: the stream writes it as a
-- character, not as a number.
unfoldable pub get_adapter_info : Adapter → Bool × Text
unfolding c_str
get_adapter_info a =
    if a.reset_result == 0
    then (if a.status_result == 0
        then (
          true,
          hex2 (a.adapter_address 0)
              ++ (colon
                  ++ (hex2 (a.adapter_address 1)
                      ++ (colon
                          ++ (hex2 (a.adapter_address 2)
                              ++ (colon
                                  ++ (hex2 (a.adapter_address 3)
                                      ++ (colon
                                          ++ (hex2 (a.adapter_address 4)
                                              ++ (colon ++ hex2 (a.adapter_address 5)))))))))),
        )
        else (false, c_str (bytes "error " ++ (a.status_code ∷ bytes " on ASTAT"))))
    else (false, c_str (bytes "error " ++ (a.reset_code ∷ bytes " on reset")))

-- Whether `AF_LINK` is the family of an address, its length, and its bytes.
pub record SockAddr : Type 0 where
  pub is_link : Bool
  pub alen : ℕ
  pub lladdr : ℕ → ℕ

unfoldable pub all_zero : (ℕ → ℕ) → Bool
all_zero mac =
    mac 0 == 0 && (mac 1 == 0 && (mac 2 == 0 && (mac 3 == 0 && (mac 4 == 0 && mac 5 == 0))))

module _ (C : GuidClass) where
  -- What the function returns, the GUID, and the text `strMac` at the end, if it got that far.
  unfoldable pub get_mac_address_windows : Adapter → C.G → Bool × C.G × Option Text
  unfolding get_adapter_info
  get_mac_address_windows a guid =
      let rv = false in
      let (found, mac) = get_adapter_info a in
      if found
      then (rv, guid, some (bytes "FF:FF:FF:FF:FF:FF:FF:FE:" ++ (mac ++ bytes ":00:00")))
      else (false, guid, none)

  -- The choice of the GUID in `init`, with this function.
  unfoldable pub choose_guid_windows : GuidText C → Network → Adapter → C.G → C.G
  unfolding get_mac_address_windows get_ip_address
  choose_guid_windows t n a g =
      let (found, mac, text) = get_mac_address_windows a g in
      if t.is_null g then if found then mac else (get_ip_address C n.stack n.addresses).1 else g

  -- The loop over the interfaces, each with its `ifa_addr`, which may be null; `none` if it reads
  -- through a null pointer.
  unfoldable pub search_interfaces : List (Option SockAddr) → C.G → Option (Bool × C.G)
  unfolding all_zero set_from
  search_interfaces [] guid = some (false, guid)
  search_interfaces (none ∷ rest) guid = none
  search_interfaces (some a ∷ rest) guid =
      let later = search_interfaces rest guid in
      if a.is_link && (a.alen == 6)
      then (if all_zero a.lladdr
          then later
          else some (
            true,
            set_from C 0
                (0xff
                  ∷ 0xff
                  ∷ 0xff
                  ∷ 0xff
                  ∷ 0xff
                  ∷ 0xff
                  ∷ 0xff
                  ∷ 0xfe
                  ∷ a.lladdr 0
                  ∷ a.lladdr 1
                  ∷ a.lladdr 2
                  ∷ a.lladdr 3
                  ∷ a.lladdr 4
                  ∷ a.lladdr 5
                  ∷ 0
                  ∷ 0
                  ∷ [])
                guid,
          ))
      else later

  -- `none` as the list stands for a getifaddrs that fails.
  unfoldable pub get_mac_address_macos : Option (List (Option SockAddr)) → Option (Bool × C.G)
  unfolding search_interfaces
  get_mac_address_macos none = some (false, C.clear)
  get_mac_address_macos (some interfaces) = search_interfaces interfaces C.clear
