-- ===== src/Platform/HostMac.antt =====
-- What getMacAddress does on the other platforms, against what it does on Linux.
use vscp_mqtt_daemon.Prelude.{
  ℕ, Bool, true, false, not, ◌&&◌, List, [], ◌∷◌, ◌++◌, Option, none, some, Text, all, is_some,
  drop, ◌==◌, ◌≡◌, refl, arith, if◌then◌else◌,
}
use vscp_mqtt_daemon.Control.Address.{GuidClass, get_mac_address}
use vscp_mqtt_daemon.Control.HostGuid.{mac_bytes}
use vscp_mqtt_daemon.Control.Init.{GuidText, Network, choose_guid}
use vscp_mqtt_daemon.Platform.Mac.{
  choose_guid_windows, Adapter, hex2, colon, get_adapter_info, SockAddr, all_zero,
  get_mac_address_windows, search_interfaces, get_mac_address_macos,
}

-- An address of a network card: of the link layer, six bytes long, and not all zero.
unfoldable pub is_hardware : SockAddr → Bool
is_hardware a = (a.is_link && (a.alen == 6)) && not (all_zero a.lladdr)

-- The first of them.
unfoldable pub hardware_address : List (Option SockAddr) → Option (ℕ → ℕ)
unfolding is_hardware
hardware_address [] = none
hardware_address (none ∷ rest) = hardware_address rest
hardware_address (some a ∷ rest) = if is_hardware a then some a.lladdr else hardware_address rest

-- Bytes in hexadecimal, separated by colons.
abbrev pub hex_text : ℕ → List ℕ → Text
hex_text b [] = hex2 b
hex_text b (c ∷ bs) = hex2 b ++ (colon ++ hex_text c bs)

module _ (C : GuidClass) where
  search_interfaces_lem :
      (interfaces : List (Option SockAddr))
      → all is_some interfaces ≡ true
      → search_interfaces C interfaces C.clear
        ≡ some (get_mac_address C true (hardware_address interfaces))
  unfolding search_interfaces hardware_address is_hardware get_mac_address
  search_interfaces_lem [] h = refl
  search_interfaces_lem (none ∷ rest) h = ground arith
  search_interfaces_lem (some a ∷ rest) h = ground (arith, search_interfaces_lem rest)

  -- The loop comes to an interface without an address exactly if none in front of it is a network
  -- card's.
  search_interfaces-null :
      (before after : List (Option SockAddr))
      → all is_some before ≡ true
      → search_interfaces C (before ++ (none ∷ after)) C.clear ≡ elim (hardware_address before) [
        | none ↦ none
        | some m ↦ some (get_mac_address C true (some m))
      ]
  unfolding search_interfaces hardware_address is_hardware get_mac_address
  search_interfaces-null [] after h = refl
  search_interfaces-null (none ∷ before) after h = ground arith
  search_interfaces-null (some a ∷ before) after h =
      ground (arith, search_interfaces-null before after)

  -- On macOS, if every interface has an address, getMacAddress gives the result and the GUID that it
  -- gives on Linux for a host that can open a socket and whose hardware address is that of the first
  -- network card. If an interface has none, it gives those of the interfaces in front of it if there
  -- is a network card among them, and otherwise reads through a null pointer. If getifaddrs fails,
  -- it does what it does on Linux without a socket.
  pub get_mac_address_macos-get_mac_address :
      (before after : List (Option SockAddr))
      → all is_some before ≡ true
      → let linux = λ (m : Option (ℕ → ℕ)). some (get_mac_address C true m) in
        (get_mac_address_macos C (some before) ≡ linux (hardware_address before))
        × (get_mac_address_macos C (some (before ++ (none ∷ after)))
            ≡ elim (hardware_address before) [ none ↦ none | some m ↦ linux (some m) ])
        × (get_mac_address_macos C none ≡ some (get_mac_address C false (hardware_address before)))
  unfolding get_mac_address_macos get_mac_address
  get_mac_address_macos-get_mac_address before after h =
      (search_interfaces_lem before h, search_interfaces-null before after h, refl)

  -- On Windows, getMacAddress fails and leaves the GUID as it was, whatever NetBIOS answers: also if
  -- it has got the address, and the text at its end is that of the very GUID that the function makes
  -- of this address on Linux. So `init` always gives the daemon the GUID that it gives it on a Linux
  -- host whose hardware address is not known.
  pub get_mac_address_windows_lem :
      (t : GuidText C) (n : Network) (a : Adapter) (guid : C.G)
      → let (result, left, text) = get_mac_address_windows C a guid in
        (result ≡ false)
        × (left ≡ guid)
        × (text ≡ (
            if a.reset_result == 0 && (a.status_result == 0)
            then some (hex_text 0xff (drop 1 (mac_bytes a.adapter_address)))
            else none))
        × (choose_guid_windows C t n a guid
            ≡ choose_guid C t (record n { hardware_address = none }) guid)
  unfolding get_mac_address_windows get_adapter_info choose_guid_windows choose_guid get_mac_address
  get_mac_address_windows_lem t n a guid = ground arith
