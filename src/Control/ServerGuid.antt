-- ===== src/Control/ServerGuid.antt =====
-- Which GUID `init` gives the daemon.
use vscp_mqtt_daemon.Prelude.{
  ℕ, ◌/◌, ◌^◌, ◌%◌, ◌∙◌, ◌<◌, Bool, true, false, ◌&&◌, List, [], ◌∷◌, Option, none, some, is_some,
  ◌==◌, ◌≡◌, refl, arith, if◌then◌else◌, length, zero, suc,
}
use vscp_mqtt_daemon.Control.Address.{
  GuidClass, first_or_zero, read_addresses, set_from, get_mac_address, get_ip_address,
}
use vscp_mqtt_daemon.Control.HostGuid.{
  IsGuidClass, byte_at, mac_bytes, get_mac_address_lem, set_from-get_at,
}
use vscp_mqtt_daemon.Control.Init.{GuidText, Network, choose_guid}

module _ (C : GuidClass) (law : IsGuidClass C) where
  mac_prefix :
      (m : ℕ → ℕ) (i : ℕ) → i < 8 → byte_at i (mac_bytes m) ≡ (if i == 7 then 0xfe else 0xff)
  mac_prefix m zero h = refl
  mac_prefix m (suc zero) h = refl
  mac_prefix m (suc (suc zero)) h = refl
  mac_prefix m (suc (suc (suc zero))) h = refl
  mac_prefix m (suc (suc (suc (suc zero)))) h = refl
  mac_prefix m (suc (suc (suc (suc (suc zero))))) h = refl
  mac_prefix m (suc (suc (suc (suc (suc (suc zero)))))) h = refl
  mac_prefix m (suc (suc (suc (suc (suc (suc (suc zero))))))) h = refl
  mac_prefix m (suc (suc (suc (suc (suc (suc (suc (suc i)))))))) h = omega arith

  mac_lem :
      (socket : Bool) (mac : Option (ℕ → ℕ)) (i : ℕ)
      → i < 8
      → (socket && is_some mac) ≡ true
      → C.get_at i (get_mac_address C socket mac).1 ≡ (if i == 7 then 0xfe else 0xff)
  mac_lem false mac i h e = ground arith
  mac_lem true none i h e = ground arith
  mac_lem true (some m) i h e =
      ground (arith, get_mac_address_lem C law true (some m) i (omega arith), mac_prefix m i h)

  abbrev ip_prefix : List ℕ
  ip_prefix = 0xff ∷ 0xff ∷ 0xff ∷ 0xff ∷ 0xff ∷ 0xff ∷ 0xff ∷ 0xfd ∷ []

  ip_prefix_bytes : (i : ℕ) → i < 8 → byte_at i ip_prefix % 256 ≡ (if i == 7 then 0xfd else 0xff)
  ip_prefix_bytes zero h = refl
  ip_prefix_bytes (suc zero) h = refl
  ip_prefix_bytes (suc (suc zero)) h = refl
  ip_prefix_bytes (suc (suc (suc zero))) h = refl
  ip_prefix_bytes (suc (suc (suc (suc zero)))) h = refl
  ip_prefix_bytes (suc (suc (suc (suc (suc zero))))) h = refl
  ip_prefix_bytes (suc (suc (suc (suc (suc (suc zero)))))) h = refl
  ip_prefix_bytes (suc (suc (suc (suc (suc (suc (suc zero))))))) h = refl
  ip_prefix_bytes (suc (suc (suc (suc (suc (suc (suc (suc i)))))))) h = omega arith

  prefix_set :
      (i : ℕ)
      → i < 8
      → C.get_at i (set_from C 0 ip_prefix C.clear) ≡ (if i == 7 then 0xfd else 0xff)
  prefix_set i h = ground (
    arith,
    set_from-get_at C law i 0 ip_prefix C.clear (omega arith) (omega arith),
    ip_prefix_bytes i h,
  )

  -- Bytes that are set from the ninth on leave those in front.
  set_behind :
      (bs : List ℕ) (g : C.G) (i : ℕ)
      → length bs ≡ 8
      → i < 8
      → C.get_at i (set_from C 8 bs g) ≡ C.get_at i g
  set_behind bs g i e h = ground (arith, set_from-get_at C law i 8 bs g (omega arith) (omega arith))

  ip_lem :
      (stack : List ℕ) (host : Option (List ℕ)) (i : ℕ)
      → i < 8
      → C.get_at i (get_ip_address C stack host).1 ≡ (if i == 7 then 0xfd else 0xff)
  unfolding get_ip_address
  ip_lem stack none i h = prefix_set i h
  ip_lem stack (some addresses) i h =
      let a = first_or_zero (read_addresses 0 addresses stack).0 in
      set_behind
        (a / 2 ^ 24 % 256 ∷ a / 2 ^ 16 % 256 ∷ a / 2 ^ 8 % 256 ∷ a % 256 ∷ 0 ∷ 0 ∷ 0 ∷ 0 ∷ [])
        (set_from C 0 ip_prefix C.clear) i refl h
      ∙ prefix_set i h

  -- The daemon keeps the GUID of its configuration, unless that is null. Then its GUID begins with
  -- seven bytes 0xff, and the eighth tells where the rest is from: 0xfe if the hardware address is
  -- known, and 0xfd, for the address of the host, if it is not, whether the host has one or not.
  pub choose_guid_lem :
      (t : GuidText C) (n : Network) (g : C.G) (i : ℕ)
      → i < 8
      → C.get_at i (choose_guid C t n g) ≡ (
          if t.is_null g
          then (if i == 7
              then (if n.socket_opens && is_some n.hardware_address then 0xfe else 0xfd)
              else 0xff)
          else C.get_at i g)
  unfolding choose_guid
  choose_guid_lem t n g i h = ground (
    arith,
    (get_mac_address_lem C law n.socket_opens n.hardware_address i (omega arith)).0,
    mac_lem n.socket_opens n.hardware_address i h,
    ip_lem n.stack n.addresses i h,
  )
