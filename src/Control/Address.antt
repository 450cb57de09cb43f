-- ===== src/Control/Address.antt =====
-- src/controlobject.cpp: the addresses of the host as a GUID, getMacAddress (on Linux) and
-- getIPAddress. What the operating system answers, and the class cguid, are arguments.
use vscp_mqtt_daemon.Prelude.{
  ℕ, suc, ◌/◌, ◌%◌, ◌^◌, Bool, true, false, List, [], ◌∷◌, Option, none, some, set, ltb,
  if◌then◌else◌,
}

-- `clear`, `setAt` and `getAt` of a cguid.
pub record GuidClass : Type 1 where
  pub G : Type 0
  pub clear : G
  pub set_at : ℕ → ℕ → G → G
  pub get_at : ℕ → G → ℕ

module _ (C : GuidClass) where
  -- Calls of setAt for consecutive positions from `i` on.
  unfoldable pub set_from : ℕ → List ℕ → C.G → C.G
  set_from i [] g = g
  set_from i (b ∷ bs) g = set_from (suc i) bs (C.set_at i b g)

  -- Whether a socket can be opened, and the bytes of the hardware address of eth0, if the system
  -- tells it. The result and the GUID.
  unfoldable pub get_mac_address : Bool → Option (ℕ → ℕ) → Bool × C.G
  unfolding set_from
  get_mac_address false mac = (false, C.clear)
  get_mac_address true none = (false, C.clear)
  get_mac_address true (some mac) = (
    true,
    set_from 0
        (0xff
          ∷ 0xff
          ∷ 0xff
          ∷ 0xff
          ∷ 0xff
          ∷ 0xff
          ∷ 0xff
          ∷ 0xfe
          ∷ mac 0
          ∷ mac 1
          ∷ mac 2
          ∷ mac 3
          ∷ mac 4
          ∷ mac 5
          ∷ 0
          ∷ 0
          ∷ [])
        C.clear,
  )

-- The loop over `h_addr_list`: the array `localaddr`, and the positions that were written, the
-- first one first. `idx` is the position of the next round.
unfoldable pub read_addresses : ℕ → List ℕ → List ℕ → List ℕ × List ℕ
read_addresses idx [] localaddr = (set localaddr idx 0, idx ∷ [])
read_addresses idx (a ∷ as') localaddr =
    let written = set (set localaddr idx 0) idx a in
    let (rest, places) = read_addresses (suc idx) as' written in
    if ltb idx 16 then (rest, idx ∷ places) else (written, idx ∷ [])

-- `localaddr[0]`
abbrev pub first_or_zero : List ℕ → ℕ
first_or_zero [] = 0
first_or_zero (a ∷ as') = a

module _ (C : GuidClass) where
  -- `none` if the host's own name has no entry; `stack` is the array before the loop.
  unfoldable pub get_ip_address : List ℕ → Option (List ℕ) → Bool × C.G
  unfolding set_from read_addresses
  get_ip_address stack host =
      let prefix : C.G =
        set_from C 0 (0xff ∷ 0xff ∷ 0xff ∷ 0xff ∷ 0xff ∷ 0xff ∷ 0xff ∷ 0xfd ∷ []) C.clear in
      elim host [
        | none ↦ (false, prefix)
        | some addresses ↦
            let a = first_or_zero (read_addresses 0 addresses stack).0 in
            (
              true,
              set_from C 8
                  (a / 2 ^ 24 % 256
                    ∷ a / 2 ^ 16 % 256
                    ∷ a / 2 ^ 8 % 256
                    ∷ a % 256
                    ∷ 0
                    ∷ 0
                    ∷ 0
                    ∷ 0
                    ∷ [])
                  prefix,
            )
      ]
