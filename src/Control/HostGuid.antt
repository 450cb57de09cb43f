-- ===== src/Control/HostGuid.antt =====
-- Which GUID the functions of Control.Address give a host, and whether their array is long enough.
use vscp_mqtt_daemon.Prelude.{
  ℕ, zero, suc, ◌+◌, ◌-◌, ◌*◌, ◌/◌, ◌%◌, ◌≤◌, ◌<◌, Bool, true, false, ◌&&◌, List, [], ◌∷◌, Option,
  none, some, set, length, ltb, leb, is_some, if_cases, ◌==◌, ◌≡◌, refl, arith, if◌then◌else◌, ◌∙◌,
  all,
}
use vscp_mqtt_daemon.Control.Address.{
  GuidClass, set_from, get_mac_address, read_addresses, first_or_zero, get_ip_address,
}

read_addresses-writes :
    (idx : ℕ) (addresses stack : List ℕ)
    → idx ≤ 16
    → all (λ i. ltb i 16) (read_addresses idx addresses stack).1 ≡ ltb (idx + length addresses) 16
unfolding read_addresses
read_addresses-writes idx [] stack h = ground arith
read_addresses-writes idx (a ∷ as') stack h =
    ground (arith, read_addresses-writes (suc idx) as' (set (set stack idx 0) idx a))

-- Every write of the loop stays inside the array of 16 if and only if the host has fewer than 16
-- addresses.
pub read_addresses-bound :
    (addresses stack : List ℕ)
    → all (λ i. ltb i 16) (read_addresses 0 addresses stack).1 ≡ ltb (length addresses) 16
read_addresses-bound addresses stack = ground (arith, read_addresses-writes 0 addresses stack)

-- What is relied on of the class cguid: `setAt` writes one of the 16 bytes and leaves the others.
pub record IsGuidClass (C : GuidClass) : Type 0 where
  pub set_law :
      (i j b : ℕ) (g : C.G)
      → i < 16
      → j < 16
      → C.get_at i (C.set_at j b g) ≡ (if i == j then b % 256 else C.get_at i g)

-- The entry of a list, 0 behind its end.
abbrev pub byte_at : ℕ → List ℕ → ℕ
byte_at i [] = 0
byte_at zero (b ∷ bs) = b
byte_at (suc i) (b ∷ bs) = byte_at i bs

byte_at-suc : (n k b : ℕ) (bs : List ℕ) → n ≡ suc k → byte_at n (b ∷ bs) ≡ byte_at k bs
byte_at-suc n k b bs e = rw e refl

byte_at-zero : (n b : ℕ) (bs : List ℕ) → n ≡ 0 → byte_at n (b ∷ bs) ≡ b
byte_at-zero n b bs e = rw e refl

byte_at_small :
    (i : ℕ) (bs : List ℕ) → all (λ b. ltb b 256) bs ≡ true → byte_at i bs % 256 ≡ byte_at i bs
byte_at_small i [] h = refl
byte_at_small zero (b ∷ bs) h = ground arith
byte_at_small (suc i) (b ∷ bs) h = ground (arith, byte_at_small i bs)

-- The octets of a word, the most significant one first, in the GUID of getIPAddress.
abbrev pub address_bytes : ℕ → List ℕ
address_bytes w =
    0xff
    ∷ 0xff
    ∷ 0xff
    ∷ 0xff
    ∷ 0xff
    ∷ 0xff
    ∷ 0xff
    ∷ 0xfd
    ∷ w / 16777216 % 256
    ∷ w / 65536 % 256
    ∷ w / 256 % 256
    ∷ w % 256
    ∷ 0
    ∷ 0
    ∷ 0
    ∷ 0
    ∷ []

-- The prefix of VSCP's ethernet GUIDs, and a hardware address.
abbrev pub mac_bytes : (ℕ → ℕ) → List ℕ
mac_bytes m =
    0xff
    ∷ 0xff
    ∷ 0xff
    ∷ 0xff
    ∷ 0xff
    ∷ 0xff
    ∷ 0xff
    ∷ 0xfe
    ∷ m 0
    ∷ m 1
    ∷ m 2
    ∷ m 3
    ∷ m 4
    ∷ m 5
    ∷ 0
    ∷ 0
    ∷ []

address_bytes_small : (w : ℕ) → all (λ b. ltb b 256) (address_bytes w) ≡ true
address_bytes_small w = ground arith

module _ (C : GuidClass) (law : IsGuidClass C) where
  pub set_from-get_at :
      (i j : ℕ) (bs : List ℕ) (g : C.G)
      → i < 16
      → j + length bs ≤ 16
      → C.get_at i (set_from C j bs g)
        ≡ (if leb j i && ltb i (j + length bs) then byte_at (i - j) bs % 256 else C.get_at i g)
  unfolding set_from
  set_from-get_at i j [] g hi hj = ground arith
  set_from-get_at i j (b ∷ bs) g hi hj = ground (
    arith,
    set_from-get_at i (suc j) bs (C.set_at j b g),
    law.set_law i j b g,
    byte_at-suc (i - j) (i - suc j) b bs,
    byte_at-zero (i - j) b bs,
  )

  -- The bytes of a GUID that is set from its first byte on.
  set_from-all :
      (bs : List ℕ) (g : C.G) (i : ℕ)
      → length bs ≡ 16
      → i < 16
      → C.get_at i (set_from C 0 bs g) ≡ byte_at i bs % 256
  set_from-all bs g i h hi = ground (arith, set_from-get_at i 0 bs g)

  -- The GUID made of a hardware address has the prefix of VSCP's ethernet GUIDs, the six bytes of
  -- the address, and two zero bytes. Without a socket, or if the system does not tell the address,
  -- the result is false and the GUID is left cleared.
  pub get_mac_address_lem :
      (socket : Bool) (mac : Option (ℕ → ℕ)) (i : ℕ)
      → i < 16
      → let (result, g) = get_mac_address C socket mac in
        (result ≡ (socket && is_some mac))
        × (C.get_at i g ≡ (
            if socket
            then elim mac [ none ↦ C.get_at i C.clear | some m ↦ byte_at i (mac_bytes m) % 256 ]
            else C.get_at i C.clear))
  unfolding get_mac_address
  get_mac_address_lem false mac i hi = (refl, refl)
  get_mac_address_lem true none i hi = (refl, refl)
  get_mac_address_lem true (some m) i hi = (refl, set_from-all (mac_bytes m) C.clear i refl hi)

  -- The first word stays what the first round made it.
  later_rounds :
      (idx x : ℕ) (addresses stack : List ℕ)
      → first_or_zero (read_addresses (suc idx) addresses (x ∷ stack)).0 ≡ x
  unfolding read_addresses
  later_rounds idx x [] stack = refl
  later_rounds idx x (a ∷ as') stack =
      if_cases (λ (out : List ℕ × List ℕ). first_or_zero out.0 ≡ x) (ltb (suc idx) 16)
        (λ _. later_rounds (suc idx) x as' (set (set stack idx 0) idx a)) (λ _. refl)

  first_word :
      (addresses : List ℕ) (x : ℕ) (stack : List ℕ)
      → first_or_zero (read_addresses 0 addresses (x ∷ stack)).0 ≡ first_or_zero addresses
  unfolding read_addresses
  first_word [] x stack = refl
  first_word (a ∷ as') x stack = later_rounds 0 a as' stack

  -- For a host with fewer than 16 addresses, the result is true, and the GUID has the prefix of
  -- VSCP's GUIDs for addresses, then the low 32 bits of the first word, the most significant byte
  -- first, and zero bytes behind them. The word is 0 if the host has no address.
  pub get_ip_address_lem :
      (x : ℕ) (stack addresses : List ℕ) (i : ℕ)
      → i < 16
      → length addresses < 16
      → let (result, g) = get_ip_address C (x ∷ stack) (some addresses) in
        let w = first_or_zero addresses in
        (result ≡ true) × (C.get_at i g ≡ byte_at i (address_bytes w))
  unfolding get_ip_address set_from
  get_ip_address_lem x stack addresses i hi few = (
    refl,
    rw (first_word addresses x stack) (
        set_from-all (address_bytes (first_or_zero addresses)) C.clear i refl hi
        ∙ byte_at_small i (address_bytes (first_or_zero addresses))
            (address_bytes_small (first_or_zero addresses))),
  )

  -- A host whose first address a.b.c.d stands in memory in this order, read as one word by a
  -- machine that stores the least significant byte first, whatever four bytes stand behind it, gets
  -- a GUID that has the address backwards: d, c, b, a.
  pub get_ip_address_backwards :
      (x : ℕ) (stack rest : List ℕ) (a b c d behind : ℕ)
      → a < 256
      → b < 256
      → c < 256
      → d < 256
      → suc (length rest) < 16
      → let word = a + 256 * b + 65536 * c + 16777216 * d + 4294967296 * behind in
        let g = (get_ip_address C (x ∷ stack) (some (word ∷ rest))).1 in
        (C.get_at 8 g ≡ d) × (C.get_at 9 g ≡ c) × (C.get_at 10 g ≡ b) × (C.get_at 11 g ≡ a)
  get_ip_address_backwards x stack rest a b c d behind ha hb hc hd few =
      let word = a + 256 * b + 65536 * c + 16777216 * d + 4294967296 * behind in
      let at = λ (i : ℕ) (h : i < 16). (get_ip_address_lem x stack (word ∷ rest) i h few).1 in
      (
        at 8 (omega arith) ∙ omega arith,
        at 9 (omega arith) ∙ omega arith,
        at 10 (omega arith) ∙ omega arith,
        at 11 (omega arith) ∙ omega arith,
      )
