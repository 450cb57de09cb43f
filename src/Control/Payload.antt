-- ===== src/Control/Payload.antt =====
-- What the receivers of the events of Control.Heartbeat read out of their data.
use vscp_mqtt_daemon.Prelude.{
  ℕ, ◌+◌, ◌-◌, ◌*◌, ◌/◌, ◌%◌, ◌^◌, ◌≤◌, min, true, List, [], ◌∷◌, ◌++◌, Option, none, some, Text,
  length, take, replicate, set, length-replicate, ◌≡◌, refl, arith, ◌∙◌,
}
use vscp_mqtt_daemon.Control.Bytes.{
  slice, length-write_at, slice-write_at, slice_before, slice-take, take-write_at_zeros,
  length-take,
}
use vscp_mqtt_daemon.Control.Heartbeat.{
  VscpEventEx, Standard, Server, write_at, c_str, name_bytes, write_address, class1_heartbeat,
  class2_heartbeat, segment_heartbeat, get_vscp_capabilities, capabilities, periodic_events,
}

-- The data of an event, as far as its size goes.
abbrev pub payload : VscpEventEx → List ℕ
payload ev = take ev.size_data ev.bytes_of

name_bytes-bound : (name : Text) → length (name_bytes name) ≤ 64
unfolding name_bytes
name_bytes-bound name = omega (arith, length-take (min (length (c_str name)) 64) (c_str name))

-- The first bytes set one by one.
take_set3 :
    (ds : List ℕ) (a b c : ℕ)
    → 3 ≤ length ds
    → take 3 (set (set (set ds 0 a) 1 b) 2 c) ≡ a ∷ b ∷ c ∷ []
take_set3 [] a b c h = absurd (omega arith)
take_set3 (x ∷ []) a b c h = absurd (omega arith)
take_set3 (x ∷ y ∷ []) a b c h = absurd (omega arith)
take_set3 (x ∷ y ∷ z ∷ ds) a b c h = refl

take_set5 :
    (ds : List ℕ) (a b c d e : ℕ)
    → 5 ≤ length ds
    → take 5 (set (set (set (set (set ds 0 a) 1 b) 2 c) 3 d) 4 e) ≡ a ∷ b ∷ c ∷ d ∷ e ∷ []
take_set5 [] a b c d e h = absurd (omega arith)
take_set5 (x ∷ []) a b c d e h = absurd (omega arith)
take_set5 (x ∷ y ∷ []) a b c d e h = absurd (omega arith)
take_set5 (x ∷ y ∷ z ∷ []) a b c d e h = absurd (omega arith)
take_set5 (x ∷ y ∷ z ∷ w ∷ []) a b c d e h = absurd (omega arith)
take_set5 (x ∷ y ∷ z ∷ w ∷ v ∷ ds) a b c d e h = refl

-- The number that four bytes hold, the most significant one first.
abbrev pub read_be : List ℕ → ℕ
read_be [] = 0
read_be (b ∷ bs) = b * 256 ^ length bs + read_be bs

-- The bytes of a 32-bit number, the most significant one first.
abbrev pub be32 : ℕ → List ℕ
be32 n = n / 2 ^ 24 % 256 ∷ n / 2 ^ 16 % 256 ∷ n / 2 ^ 8 % 256 ∷ n % 256 ∷ []

read_be-be32 : (n : ℕ) → read_be (be32 (n % 2 ^ 32)) ≡ n % 2 ^ 32
read_be-be32 n = omega arith

module _ (std : Standard) (server : Server) (ex : VscpEventEx) where
  length-class2_heartbeat : length (class2_heartbeat std server ex).bytes_of ≡ 512
  unfolding class2_heartbeat
  length-class2_heartbeat =
      length-write_at 0 (name_bytes server.name) (replicate 512 0) ∙ length-replicate {A = ℕ} 512 0

  class2_heartbeat-payload :
      payload (class2_heartbeat std server ex)
      ≡ name_bytes server.name ++ replicate (64 - length (name_bytes server.name)) 0
  unfolding class2_heartbeat
  class2_heartbeat-payload =
      take-write_at_zeros 64 512 (name_bytes server.name) (name_bytes-bound server.name)
        (omega arith)

module _ (std : Standard) (server : Server) (ex : VscpEventEx)
    (room : length ex.bytes_of ≡ 512) where
  class1_heartbeat-payload : payload (class1_heartbeat std server ex) ≡ 0 ∷ 0 ∷ 0 ∷ []
  unfolding class1_heartbeat
  class1_heartbeat-payload =
      take_set3 (write_at std.offset_guid server.guid ex.bytes_of) 0 0 0
        (omega (arith, length-write_at std.offset_guid server.guid ex.bytes_of))

  segment_heartbeat-payload :
      payload (segment_heartbeat std server ex) ≡ 0 ∷ be32 (server.now % 2 ^ 32)
  unfolding segment_heartbeat
  segment_heartbeat-payload =
      take_set5 (write_at std.offset_guid server.guid ex.bytes_of) 0 _ _ _ _
        (omega (arith, length-write_at std.offset_guid server.guid ex.bytes_of))

-- The offsets of the standard: the fields do not overlap and lie within the 104 bytes.
pub record IsStandard (std : Standard) : Type 0 where
  pub guid_before_ip : std.offset_guid + 16 ≤ std.offset_ip_addr
  pub ip_before_name : std.offset_ip_addr + 4 ≤ std.offset_srv_name
  pub name_fits : std.offset_srv_name + 64 ≤ 104

module _ (std : Standard) (standard : IsStandard std) (g nb : List ℕ) where
  open standard use {guid_before_ip, ip_before_name, name_fits}

  -- The data of the capabilities, over any 512 bytes.
  abbrev fields : Option (List ℕ) → List ℕ → List ℕ
  fields ip ds =
      take 104
        (write_at std.offset_srv_name nb (write_address std ip (write_at std.offset_guid g ds)))

  length-write_address :
      (ip : Option (List ℕ)) (ds : List ℕ) → length (write_address std ip ds) ≡ length ds
  unfolding write_address
  length-write_address none ds = refl
  length-write_address (some octets) ds = length-write_at std.offset_ip_addr octets ds

  fields_guid :
      (ip : Option (List ℕ)) (ds : List ℕ)
      → length g ≡ 16
      → length ds ≡ 512
      → slice std.offset_guid 16 (fields ip ds) ≡ g
  unfolding write_address
  fields_guid ip ds sized room =
      slice-take std.offset_guid 16 104 _ (omega arith)
      ∙ (slice_before std.offset_guid 16 std.offset_srv_name nb _ (omega arith) ∙ under_address ip)
    where
      own : slice std.offset_guid 16 (write_at std.offset_guid g ds) ≡ g
      own = (rw sized at (slice-write_at std.offset_guid g ds (omega arith)))

      under_address :
          (ip : Option (List ℕ))
          → slice std.offset_guid 16 (write_address std ip (write_at std.offset_guid g ds)) ≡ g
      under_address none = own
      under_address (some octets) =
          slice_before std.offset_guid 16 std.offset_ip_addr octets _ (omega arith) ∙ own

  fields_address :
      (octets ds : List ℕ)
      → length octets ≡ 4
      → length ds ≡ 512
      → slice std.offset_ip_addr 4 (fields (some octets) ds) ≡ octets
  unfolding write_address
  fields_address octets ds sized room =
      slice-take std.offset_ip_addr 4 104 _ (omega arith)
      ∙ (slice_before std.offset_ip_addr 4 std.offset_srv_name nb _ (omega arith)
          ∙ (rw sized at (
              slice-write_at std.offset_ip_addr octets (write_at std.offset_guid g ds)
                (omega (arith, length-write_at std.offset_guid g ds)))))

  fields_name :
      (ip : Option (List ℕ)) (ds : List ℕ)
      → length nb ≤ 64
      → length ds ≡ 512
      → slice std.offset_srv_name (length nb) (fields ip ds) ≡ nb
  fields_name ip ds sized room =
      slice-take std.offset_srv_name (length nb) 104 _ (omega arith)
      ∙ slice-write_at std.offset_srv_name nb _ (
          omega (
            arith,
            length-write_at std.offset_guid g ds,
            length-write_address ip (write_at std.offset_guid g ds),
          ))

module _ (std : Standard) (server : Server) (ex : VscpEventEx)
    (room : length ex.bytes_of ≡ 512) where
  -- The first three of the four events carry three zero bytes; the name of the server, cut to 64
  -- bytes and filled up with zeros to 64; and a zero byte and the time in seconds, of which a
  -- receiver reads back the low 32 bits.
  pub periodic_events-payload :
      let a = class1_heartbeat std server ex in
      let b = class2_heartbeat std server a in
      let c = segment_heartbeat std server b in
      let d = capabilities std server c in
      (periodic_events std server ex ≡ (a ∷ b ∷ c ∷ d ∷ [], true))
      × (payload a ≡ 0 ∷ 0 ∷ 0 ∷ [])
      × (payload b ≡ name_bytes server.name ++ replicate (64 - length (name_bytes server.name)) 0)
      × ((bs : List ℕ) × (payload c ≡ 0 ∷ bs) × (read_be bs ≡ server.now % 2 ^ 32))
  unfolding periodic_events
  periodic_events-payload =
      let a = class1_heartbeat std server ex in
      let b = class2_heartbeat std server a in
      (
        refl,
        class1_heartbeat-payload std server ex room,
        class2_heartbeat-payload std server a,
        (
          be32 (server.now % 2 ^ 32),
          segment_heartbeat-payload std server b (length-class2_heartbeat std server a),
          read_be-be32 server.now,
        ),
      )

module _ (std : Standard) (server : Server) (ex : VscpEventEx) (standard : IsStandard std) where
  -- The capabilities carry the server's GUID, its address if it is known, and its name cut to 64
  -- bytes, each at its offset.
  pub capabilities-payload :
      length server.guid ≡ 16
      → let p = payload (capabilities std server ex) in
        (slice std.offset_guid 16 p ≡ server.guid)
        × (slice std.offset_srv_name (length (name_bytes server.name)) p ≡ name_bytes server.name)
        × ((octets : List ℕ)
            → server.ip_address ≡ some octets
            → length octets ≡ 4
            → slice std.offset_ip_addr 4 p ≡ octets)
  unfolding capabilities get_vscp_capabilities
  capabilities-payload sized =
      let nb = name_bytes server.name in
      (
        fields_guid std standard server.guid nb server.ip_address (replicate 512 0) sized
            (length-replicate {A = ℕ} 512 0),
        fields_name std standard server.guid nb server.ip_address (replicate 512 0)
            (name_bytes-bound server.name) (length-replicate {A = ℕ} 512 0),
        λ octets e four. rw e (
            fields_address std standard server.guid nb octets (replicate 512 0) four
              (length-replicate {A = ℕ} 512 0)),
      )
