-- ===== src/Event/Payload.antt =====
-- What the outgoing translations of Event.Translate keep: the data, its length, and the source.
use Prim.Native.Nat.{bit_and}
use vscp_mqtt_daemon.Prelude.{
  Each, ℕ, ◌+◌, ◌%◌, ◌/◌, ◌<◌, ◌≤◌, Option, none, some, List, [], ◌∷◌, zero, suc, take, drop, set,
  get_elem?, length, replicate, ◌≡◌, refl, arith, inl, inr, ap, ◌⊎◌, ◌∙◌,
}
use vscp_mqtt_daemon.Prelude.Bits.{bit_and_digit, bit_and-le}
use vscp_mqtt_daemon.Device.{DeviceItem}
use vscp_mqtt_daemon.Event.{VscpEvent, CanalMsg, Vscp, zero_event}
use vscp_mqtt_daemon.Event.Translate.{
  when_bit, level1_over_level2, translate, set_frame_version, outgoing_blocking,
  outgoing_non_blocking,
}

-- `size_data` is the number of bytes behind `pdata`, at most `n`.
abbrev pub IsSized : ℕ → VscpEvent → Type 0
IsSized n ev = (length ev.bytes_at ≡ ev.size_data) × (ev.size_data ≤ n)

take_all : (bs : List ℕ) (n : ℕ) → length bs ≡ n → take n bs ≡ bs
take_all [] zero h = refl
take_all [] (suc n) h = refl
take_all (b ∷ bs) zero h = absurd (omega arith)
take_all (b ∷ bs) (suc n) h = ap (◌∷◌ b) (take_all bs n (omega arith))

-- The byte at the position is 0, if there is one.
abbrev pub IsZeroAt : ℕ → List ℕ → Type 0
IsZeroAt i bs = (get_elem? bs i ≡ none) ⊎ (get_elem? bs i ≡ some 0)

set-IsZeroAt : (i : ℕ) (bs : List ℕ) → IsZeroAt i (set bs i 0)
set-IsZeroAt i [] = inl refl
set-IsZeroAt zero (b ∷ bs) = inr refl
set-IsZeroAt (suc i) (b ∷ bs) = set-IsZeroAt i bs

-- An event wrapped as Level I over Level II can be unwrapped: if its data is at most 512 bytes and
-- its class leaves room, the class is 512 higher, the data stands behind 16 zero bytes, and the
-- stated size is the size of the data.
pub level1_over_level2_lem :
    (ev : VscpEvent)
    → IsSized 512 ev
    → ev.vscp_class < 65024
    → let wrapped = level1_over_level2 ev in
      (wrapped.vscp_class ≡ ev.vscp_class + 512)
      × (take 16 wrapped.bytes_at ≡ replicate 16 0)
      × (drop 16 wrapped.bytes_at ≡ ev.bytes_at)
      × IsSized 528 wrapped
unfolding level1_over_level2
level1_over_level2_lem ev (sized, small) room = (
  omega arith,
  refl,
  take_all ev.bytes_at ev.size_data sized,
  (rw (take_all ev.bytes_at ev.size_data sized) (omega arith), omega arith),
)

-- What vscphelper is relied on for: its conversions state the size of the data that they produce,
-- which is at most 512 bytes, and the measurement conversions keep the source of the event.
pub record IsHelper (v : Vscp) : Type 0 where
  pub converted :
      (e : VscpEvent) (m : CanalMsg) (g : List ℕ) {r : VscpEvent}
      → v.convert_canal_to_event e m g ≡ some r
      → IsSized 512 r
  pub double_sized : (e : VscpEvent) → IsSized 512 e → IsSized 512 (v.measurement_to_double e)
  pub string_sized : (e : VscpEvent) → IsSized 512 e → IsSized 512 (v.measurement_to_string e)
  pub double_source :
      (e : VscpEvent)
      → ((v.measurement_to_double e).obid ≡ e.obid) × ((v.measurement_to_double e).guid ≡ e.guid)
  pub string_source :
      (e : VscpEvent)
      → ((v.measurement_to_string e).obid ≡ e.obid) × ((v.measurement_to_string e).guid ≡ e.guid)

level1_over_level2-IsSized : (ev : VscpEvent) → IsSized 512 ev → IsSized 528 (level1_over_level2 ev)
unfolding level1_over_level2
level1_over_level2-IsSized ev (sized, small) =
    (rw (take_all ev.bytes_at ev.size_data sized) (omega arith), omega arith)

-- A property that the change gives, and that holds without it.
when_bit_cases {ℓ} :
    (P : VscpEvent → Type ℓ) (tr bit : ℕ) (change : VscpEvent → VscpEvent) (ev : VscpEvent)
    → P (change ev)
    → P ev
    → P (when_bit tr bit change ev)
unfolding when_bit
when_bit_cases P tr bit change ev changed kept = ground arith

abbrev SameSource : VscpEvent → VscpEvent → Type 0
SameSource e r = (r.obid ≡ e.obid) × (r.guid ≡ e.guid)

module _ (v : Vscp) (helper : IsHelper v) where
  open helper use {converted, double_sized, string_sized, double_source, string_source}

  translate-IsSized : (tr : ℕ) (ev : VscpEvent) → IsSized 512 ev → IsSized 528 (translate v tr ev)
  unfolding translate
  translate-IsSized tr ev h =
      let a = when_bit_cases (IsSized 512) tr 1 _ ev (double_sized ev h) h in
      let b = when_bit_cases (IsSized 512) tr 2 _ _ (string_sized _ a) a in
      when_bit_cases (IsSized 528) tr 4 _ _ (level1_over_level2-IsSized _ b) (omega arith)

  translate_source : (tr : ℕ) (ev : VscpEvent) → SameSource ev (translate v tr ev)
  unfolding translate level1_over_level2
  translate_source tr ev =
      let a = when_bit_cases (SameSource ev) tr 1 _ ev (double_source ev) (refl, refl) in
      let b =
        when_bit_cases (SameSource ev) tr 2 _ _
          ((string_source _).0 ∙ a.0, (string_source _).1 ∙ a.1) a in
      when_bit_cases (SameSource ev) tr 4 _ _ b b

  -- Whatever a Level I driver delivers, an event that either loop makes of it states the size of
  -- its data, of at most 528 bytes, and has the object id 0. In the blocking loop the high byte of
  -- the nickname in its GUID is 0, if the GUID has that byte.
  pub outgoing_lem :
      (d : DeviceItem) (m : CanalMsg)
      → Each (λ b. IsSized 528 b × (b.obid ≡ 0) × IsZeroAt 14 b.guid) (outgoing_blocking v d m)
        × Each (λ n. IsSized 528 n × (n.obid ≡ 0)) (outgoing_non_blocking v d m)
  unfolding outgoing_blocking outgoing_non_blocking
  outgoing_lem d m = (blocking _ refl, non_blocking _ refl)
    where
      blocking :
          (o : Option VscpEvent)
          → v.convert_canal_to_event (record zero_event { guid = d.guid }) m d.guid ≡ o
          → Each (λ b. IsSized 528 b × (b.obid ≡ 0) × IsZeroAt 14 b.guid) (outgoing_blocking v d m)
      blocking none e = rw (e, outgoing_blocking) tt
      blocking (some r) e =
          let ev : VscpEvent = record r { obid = 0; guid = set r.guid 14 0 } in
          let s = translate_source d.translation ev in
          rw (e, outgoing_blocking)
            (
              translate-IsSized d.translation ev (converted _ m d.guid e),
              s.0,
              rw s.1 (set-IsZeroAt 14 r.guid),
            )

      non_blocking :
          (o : Option VscpEvent)
          → v.convert_canal_to_event (record zero_event { head = set_frame_version v 0 }) m d.guid
            ≡ o
          → Each (λ n. IsSized 528 n × (n.obid ≡ 0)) (outgoing_non_blocking v d m)
      non_blocking none e = rw (e, outgoing_non_blocking) tt
      non_blocking (some r) e =
          let ev : VscpEvent = record r { obid = 0 } in
          rw (e, outgoing_non_blocking)
            (
              translate-IsSized d.translation ev (converted _ m d.guid e),
              (translate_source d.translation ev).0,
            )

bit1 : (tr : ℕ) → bit_and tr 1 ≡ bit_and (tr % 8) 1
bit1 tr = omega (
  arith,
  bit_and_digit tr 1,
  bit_and_digit (tr % 8) 1,
  bit_and-le (tr / 2) 0,
  bit_and-le (tr % 8 / 2) 0,
)

bit2 : (tr : ℕ) → bit_and tr 2 ≡ bit_and (tr % 8) 2
bit2 tr = omega (
  arith,
  bit_and_digit tr 2,
  bit_and_digit (tr / 2) 1,
  bit_and_digit (tr % 8) 2,
  bit_and_digit (tr % 8 / 2) 1,
  bit_and-le (tr / 2 / 2) 0,
  bit_and-le (tr % 8 / 2 / 2) 0,
)

bit4 : (tr : ℕ) → bit_and tr 4 ≡ bit_and (tr % 8) 4
bit4 tr = omega (
  arith,
  bit_and_digit tr 4,
  bit_and_digit (tr / 2) 2,
  bit_and_digit (tr / 2 / 2) 1,
  bit_and_digit (tr % 8) 4,
  bit_and_digit (tr % 8 / 2) 2,
  bit_and_digit (tr % 8 / 2 / 2) 1,
  bit_and-le (tr / 2 / 2 / 2) 0,
  bit_and-le (tr % 8 / 2 / 2 / 2) 0,
)

-- Only the three lowest bits of the translation flags matter: the others, the incoming ones among
-- them, change no event.
pub translate-low_bits :
    (v : Vscp) (tr : ℕ) (ev : VscpEvent) → translate v tr ev ≡ translate v (tr % 8) ev
unfolding translate when_bit
translate-low_bits v tr ev = simp (bit1 tr, bit2 tr, bit4 tr)
