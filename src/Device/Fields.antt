-- ===== src/Device/Fields.antt =====
-- The texts of Device.Print read back: which fields a reader of the lines finds.
use vscp_mqtt_daemon.Prelude.{
  ℕ, ◌<◌, All, sym, length-append, ◌==◌, Bool, true, false, List, [], ◌∷◌, ◌++◌, map, append_assoc,
  append-nil, Text, bytes, lacks, lacks-append, split_on, split_on-append, split_on-lacks, ◌≡◌,
  refl, ap, ◌∙◌, arith, length,
}
use vscp_mqtt_daemon.Device.{Guid, DeviceItem}
use vscp_mqtt_daemon.Device.Print.{
  Formats, comma, bool_text, get_as_string, get_as_json, get_all_as_string, drivers_json,
  get_all_as_json,
}

-- What the formatting functions are documented to print: digits, and for a GUID pairs of hex
-- digits with colons between them. No comma and no line end is among these.
pub record IsPlain (f : Formats) : Type 0 where
  pub dec_comma : (n : ℕ) → lacks b',' (f.dec n) ≡ true
  pub hex4_comma : (n : ℕ) → lacks b',' (f.hex4 n) ≡ true
  pub guid_comma : (g : Guid) → lacks b',' (f.guid_string g) ≡ true
  pub dec_newline : (n : ℕ) → lacks b'\n' (f.dec n) ≡ true
  pub hex4_newline : (n : ℕ) → lacks b'\n' (f.hex4 n) ≡ true
  pub guid_newline : (g : Guid) → lacks b'\n' (f.guid_string g) ≡ true

-- The configured texts of a driver hold no separator `c`.
abbrev pub IsClean : ℕ → DeviceItem → Type 0
IsClean c d = (lacks c d.name ≡ true) × (lacks c d.path ≡ true) × (lacks c d.parameter ≡ true)

bool_text-comma : (b : Bool) → lacks b',' (bool_text b) ≡ true
bool_text-comma true = refl
bool_text-comma false = refl

bool_text-newline : (b : Bool) → lacks b'\n' (bool_text b) ≡ true
bool_text-newline true = refl
bool_text-newline false = refl

-- The field up to a separator, and what a reader finds behind it.
next :
    (c : ℕ) {s : Text} (t : Text) {fs : List Text}
    → lacks c s ≡ true
    → split_on c t ≡ fs
    → split_on c (s ++ (c ∷ t)) ≡ s ∷ fs
next c {s} t h e = split_on-append c s t h ∙ ap (◌∷◌ s) e

module _ (f : Formats) (plain : IsPlain f) where
  -- The field of the flags ends in the letter `l`, since the format is `%ul` and not `%lu`.
  abbrev pub fields : DeviceItem → List Text
  fields d =
      bool_text d.enable
      ∷ bool_text d.active
      ∷ d.name
      ∷ d.path
      ∷ d.parameter
      ∷ f.dec d.driver_level
      ∷ (f.dec d.device_flags ++ bytes "l")
      ∷ f.guid_string d.guid
      ∷ f.hex4 d.translation
      ∷ []

  -- The line of a driver whose name, path and parameter hold no comma, split at its commas, gives
  -- back nine fields in the documented order: enable, active, name, path, param, level, flags
  -- (with an `l` behind the number), guid and translation.
  pub split_on-get_as_string :
      (d : DeviceItem) → IsClean b',' d → split_on b',' (get_as_string f d) ≡ fields d
  unfolding get_as_string
  split_on-get_as_string d (name, path, param) = next b',' _ (bool_text-comma d.enable) (
      next b',' _ (bool_text-comma d.active) (
        next b',' _ name (
          next b',' _ path (
            next b',' _ param (
              next b',' _ (plain.dec_comma d.driver_level) (
                next b',' _ (rw (lacks-append, plain.dec_comma d.device_flags)) (
                  next b',' _ (plain.guid_comma d.guid)
                    (split_on-lacks b',' _ (plain.hex4_comma d.translation)))))))))

  line_newline :
      (d : DeviceItem) → IsClean b'\n' d → lacks b'\n' (get_as_string f d ++ bytes "\r") ≡ true
  unfolding get_as_string
  line_newline d (name, path, param) = simp (
    lacks-append, name, path, param, plain.dec_newline, plain.hex4_newline, plain.guid_newline,
    bool_text-newline,
  )

  -- Of drivers whose name, path and parameter hold no line feed, getAllAsString has one line for
  -- each, in the list's order, that is the driver's own text and a carriage return, and nothing
  -- behind the last line feed.
  pub split_on-get_all_as_string :
      (ds : List DeviceItem)
      → All (IsClean b'\n') ds
      → split_on b'\n' (get_all_as_string f ds)
        ≡ map (λ d. get_as_string f d ++ bytes "\r") ds ++ ([] ∷ [])
  unfolding get_all_as_string split_on
  split_on-get_all_as_string [] clean = refl
  split_on-get_all_as_string (d ∷ ds) (clean, rest) =
      rw (← append_assoc (get_as_string f d) (bytes "\r") (b'\n' ∷ get_all_as_string f ds))
        (next b'\n' _ (line_newline d clean) (split_on-get_all_as_string ds rest))

no_test : (str : Text) → 0 < length str → (length str == 0) ≡ false
no_test str h = ground arith

-- The texts with the separator between them.
abbrev pub join_tail : Text → List Text → Text
join_tail sep [] = []
join_tail sep (s ∷ ss) = sep ++ (s ++ join_tail sep ss)

abbrev pub join : Text → List Text → Text
join sep [] = []
join sep (s ∷ ss) = s ++ join_tail sep ss

module _ (f : Formats) where
  get_as_json-pos : (d : DeviceItem) → 0 < length (get_as_json f d)
  unfolding get_as_json
  get_as_json-pos d = omega arith

  drivers_json-join_tail :
      (str : Text) (ds : List DeviceItem)
      → 0 < length str
      → drivers_json f str ds ≡ str ++ join_tail comma (map (get_as_json f) ds)
  unfolding drivers_json
  drivers_json-join_tail str [] h = sym (append-nil str)
  drivers_json-join_tail str (d ∷ ds) h = rw (no_test str h) (
      drivers_json-join_tail ((str ++ comma) ++ get_as_json f d) ds
        (omega (arith, length-append (str ++ comma) (get_as_json f d), length-append str comma))
      ∙ simp append_assoc)

  -- getAllAsJSON puts the objects of the drivers in the list's order, with one comma between
  -- neighbours and none before the first or behind the last, inside the array of `drivers`.
  pub get_all_as_json-join :
      (ds : List DeviceItem)
      → get_all_as_json f ds
        ≡ bytes "{    \"drivers\" : [" ++ (join comma (map (get_as_json f) ds) ++ bytes "]}")
  unfolding get_all_as_json drivers_json
  get_all_as_json-join [] = refl
  get_all_as_json-join (d ∷ ds) =
      ap (λ t. bytes "{    \"drivers\" : [" ++ (t ++ bytes "]}"))
        (drivers_json-join_tail (get_as_json f d) ds (get_as_json-pos d))
