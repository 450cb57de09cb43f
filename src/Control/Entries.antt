-- ===== src/Control/Entries.antt =====
-- The list of drivers that the configuration gives, and which driver's client an entry configures.
use vscp_mqtt_daemon.Prelude.{
  ℕ, zero, suc, ◌<◌, ◌≤◌, Bool, true, false, ◌&&◌, List, [], ◌∷◌, ◌++◌, Option, none, some, Text,
  bytes, text_eq, text_eq_iff, length, length-append, All, ◌≡◌, refl, arith, inl, inr, Option-cases,
  if_cases, if◌then◌else◌,
}
use vscp_mqtt_daemon.Device.{DeviceItem}
use vscp_mqtt_daemon.DeviceList.{NewItem, add_item, filled_item, get_device_item_from_name}
use vscp_mqtt_daemon.DeviceList.Lookup.{FirstAt, lookups-Finds, get_device_item_from_name-add_item}
use vscp_mqtt_daemon.DeviceList.Configured.{IsReady, add_item-IsReady}
use vscp_mqtt_daemon.Control.Json.{JsonClass, done, refused}
use vscp_mqtt_daemon.Control.Drivers.{
  Helpers, Drivers, level1_item, level2_item, configure, add_entry, read_entries, read_level,
  read_drivers, has_level1_fields, has_level2_fields,
}
use vscp_mqtt_daemon.Control.Settings.{WhenDone, and_then-WhenDone}

FirstAt-bound :
    (test : DeviceItem → Bool) (k : ℕ) (ds : List DeviceItem) → FirstAt test k ds → k < length ds
FirstAt-bound test k [] h = absurd h
FirstAt-bound test zero (d ∷ ds) h = omega arith
FirstAt-bound test (suc k) (d ∷ ds) h = omega (arith, FirstAt-bound test k ds h.1)

name-bound :
    (n : Text) (ds : List DeviceItem) {i : ℕ}
    → get_device_item_from_name n ds ≡ some i
    → i < length ds
name-bound n ds {i} e =
    FirstAt-bound (λ d. text_eq d.name n) i ds (rw e at (lookups-Finds (λ a b. true) [] n ds).0)

module _ (C : JsonClass) (h : Helpers) (init_from_json : C.J → Bool) where
  -- Every driver is ready to be started, and every client configuration is that of a driver in the
  -- list.
  abbrev pub IsSound : Drivers C → Type 0
  IsSound s = All (IsReady h.site) s.devices × All (λ c. c.0 < length s.devices) s.configured

  within_more :
      (n m : ℕ) (cs : List (ℕ × C.J)) → n ≤ m → All (λ c. c.0 < n) cs → All (λ c. c.0 < m) cs
  within_more n m [] le k = tt
  within_more n m (c ∷ cs) le (a, k) = (omega arith, within_more n m cs le k)

  within-append :
      (n i : ℕ) (m : C.J) (cs : List (ℕ × C.J))
      → i < n
      → All (λ c. c.0 < n) cs
      → All (λ c. c.0 < n) (cs ++ ((i, m) ∷ []))
  within-append n i m [] lt k = (lt, tt)
  within-append n i m (c ∷ cs) lt (a, k) = (a, within-append n i m cs lt k)

  length-add_item :
      (a : NewItem) (ds : List DeviceItem) → length ds ≤ length (add_item h.site a ds).0
  unfolding add_item
  length-add_item a ds = ground (arith, length-append ds (filled_item h.site a ∷ []))

  named-IsSound :
      (m : C.J) (s : Drivers C) (o : Option ℕ)
      → ((i : ℕ) → o ≡ some i → i < length s.devices)
      → IsSound s
      → WhenDone IsSound (elim o [
        | none ↦ done s
        | some i ↦
            if init_from_json m
            then done (record s { configured = s.configured ++ ((i, m) ∷ []) })
            else refused
      ])
  named-IsSound m s none inside sound = sound
  named-IsSound m s (some i) inside sound =
      if_cases (WhenDone IsSound) (init_from_json m)
        (λ _. (sound.0, within-append (length s.devices) i m s.configured (inside i refl) sound.1))
        (λ _. tt)

  configure-IsSound :
      (e : C.J) (name : Text) (s : Drivers C)
      → IsSound s
      → WhenDone IsSound (configure C h init_from_json e name s)
  unfolding configure
  configure-IsSound e name s sound =
      let m = C.at (bytes "mqtt") e in
      if_cases (WhenDone IsSound) (C.contains_key (bytes "mqtt") e && C.is_object m)
        (λ _.
          named-IsSound m s (get_device_item_from_name name s.devices)
            (λ i found. name-bound name s.devices found) sound)
        (λ _. sound)

  add_entry-IsSound :
      (e : C.J) (a : NewItem) (s : Drivers C)
      → IsSound s
      → WhenDone IsSound (add_entry C h init_from_json e a s)
  unfolding add_entry
  add_entry-IsSound e a s (ready, within) =
      let more : IsSound (record s { devices = (add_item h.site a s.devices).0 }) = (
        add_item-IsReady h.site a s.devices ready,
        within_more (length s.devices) _ s.configured (length-add_item a s.devices) within,
      ) in
      if_cases (WhenDone IsSound) (add_item h.site a s.devices).1
        (λ _. configure-IsSound e a.name _ more) (λ _. more)

  read_entries-IsSound :
      (has_fields : C.J → Bool) (item_of : C.J → NewItem) (es : List C.J) (s : Drivers C)
      → IsSound s
      → WhenDone IsSound (read_entries C h init_from_json has_fields item_of es s)
  unfolding read_entries
  read_entries-IsSound has_fields item_of [] s sound = sound
  read_entries-IsSound has_fields item_of (e ∷ es) s sound =
      elim (Option-cases (C.bool_value (bytes "enable") false e)) [
        | inl none_of ↦ rw (read_entries, none_of) tt
        | inr (enabled, value) ↦
            rw (read_entries, value)
              (and_then-WhenDone IsSound IsSound _ _
                (if_cases (WhenDone IsSound) (enabled && has_fields e)
                  (λ _. add_entry-IsSound e (item_of e) s sound) (λ _. sound))
                (λ t. read_entries-IsSound has_fields item_of es t))
      ]

  read_level-IsSound :
      (key : Text) (has_fields : C.J → Bool) (item_of : C.J → NewItem) (d : C.J) (s : Drivers C)
      → IsSound s
      → WhenDone IsSound (read_level C h init_from_json key has_fields item_of d s)
  unfolding read_level
  read_level-IsSound key has_fields item_of d s sound =
      if_cases (WhenDone IsSound) (C.contains_key key d && C.is_object (C.at key d)) (λ _. sound)
        (λ _. read_entries-IsSound has_fields item_of (C.elements (C.at key d)) s sound)

  -- Whatever the configuration holds, if its drivers are accepted, then every driver in the list is
  -- ready to be started, and every client that was configured is that of a driver in the list, if
  -- both held before.
  pub read_drivers-IsSound :
      (j : C.J) (s : Drivers C) → IsSound s → WhenDone IsSound (read_drivers C h init_from_json j s)
  unfolding read_drivers
  read_drivers-IsSound j s sound =
      let d = C.at (bytes "drivers") j in
      if_cases (WhenDone IsSound) (C.contains_key (bytes "drivers") j && C.is_object d)
        (λ _.
          and_then-WhenDone IsSound IsSound
            (read_level C h init_from_json (bytes "level1") (has_level1_fields C h init_from_json)
              (level1_item C h init_from_json) d s)
            (read_level C h init_from_json (bytes "level2") (has_level2_fields C h init_from_json)
              (level2_item C h init_from_json) d)
            (read_level-IsSound (bytes "level1") _ _ d s sound)
            (λ t. read_level-IsSound (bytes "level2") _ _ d t))
        (λ _. sound)

  abbrev pub or_default : Option ℕ → ℕ → ℕ
  or_default none n = n
  or_default (some i) n = i

  found_new :
      (a : NewItem) (ds : List DeviceItem)
      → h.site.file_exists a.path ≡ true
      → get_device_item_from_name a.name (ds ++ (filled_item h.site a ∷ []))
        ≡ some (or_default (get_device_item_from_name a.name ds) (length ds))
  unfolding add_item
  found_new a ds there =
      ground
        (arith, get_device_item_from_name-add_item h.site a ds a.name, text_eq_iff a.name a.name)

  -- An entry whose driver file exists, and whose MQTT object a client takes, adds its driver behind
  -- the others. The client that is configured is that of the first driver with the entry's name: the
  -- new one only if the name was free.
  pub add_entry_lem :
      (e : C.J) (a : NewItem) (s : Drivers C)
      → h.site.file_exists a.path ≡ true
      → C.contains_key (bytes "mqtt") e ≡ true
      → C.is_object (C.at (bytes "mqtt") e) ≡ true
      → init_from_json (C.at (bytes "mqtt") e) ≡ true
      → let i = or_default (get_device_item_from_name a.name s.devices) (length s.devices) in
        add_entry C h init_from_json e a s
        ≡ done (record {
          devices = s.devices ++ (filled_item h.site a ∷ []);
          configured = s.configured ++ ((i, C.at (bytes "mqtt") e) ∷ []);
        })
  unfolding add_entry configure add_item
  add_entry_lem e a s there keyed object takes = ground (arith, found_new a s.devices there)
