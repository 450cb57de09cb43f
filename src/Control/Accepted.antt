-- ===== src/Control/Accepted.antt =====
-- What holds of every configuration that readConfiguration accepts.
use vscp_mqtt_daemon.Prelude.{
  if_cases, ◌&&◌, ℕ, arith, Bool, List, Option, Text, length, Option-cases, inl, inr, ◌≡◌, refl,
  ◌∙◌,
}
use vscp_mqtt_daemon.Control.Json.{JsonClass}
use vscp_mqtt_daemon.Control.Config.{read_general, read_mqtt}
use vscp_mqtt_daemon.Control.Logging.{default_logging}
use vscp_mqtt_daemon.Control.LogFields.{Fits, read_logging-Fits}
use vscp_mqtt_daemon.Control.Drivers.{Helpers, read_drivers}
use vscp_mqtt_daemon.Control.Settings.{WhenDone, and_then-WhenDone, anything}
use vscp_mqtt_daemon.Control.Entries.{IsSound, read_drivers-IsSound}
use vscp_mqtt_daemon.Control.ReadJson.{
  Files, read_encryption_key, key_path, Values, default_values, new_values, unset_logging, Birth,
  read_json, read_configuration,
}

-- vscp_hexStr2ByteArray stays inside the array that it fills.
abbrev pub IsHex : Files → Type 0
IsHex f = (text : Text) (key : List ℕ) → length (f.hex_to_bytes text key).1 ≡ length key

module _ (C : JsonClass) (f : Files) (h : Helpers) (init_main init_driver : C.J → Bool) where
  -- The drivers are ready to be started, the clients of drivers in the list are configured, the log
  -- settings are in the ranges of their types, and the key has `n` bytes.
  abbrev pub IsValid : ℕ → Values C → Type 0
  IsValid n v = IsSound C h init_driver v.drivers × Fits v.logging × (length v.key ≡ n)

  read_encryption_key-length :
      (path : Text) (key : List ℕ)
      → IsHex f
      → length (read_encryption_key f path key).1 ≡ length key
  unfolding read_encryption_key
  read_encryption_key-length path key hex = elim (Option-cases (f.contents path)) [
    | inl e ↦ rw (e, read_encryption_key) refl
    | inr (text, e) ↦ rw (e, read_encryption_key) (hex text key)
  ]

  read_json-IsValid :
      (n : ℕ) (j : C.J) (v : Values C)
      → IsHex f
      → IsValid n v
      → WhenDone (λ r. IsValid n r.values) (read_json C f h init_main init_driver j v)
  unfolding read_json
  read_json-IsValid n j v hex (sound, fits, len) =
      and_then-WhenDone (λ _. Unit {0}) _ (read_general C j) _ (anything (read_general C j))
        (λ general _.
          and_then-WhenDone (λ _. Unit {0}) _ (read_mqtt C init_main j v.topics) _
            (anything (read_mqtt C init_main j v.topics))
            (λ topics _.
              and_then-WhenDone (IsSound C h init_driver) _
                (read_drivers C h init_driver j v.drivers) _
                (read_drivers-IsSound C h init_driver j v.drivers sound)
                (λ drivers s. (
                  s,
                  read_logging-Fits C f.make_lower j v.logging fits,
                  read_encryption_key-length (key_path C j) v.key hex ∙ len,
                ))))

  new_values-IsValid :
      (b : Birth) (key : List ℕ) → Fits b.memory → IsValid (length key) (new_values C b key)
  unfolding new_values default_values default_logging unset_logging
  new_values-IsValid b key fits =
      if_cases (IsValid (length key)) (b.list_mutex && b.discovery_mutex)
        (λ _. ((tt, tt), (omega arith, omega arith, omega arith), refl))
        (λ _. ((tt, tt), fits, refl))

  -- Whatever a configuration that is accepted holds, every driver of the list is ready to be started,
  -- every configured client is that of a driver in the list, the log settings are in the ranges of
  -- their types, and the key keeps its length. The memory of the object holds numbers in the ranges
  -- of their types.
  pub read_configuration-IsValid :
      (parsed : Text → Option C.J) (file : Text) (b : Birth) (key : List ℕ)
      → IsHex f
      → Fits b.memory
      → WhenDone
          (λ r. IsValid (length key) r.values)
          (read_configuration C f h init_main init_driver parsed file (new_values C b key))
  unfolding read_configuration
  read_configuration-IsValid parsed file b key hex fits = elim (Option-cases (parsed file)) [
    | inl e ↦ rw (e, read_configuration) tt
    | inr (j, e) ↦
        rw (e, read_configuration)
          (read_json-IsValid (length key) j (new_values C b key) hex
            (new_values-IsValid b key fits))
  ]
