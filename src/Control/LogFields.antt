-- ===== src/Control/LogFields.antt =====
-- What the block on logging changes, and within what bounds.
use vscp_mqtt_daemon.Prelude.{
  ℕ, ◌^◌, ◌<◌, Bool, true, false, ◌&&◌, [], Text, bytes, ◌≡◌, refl, arith, if◌then◌else◌, if_cases,
}
use vscp_mqtt_daemon.Control.Json.{JsonClass}
use vscp_mqtt_daemon.Control.Logging.{
  LogLevel, Logging, starts_with, found, log_level, read_flag, read_text, read_unsigned,
  read_file_log, read_console_log, read_sys_log, read_udp_log, read_logging,
}

-- The numbers are in the ranges of `uint32_t` and `uint16_t`.
abbrev pub Fits : Logging → Type 0
Fits s = (s.file.max_size < 2 ^ 32) × (s.file.max_files < 2 ^ 16) × (s.udp.port < 2 ^ 16)

log_level_empty : (old : LogLevel) → log_level [] old ≡ old
unfolding log_level found starts_with
log_level_empty old = refl

if_same {ℓ} : {A : Type ℓ} (b : Bool) (x : A) → (if b then x else x) ≡ x
if_same true x = refl
if_same false x = refl

module _ (C : JsonClass) where
  read_unsigned-bound :
      (width : ℕ) (key : Text) (j : C.J) (old : ℕ)
      → 1 < 2 ^ width
      → old < 2 ^ width
      → read_unsigned C width key j old < 2 ^ width
  unfolding read_unsigned
  read_unsigned-bound width key j old h k = ground arith

  -- The value is neither a text, nor a truth value, nor a number.
  abbrev pub IsOther : C.J → Type 0
  IsOther v = (C.is_string v ≡ false) × (C.is_boolean v ≡ false) × (C.is_number v ≡ false)

  -- Whatever fields the value has are of other types.
  abbrev pub HasOthers : C.J → Type 0
  HasOthers l = (key : Text) → C.contains_key key l ≡ true → IsOther (C.at key l)

  read_flag_other : (key : Text) (l : C.J) (old : Bool) → HasOthers l → read_flag C key l old ≡ old
  unfolding read_flag
  read_flag_other key l old h = ground (arith, h key)

  read_text_other : (key : Text) (l : C.J) (old : Text) → HasOthers l → read_text C key l old ≡ old
  unfolding read_text
  read_text_other key l old h = ground (arith, h key)

  read_unsigned_other :
      (width : ℕ) (key : Text) (l : C.J) (old : ℕ)
      → HasOthers l
      → read_unsigned C width key l old ≡ old
  unfolding read_unsigned
  read_unsigned_other width key l old h = ground (arith, h key)

module _ (C : JsonClass) (make_lower : Text → Text) where
  -- Reading the block keeps the size and the number of the log files, and the port, in the ranges
  -- of their types, whatever numbers the configuration has.
  pub read_logging-Fits : (j : C.J) (s : Logging) → Fits s → Fits (read_logging C make_lower j s)
  unfolding read_logging read_file_log read_udp_log
  read_logging-Fits j s (size, files, port) =
      let l = C.at (bytes "logging") j in
      if_cases Fits (C.contains_key (bytes "logging") j && C.is_object l)
        (λ _. (
          read_unsigned-bound C 32 (bytes "file-max-size") l s.file.max_size (omega arith) size,
          read_unsigned-bound C 16 (bytes "file-max-files") l s.file.max_files (omega arith) files,
          read_unsigned-bound C 16 (bytes "udp-port") l s.udp.port (omega arith) port,
        ))
        (λ _. (size, files, port))

  -- A configuration changes nothing of the log settings if it has no block on logging, or none that
  -- is an object, or if the fields of the block are neither texts nor truth values nor numbers.
  pub read_logging_other :
      (j : C.J) (s : Logging)
      → make_lower [] ≡ []
      → (C.contains_key (bytes "logging") j ≡ true
          → C.is_object (C.at (bytes "logging") j) ≡ true
          → HasOthers C (C.at (bytes "logging") j))
      → read_logging C make_lower j s ≡ s
  unfolding read_logging read_file_log read_console_log read_sys_log read_udp_log
  read_logging_other j s e h =
      let l = C.at (bytes "logging") j in
      if_cases (λ t. t ≡ s) (C.contains_key (bytes "logging") j && C.is_object l)
        (λ b.
          let o : HasOthers C l = h (ground arith) (ground arith) in
          simp (
            read_flag_other C,
            read_text_other C,
            read_unsigned_other C,
            log_level_empty,
            if_same,
            e,
            o,
          ))
        (λ _. refl)
