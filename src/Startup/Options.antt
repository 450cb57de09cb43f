-- ===== src/Startup/Options.antt =====
-- src/mqttvscpd.cpp: the loop of `main` over the options, as getopt gives them, and the defaults of
-- src/mqttvscpd.h. vscp_hexStr2ByteArray is an argument.
use vscp_mqtt_daemon.Prelude.{
  ℕ, Bool, true, false, List, [], ◌∷◌, Option, none, some, Text, bytes, ◌≡◌, refl,
}

-- An option, with its argument where it takes one; `other` is what getopt does not know.
pub data Flag : Type 0 where
  flag_s flag_g flag_v flag_h other : Flag
  flag_c flag_d flag_r flag_k : (optarg : Text) → Flag

-- What the options set: gbDontRunAsDaemon, strcfgfile, rootFolder and __vscp_key.
pub record Start : Type 0 where
  pub dont_run_as_daemon : Bool
  pub config_file : Text
  pub root_folder : Text
  pub key : List ℕ

-- `main` goes on, or the process exits with a status.
pub data Parsed : Type 0 where
  goes_on : Start → Parsed
  exits : ℕ → Parsed

-- The status that the parent sees of `exit(-1)`.
abbrev pub exit_minus_one : ℕ
exit_minus_one = 255

abbrev pub default_key : List ℕ
default_key =
    0x2d ∷ 0xbb ∷ 0x07 ∷ 0x9a ∷ 0x38 ∷ 0x98 ∷ 0x5a ∷ 0xf0 ∷ 0x0e ∷ 0xbe ∷ 0xef ∷ 0xe2 ∷ 0x2f ∷ 0x9f
    ∷ 0xfa ∷ 0x0e ∷ 0x7f ∷ 0x72 ∷ 0xdf ∷ 0x06 ∷ 0xeb ∷ 0xe4 ∷ 0x45 ∷ 0x63 ∷ 0xed ∷ 0xf4 ∷ 0xa1
    ∷ 0x07 ∷ 0x3c ∷ 0xab ∷ 0xc7 ∷ 0xd4 ∷ []

unfoldable pub default_start : Start
default_start = record {
  dont_run_as_daemon = false;
  config_file = bytes "/etc/vscp/mqttvscpd.json";
  root_folder = bytes "/var/lib/vscp/mqttvscpd/";
  key = default_key;
}

module _ (hex_to_bytes : Text → List ℕ → ℕ × List ℕ) where
  unfoldable pub read_options : List Flag → Start → Parsed
  read_options [] s = goes_on s
  read_options (flag_s ∷ os) s = read_options os (record s { dont_run_as_daemon = true })
  read_options (flag_c file ∷ os) s = read_options os (record s { config_file = file })
  read_options (flag_d flags ∷ os) s = read_options os s
  read_options (flag_r folder ∷ os) s = read_options os (record s { root_folder = folder })
  read_options (flag_k key ∷ os) s = read_options os (record s { key = (hex_to_bytes key s.key).1 })
  read_options (flag_g ∷ os) s = exits 0
  read_options (flag_v ∷ os) s = exits 0
  read_options (flag_h ∷ os) s = exits exit_minus_one
  read_options (other ∷ os) s = exits exit_minus_one

-- The status of the first option that ends the program.
abbrev pub first_status : List Flag → Option ℕ
first_status [] = none
first_status (flag_g ∷ os) = some 0
first_status (flag_v ∷ os) = some 0
first_status (flag_h ∷ os) = some exit_minus_one
first_status (other ∷ os) = some exit_minus_one
first_status (flag_s ∷ os) = first_status os
first_status (flag_c file ∷ os) = first_status os
first_status (flag_d flags ∷ os) = first_status os
first_status (flag_r folder ∷ os) = first_status os
first_status (flag_k key ∷ os) = first_status os

-- The last entry that a function picks, or a default.
abbrev pub last_of : {A : Type 0} → (Flag → Option A) → List Flag → A → A
last_of pick [] default = default
last_of pick (o ∷ os) default = last_of pick os (elim (pick o) [ none ↦ default | some a ↦ a ])

abbrev pub config_of : Flag → Option Text
config_of (flag_c file) = some file
config_of _ = none

abbrev pub root_of : Flag → Option Text
root_of (flag_r folder) = some folder
root_of _ = none

abbrev pub standalone_of : Flag → Option Bool
standalone_of flag_s = some true
standalone_of _ = none

-- The arguments of -k, in order.
abbrev pub keys_of : List Flag → List Text
keys_of [] = []
keys_of (flag_k key ∷ os) = key ∷ keys_of os
keys_of (_ ∷ os) = keys_of os

module _ (hex_to_bytes : Text → List ℕ → ℕ × List ℕ) where
  -- The array after the keys are read into it, one after the other.
  abbrev pub read_keys : List Text → List ℕ → List ℕ
  read_keys [] key = key
  read_keys (t ∷ ts) key = read_keys ts (hex_to_bytes t key).1

  -- The program ends on -g, -v, -h and an unknown option, with the status of the first of them.
  -- Without one, `main` goes on with the argument of the last -c, that of the last -r, in the
  -- foreground if there is a -s, and with the keys of all -k, one read over the other.
  pub read_options_lem :
      (os : List Flag) (s : Start)
      → read_options hex_to_bytes os s ≡ elim (first_status os) [
        | some status ↦ exits status
        | none ↦ goes_on (record {
          dont_run_as_daemon = last_of standalone_of os s.dont_run_as_daemon;
          config_file = last_of config_of os s.config_file;
          root_folder = last_of root_of os s.root_folder;
          key = read_keys (keys_of os) s.key;
        })
      ]
  unfolding read_options
  read_options_lem [] s = refl
  read_options_lem (flag_s ∷ os) s = read_options_lem os _
  read_options_lem (flag_c file ∷ os) s = read_options_lem os _
  read_options_lem (flag_d flags ∷ os) s = read_options_lem os s
  read_options_lem (flag_r folder ∷ os) s = read_options_lem os _
  read_options_lem (flag_k key ∷ os) s = read_options_lem os _
  read_options_lem (flag_g ∷ os) s = refl
  read_options_lem (flag_v ∷ os) s = refl
  read_options_lem (flag_h ∷ os) s = refl
  read_options_lem (other ∷ os) s = refl
