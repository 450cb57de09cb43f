-- ===== src/Tests/Settings.antt =====
-- The theorems on the configuration, on a small document.
use vscp_mqtt_daemon.Prelude.{
  ℕ, zero, suc, Bool, true, false, not, ◌&&◌, ◌||◌, List, [], ◌∷◌, Option, none, some, Text, bytes,
  text_eq, map, all, replicate, ◌≡◌, refl, if◌then◌else◌,
}
use vscp_mqtt_daemon.DeviceList.{add_item, find_from, filled_item, get_device_item_from_name}
use vscp_mqtt_daemon.Control.Json.{JsonClass, Outcome, done, refused, thrown}
use vscp_mqtt_daemon.Control.Config.{read_general}
use vscp_mqtt_daemon.Control.Drivers.{Helpers, Drivers, read_drivers}
use vscp_mqtt_daemon.Control.Settings.{has_text, text_at, mandatory_keys, read_general_lem}
use vscp_mqtt_daemon.Tests.Samples.{server_guid, driver_guid}

-- A text, a number, `true`, an object with its keys, or an array with its length.
pub data Doc : Type 0 where
  str : Text → Doc
  num : ℕ → Doc
  yes : Doc
  obj : (Text → Bool) → (Text → Doc) → Doc
  arr : ℕ → (ℕ → Doc) → Doc

abbrev contains_key : Text → Doc → Bool
contains_key key (obj has at) = has key
contains_key key _ = false

abbrev at_key : Text → Doc → Doc
at_key key (obj has at) = at key
at_key key _ = num 0

abbrev is_object : Doc → Bool
is_object (obj has at) = true
is_object _ = false

abbrev is_string : Doc → Bool
is_string (str s) = true
is_string _ = false

abbrev is_number : Doc → Bool
is_number (num n) = true
is_number _ = false

abbrev is_boolean : Doc → Bool
is_boolean yes = true
is_boolean _ = false

abbrev text_of : Doc → Text
text_of (str s) = s
text_of _ = []

abbrev number_of : Doc → ℕ
number_of (num n) = n
number_of _ = 0

abbrev entries : ℕ → (ℕ → Doc) → List Doc
entries zero at = []
entries (suc n) at = at n ∷ entries n at

abbrev elements : Doc → List Doc
elements (arr n at) = entries n at
elements _ = []

abbrev bool_of : Doc → Option Bool
bool_of yes = some true
bool_of _ = none

abbrev bool_value : Text → Bool → Doc → Option Bool
bool_value key default (obj has at) = if has key then bool_of (at key) else some default
bool_value key default _ = none

abbrev pub doc : JsonClass
doc = record {
  J = Doc;
  contains_key = contains_key;
  at = at_key;
  is_object = is_object;
  is_string = is_string;
  is_number = is_number;
  is_boolean = is_boolean;
  is_true = is_boolean;
  text_of = text_of;
  number_of = number_of;
  elements = elements;
  bool_value = bool_value;
}

abbrev pub helpers : Helpers
helpers = record {
  site = record {
    file_exists = λ path. true;
    nil_guid = replicate 16 0;
    server_guid = server_guid;
  };
  guid_of_text = λ t. driver_guid;
  read_string_value = λ t. 0;
}

-- An entry in which every field that is no object is a text.
abbrev pub entry_fields : Doc
entry_fields =
    obj (λ k. true)
      (λ k.
        if text_eq k (bytes "enable")
        then yes
        else if text_eq k (bytes "translation")
        then num 4
        else if text_eq k (bytes "mqtt")
        then obj (λ i. false) (λ i. num 0)
        else str (bytes "logger"))

abbrev pub document : Doc
document =
    obj (λ k. true)
      (λ k.
        if text_eq k (bytes "drivers")
        then obj (λ i. text_eq i (bytes "level1") || text_eq i (bytes "level2"))
            (λ i. arr (if text_eq i (bytes "level1") then 2 else 0) (λ n. entry_fields))
        else if text_eq k (bytes "mqtt")
        then obj (λ i. text_eq i (bytes "topic-drivers")) (λ i. str (bytes "mine"))
        else str (bytes "vscp"))

abbrev no_drivers : Drivers doc
no_drivers = record { devices = []; configured = [] }

abbrev pub takes : Doc → Bool
takes d = true

abbrev positions : Outcome (Drivers doc) → List ℕ
positions (done s) = map (λ c. c.0) s.configured
positions refused = []
positions thrown = []

-- Both entries have the same name, and configure the client of the first driver.
two_entries : positions (read_drivers doc helpers takes document no_drivers) ≡ 0 ∷ 0 ∷ []
unfolding read_drivers add_item filled_item get_device_item_from_name find_from text_eq
two_entries = refl

read_general_lem_example : read_general doc document ≡ (
    if all (has_text doc document) (mandatory_keys doc)
      && (not (contains_key (bytes "vscpkey") document)
          || is_string (at_key (bytes "vscpkey") document))
    then done (record {
      run_as_user = text_at doc (bytes "runasuser") document;
      guid = text_at doc (bytes "guid") document;
      server_name = text_at doc (bytes "servername") document;
      class_type_db = text_at doc (bytes "classtypedb") document;
      main_db = text_at doc (bytes "maindb") document;
    })
    else refused)
read_general_lem_example = read_general_lem doc document
