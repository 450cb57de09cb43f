-- ===== src/Tests/Server.antt =====
-- The theorems on the control object: tokens and addresses.
use vscp_mqtt_daemon.Prelude.{
  ℕ, ◌+◌, ◌*◌, ◌%◌, true, [], ◌∷◌, Option, some, Text, bytes, replicate, pos, ◌==◌, ◌≡◌, refl,
  arith, if◌then◌else◌,
}
use vscp_mqtt_daemon.Control.Tokens.{
  TokenDb, Tokens, no_tokens, init_tokens, get_token_from_class_id, get_token_from_type_id,
}
use vscp_mqtt_daemon.Control.TokenLookup.{
  last_token, is_class, is_type, opened_db, all_classes, all_types, get_token-init_tokens,
}
use vscp_mqtt_daemon.Control.Address.{GuidClass, get_ip_address}
use vscp_mqtt_daemon.Control.HostGuid.{IsGuidClass, byte_at, address_bytes, get_ip_address_lem}

-- Two rows for class 20, and one type of it.
abbrev token_db : TokenDb
token_db = record {
  classes = some (
      record { vscp_class = pos 20; name = []; token = bytes "OLD" }
      ∷ record { vscp_class = pos 20; name = []; token = bytes "VSCP_CLASS1_INFORMATION" }
      ∷ []);
  types = some (
      record {
        vscp_type = pos 9;
        link_to_class = pos 20;
        token = bytes "VSCP_TYPE_INFORMATION_NODE_HEARTBEAT";
      }
      ∷ []);
}

abbrev pub opened : Text → Option TokenDb
opened path = some token_db

abbrev tokens : Tokens
tokens = init_tokens (bytes "/vscp.sqlite3") opened no_tokens

get_token-init_tokens_example :
    let db = opened_db (bytes "/vscp.sqlite3") opened in
    ((get_token_from_class_id 20 tokens).0
      ≡ last_token (is_class 20) (λ r. r.token) (all_classes db) [])
    × ((get_token_from_type_id 20 9 tokens).0
        ≡ last_token (is_type 20 9) (λ r. r.token) (all_types db) [])
get_token-init_tokens_example =
    get_token-init_tokens (bytes "/vscp.sqlite3") opened 20 9 (omega arith) (omega arith)

-- A GUID as the function of its bytes.
abbrev pub guid_class : GuidClass
guid_class = record {
  G = ℕ → ℕ;
  clear = λ i. 0;
  set_at = λ j b g i. if i == j then b % 256 else g i;
  get_at = λ i g. g i;
}

pub guid_class-IsGuidClass : IsGuidClass guid_class
guid_class-IsGuidClass = record { set_law = λ i j b g hi hj. refl }

-- 192.168.1.5 on a machine that stores the least significant byte first.
abbrev word : ℕ
word = 192 + 256 * 168 + 65536 * 1 + 16777216 * 5 + 4294967296 * 0

get_ip_address_lem_example :
    let (result, g) = get_ip_address guid_class (0 ∷ replicate 15 0) (some (word ∷ [])) in
    (result ≡ true) × (guid_class.get_at 8 g ≡ byte_at 8 (address_bytes word))
get_ip_address_lem_example =
    get_ip_address_lem guid_class guid_class-IsGuidClass 0 (replicate 15 0) (word ∷ []) 8
      (omega arith) (omega arith)
