-- ===== src/Control/Tokens.antt =====
-- src/controlobject.cpp and src/controlobject.h: the tokens of classes and types, as `init` reads
-- them from the class and type database, and the functions that look them up. The database is an
-- argument: what its queries give, `none` if one of them cannot be prepared.
use vscp_mqtt_daemon.Prelude.{
  ℕ, ◌+◌, ◌*◌, ◌%◌, List, [], ◌∷◌, Option, none, some, Text, text_eq, length, ℤ, to_u16, ◌==◌,
  if◌then◌else◌,
}
use vscp_mqtt_daemon.Prelude.Dict.{lookup, insert}

pub record ClassRow : Type 0 where
  pub vscp_class : ℤ
  pub name : Text
  pub token : Text

pub record TypeRow : Type 0 where
  pub vscp_type : ℤ
  pub link_to_class : ℤ
  pub token : Text

pub record TokenDb : Type 0 where
  pub classes : Option (List ClassRow)
  pub types : Option (List TypeRow)

-- The four maps of the control object.
pub record Tokens : Type 0 where
  pub class_id_to_token : List (ℕ × Text)
  pub class_token_to_id : List (Text × ℕ)
  pub type_id_to_token : List (ℕ × Text)
  pub type_token_to_id : List (Text × ℕ)

abbrev pub no_tokens : Tokens
no_tokens = record {
  class_id_to_token = [];
  class_token_to_id = [];
  type_id_to_token = [];
  type_token_to_id = [];
}

-- `(link_to_class << 16) + vscp_type`, as a uint32_t.
unfoldable pub type_key : ℕ → ℕ → ℕ
type_key vscp_class vscp_type = (vscp_class * 65536 + vscp_type) % 4294967296

unfoldable pub read_classes : List ClassRow → Tokens → Tokens
read_classes [] t = t
read_classes (row ∷ rows) t = read_classes rows (record t {
  class_id_to_token = insert ◌==◌ (to_u16 row.vscp_class) row.token t.class_id_to_token;
  class_token_to_id = insert text_eq row.token (to_u16 row.vscp_class) t.class_token_to_id;
})

abbrev pub row_key : TypeRow → ℕ
row_key row = type_key (to_u16 row.link_to_class) (to_u16 row.vscp_type)

unfoldable pub read_types : List TypeRow → Tokens → Tokens
read_types [] t = t
read_types (row ∷ rows) t = read_types rows (record t {
  type_id_to_token = insert ◌==◌ (row_key row) row.token t.type_id_to_token;
  type_token_to_id = insert text_eq row.token (row_key row) t.type_token_to_id;
})

-- The rows of a query; none if it cannot be prepared.
abbrev pub rows_of {ℓ} : {A : Type ℓ} → Option (List A) → List A
rows_of none = []
rows_of (some rows) = rows

-- `opened` says how `sqlite3_open` ends for a path.
unfoldable pub init_tokens : Text → (Text → Option TokenDb) → Tokens → Tokens
init_tokens path opened t = if length path == 0 then t else elim (opened path) [
  | none ↦ t
  | some db ↦ read_types (rows_of db.types) (read_classes (rows_of db.classes) t)
]

-- `map[id]`, which adds an empty text for an id that has none.
unfoldable pub find_token : ℕ → List (ℕ × Text) → Text × List (ℕ × Text)
find_token id m = elim (lookup ◌==◌ id m) [ none ↦ ([], insert ◌==◌ id [] m) | some s ↦ (s, m) ]

unfoldable pub get_token_from_class_id : ℕ → Tokens → Text × Tokens
unfolding find_token
get_token_from_class_id id t =
    let (s, m) = find_token id t.class_id_to_token in (s, record t { class_id_to_token = m })

unfoldable pub get_token_from_type_id : ℕ → ℕ → Tokens → Text × Tokens
unfolding find_token type_key
get_token_from_type_id cid tid t =
    let (s, m) = find_token (type_key cid tid) t.type_id_to_token in
    (s, record t { type_id_to_token = m })
