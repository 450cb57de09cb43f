-- ===== src/Control/TokenLookup.antt =====
-- What the tokens of Control.Tokens are looked up as.
use vscp_mqtt_daemon.Prelude.{
  ℕ, ◌<◌, Bool, ◌&&◌, List, [], ◌∷◌, Option, none, some, Text, length, ℤ, pos, negsuc, to_u16, ◌==◌,
  ==_iff, ◌≡◌, refl, arith, ap, ◌∙◌, if◌then◌else◌,
}
use vscp_mqtt_daemon.Prelude.Dict.{lookup, insert, lookup-insert}
use vscp_mqtt_daemon.Control.Tokens.{
  ClassRow, TypeRow, TokenDb, Tokens, no_tokens, type_key, read_classes, row_key, read_types,
  rows_of, init_tokens, find_token, get_token_from_class_id, get_token_from_type_id,
}

-- The token of the last row that passes the test, or `s`.
abbrev pub last_token {ℓ} : {R : Type ℓ} → (R → Bool) → (R → Text) → List R → Text → Text
last_token p token [] s = s
last_token p token (r ∷ rs) s = last_token p token rs (if p r then token r else s)

abbrev or_empty : Option Text → Text
or_empty none = []
or_empty (some s) = s

abbrev pub is_class : ℕ → ClassRow → Bool
is_class c row = to_u16 row.vscp_class == c

abbrev pub is_type : ℕ → ℕ → TypeRow → Bool
is_type c t row = to_u16 row.link_to_class == c && to_u16 row.vscp_type == t

to_u16-bound : (z : ℤ) → to_u16 z < 65536
to_u16-bound (pos n) = omega arith
to_u16-bound (negsuc n) = omega arith

type_key-eq :
    (c t d u : ℕ)
    → c < 65536
    → t < 65536
    → d < 65536
    → u < 65536
    → (type_key c t == type_key d u) ≡ (c == d && t == u)
unfolding type_key
type_key-eq c t d u hc ht hd hu = ground arith

insert_type :
    (row : TypeRow) (m : List (ℕ × Text)) (c u : ℕ)
    → c < 65536
    → u < 65536
    → or_empty (lookup ◌==◌ (type_key c u) (insert ◌==◌ (row_key row) row.token m))
      ≡ (if is_type c u row then row.token else or_empty (lookup ◌==◌ (type_key c u) m))
insert_type row m c u hc hu = ground (
  arith,
  lookup-insert ◌==◌ ==_iff (row_key row) (type_key c u) row.token m,
  type_key-eq (to_u16 row.link_to_class) (to_u16 row.vscp_type) c u (to_u16-bound _)
      (to_u16-bound _) hc hu,
)

insert_class :
    (row : ClassRow) (m : List (ℕ × Text)) (c : ℕ)
    → or_empty (lookup ◌==◌ c (insert ◌==◌ (to_u16 row.vscp_class) row.token m))
      ≡ (if is_class c row then row.token else or_empty (lookup ◌==◌ c m))
insert_class row m c =
    ground (arith, lookup-insert ◌==◌ ==_iff (to_u16 row.vscp_class) c row.token m)

read_types-lookup :
    (rows : List TypeRow) (t : Tokens) (c u : ℕ)
    → c < 65536
    → u < 65536
    → or_empty (lookup ◌==◌ (type_key c u) (read_types rows t).type_id_to_token)
      ≡ last_token
          (is_type c u)
          (λ r. r.token)
          rows
          (or_empty (lookup ◌==◌ (type_key c u) t.type_id_to_token))
unfolding read_types
read_types-lookup [] t c u hc hu = refl
read_types-lookup (row ∷ rows) t c u hc hu =
    read_types-lookup rows _ c u hc hu
    ∙ ap (last_token (is_type c u) (λ r. r.token) rows)
        (insert_type row t.type_id_to_token c u hc hu)

read_classes-lookup :
    (rows : List ClassRow) (t : Tokens) (c : ℕ)
    → or_empty (lookup ◌==◌ c (read_classes rows t).class_id_to_token)
      ≡ last_token (is_class c) (λ r. r.token) rows (or_empty (lookup ◌==◌ c t.class_id_to_token))
unfolding read_classes
read_classes-lookup [] t c = refl
read_classes-lookup (row ∷ rows) t c =
    read_classes-lookup rows _ c
    ∙ ap (last_token (is_class c) (λ r. r.token) rows) (insert_class row t.class_id_to_token c)

read_classes_types :
    (rows : List ClassRow) (t : Tokens)
    → (read_classes rows t).type_id_to_token ≡ t.type_id_to_token
unfolding read_classes
read_classes_types [] t = refl
read_classes_types (row ∷ rows) t = read_classes_types rows _

read_types_classes :
    (rows : List TypeRow) (t : Tokens) → (read_types rows t).class_id_to_token ≡ t.class_id_to_token
unfolding read_types
read_types_classes [] t = refl
read_types_classes (row ∷ rows) t = read_types_classes rows _

get_class-lookup :
    (c : ℕ) (t : Tokens)
    → (get_token_from_class_id c t).0 ≡ or_empty (lookup ◌==◌ c t.class_id_to_token)
unfolding get_token_from_class_id find_token
get_class-lookup c t = ground arith

get_type-lookup :
    (c u : ℕ) (t : Tokens)
    → (get_token_from_type_id c u t).0 ≡ or_empty (lookup ◌==◌ (type_key c u) t.type_id_to_token)
unfolding get_token_from_type_id find_token
get_type-lookup c u t = ground arith

-- The database that is read, if there is one.
abbrev pub opened_db : Text → (Text → Option TokenDb) → Option TokenDb
opened_db path opened = if length path == 0 then none else opened path

abbrev pub all_classes : Option TokenDb → List ClassRow
all_classes none = []
all_classes (some db) = rows_of db.classes

abbrev pub all_types : Option TokenDb → List TypeRow
all_types none = []
all_types (some db) = rows_of db.types

init_tokens-opened_db :
    (path : Text) (opened : Text → Option TokenDb) (t : Tokens)
    → init_tokens path opened t ≡ (
        let db = opened_db path opened in
        read_types (all_types db) (read_classes (all_classes db) t))
unfolding init_tokens read_types read_classes
init_tokens-opened_db path opened t = ground arith

-- After `init`, a class has the token of the last row for it in the class table, and a class with a
-- type the token of the last row that has both in the type table; the key in which the two numbers
-- are packed never confuses two pairs. A number without a row, as any if there is no database or a
-- query fails, has the empty token.
pub get_token-init_tokens :
    (path : Text) (opened : Text → Option TokenDb) (c u : ℕ)
    → c < 65536
    → u < 65536
    → let t = init_tokens path opened no_tokens in
      let db = opened_db path opened in
      ((get_token_from_class_id c t).0 ≡ last_token (is_class c) (λ r. r.token) (all_classes db) [])
      × ((get_token_from_type_id c u t).0
          ≡ last_token (is_type c u) (λ r. r.token) (all_types db) [])
unfolding lookup
get_token-init_tokens path opened c u hc hu =
    let db = opened_db path opened in
    let known = read_classes (all_classes db) no_tokens in
    rw (init_tokens-opened_db path opened no_tokens) (
      (get_class-lookup c (read_types (all_types db) known)
          ∙ (ap (λ m. or_empty (lookup ◌==◌ c m)) (read_types_classes (all_types db) known)
              ∙ read_classes-lookup (all_classes db) no_tokens c)),
      (get_type-lookup c u (read_types (all_types db) known)
          ∙ (read_types-lookup (all_types db) known c u hc hu
              ∙ ap
                  (λ m.
                    last_token (is_type c u) (λ r. r.token) (all_types db)
                      (or_empty (lookup ◌==◌ (type_key c u) m)))
                  (read_classes_types (all_classes db) no_tokens))),
    )

find_token_after :
    (c d : ℕ) (m : List (ℕ × Text)) → (find_token c (find_token d m).1).0 ≡ (find_token c m).0
unfolding find_token
find_token_after c d m = ground (arith, lookup-insert ◌==◌ ==_iff d c [] m)

-- A lookup may add an entry, but no later lookup of a class or a type sees it.
pub get_token_after :
    (c u d w : ℕ) (t : Tokens)
    → let after_class = (get_token_from_class_id d t).1 in
      let after_type = (get_token_from_type_id d w t).1 in
      ((get_token_from_class_id c after_class).0 ≡ (get_token_from_class_id c t).0)
      × ((get_token_from_class_id c after_type).0 ≡ (get_token_from_class_id c t).0)
      × ((get_token_from_type_id c u after_class).0 ≡ (get_token_from_type_id c u t).0)
      × ((get_token_from_type_id c u after_type).0 ≡ (get_token_from_type_id c u t).0)
unfolding get_token_from_class_id get_token_from_type_id
get_token_after c u d w t = (
  find_token_after c d t.class_id_to_token,
  refl,
  refl,
  find_token_after (type_key c u) (type_key d w) t.type_id_to_token,
)
