-- ===== src/Control/Json.antt =====
-- The JSON library as src/controlobject.cpp uses it, and how a function of readJSON can end.
use vscp_mqtt_daemon.Prelude.{ℕ, Bool, List, Option, Text}

-- `nlohmann::json`. `get<std::string>` throws unless `is_string`, and gives `text_of` then;
-- `get<bool>` throws unless `is_boolean`, and gives `is_true` then. `get` of an unsigned type throws
-- unless `is_number` or `is_boolean`: it casts `number_of`, or the truth value. `value` throws for a
-- value that is no object, or an entry of another type (`none`). `elements` are what an iterator
-- visits.
pub record JsonClass : Type 1 where
  pub J : Type 0
  pub contains_key : Text → J → Bool
  pub at : Text → J → J
  pub is_object : J → Bool
  pub is_string : J → Bool
  pub is_number : J → Bool
  pub is_boolean : J → Bool
  pub is_true : J → Bool
  pub text_of : J → Text
  pub number_of : J → ℕ
  pub elements : J → List J
  pub bool_value : Text → Bool → J → Option Bool

-- The function returns with a value; it returns `false`; or an exception leaves it.
pub data Outcome (A : Type 0) : Type 0 where
  done : A → Outcome A
  refused thrown : Outcome A

abbrev pub and_then : {A B : Type 0} → Outcome A → (A → Outcome B) → Outcome B
and_then (done a) k = k a
and_then refused k = refused
and_then thrown k = thrown
