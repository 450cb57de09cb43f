-- ===== src/Control/Settings.antt =====
-- Which configurations are accepted, what topics they set, and what list of drivers they give.
use vscp_mqtt_daemon.Prelude.{
  Bool, true, false, not, ◌&&◌, ◌||◌, List, [], ◌∷◌, ◌++◌, Text, bytes, length, all, ◌==◌, ◌≡◌,
  arith, if_cases, if◌then◌else◌,
}
use vscp_mqtt_daemon.Control.Json.{JsonClass, Outcome, done, refused, thrown, and_then}
use vscp_mqtt_daemon.Control.Config.{Topics, mandatory, read_general, optional, read_mqtt}

-- A property of the result, if the function returns with one.
abbrev pub WhenDone {ℓ} : {A : Type 0} → (A → Type ℓ) → Outcome A → Type ℓ
WhenDone P (done a) = P a
WhenDone P refused = Unit
WhenDone P thrown = Unit

abbrev pub is_done : {A : Type 0} → Outcome A → Bool
is_done (done a) = true
is_done refused = false
is_done thrown = false

pub and_then-WhenDone {ℓ κ} :
    {A B : Type 0} (P : A → Type ℓ) (Q : B → Type κ) (o : Outcome A) (k : A → Outcome B)
    → WhenDone P o
    → ((a : A) → P a → WhenDone Q (k a))
    → WhenDone Q (and_then o k)
and_then-WhenDone P Q (done a) k p q = q a p
and_then-WhenDone P Q refused k p q = tt
and_then-WhenDone P Q thrown k p q = tt

-- Nothing is known of the result.
pub anything : {A : Type 0} (o : Outcome A) → WhenDone (λ _. Unit {0}) o
anything (done a) = tt
anything refused = tt
anything thrown = tt

module _ (C : JsonClass) where
  abbrev pub has_text : C.J → Text → Bool
  has_text j key = C.contains_key key j && C.is_string (C.at key j)

  abbrev pub mandatory_keys : List Text
  mandatory_keys =
      bytes "runasuser"
      ∷ bytes "guid"
      ∷ bytes "servername"
      ∷ bytes "classtypedb"
      ∷ bytes "maindb"
      ∷ []

  -- The text of a field that is there.
  abbrev pub text_at : Text → C.J → Text
  text_at key j = C.text_of (C.at key j)

  -- The general part is accepted exactly if the five mandatory fields are there and are strings, and
  -- the path of the key, if it is there, is a string. The result then has the text of each field, and
  -- if the part is not accepted the function returns false: no exception leaves it.
  pub read_general_lem :
      (j : C.J)
      → read_general C j ≡ (
          if all (has_text j) mandatory_keys
            && (not (C.contains_key (bytes "vscpkey") j) || C.is_string (C.at (bytes "vscpkey") j))
          then done (record {
            run_as_user = text_at (bytes "runasuser") j;
            guid = text_at (bytes "guid") j;
            server_name = text_at (bytes "servername") j;
            class_type_db = text_at (bytes "classtypedb") j;
            main_db = text_at (bytes "maindb") j;
          })
          else refused)
  unfolding read_general mandatory
  read_general_lem j = ground arith

  -- The text of a field, or the default if it is not there.
  abbrev pub text_or : Text → Text → C.J → Text
  text_or key default j = if C.contains_key key j then C.text_of (C.at key j) else default

  optional-WhenDone :
      (key default : Text) (j : C.J)
      → WhenDone (λ x. x ≡ text_or key default j) (optional C key default j)
  unfolding optional
  optional-WhenDone key default j = ground arith

  -- The topics that the fields give, with the base in front where there is one.
  based : (base drivers discovery : Text) → Outcome Topics
  based base drivers discovery =
      if length base == 0
      then done (record { daemon_base = base; drivers = drivers; discovery = discovery })
      else done
          (record { daemon_base = base; drivers = base ++ drivers; discovery = base ++ discovery })

  three_topics :
      (ob od oc : Outcome Text) (xb xd xc : Text)
      → WhenDone (λ x. x ≡ xb) ob
      → WhenDone (λ x. x ≡ xd) od
      → WhenDone (λ x. x ≡ xc) oc
      → WhenDone
          (λ (r : Topics).
            (r.daemon_base ≡ xb)
            × (r.drivers ≡ r.daemon_base ++ xd)
            × (r.discovery ≡ r.daemon_base ++ xc))
          (and_then ob (λ base.
            and_then od (λ drivers. and_then oc (λ discovery. based base drivers discovery))))
  unfolding based
  three_topics refused od oc xb xd xc p q r = tt
  three_topics thrown od oc xb xd xc p q r = tt
  three_topics (done b) refused oc xb xd xc p q r = tt
  three_topics (done b) thrown oc xb xd xc p q r = tt
  three_topics (done b) (done d) refused xb xd xc p q r = tt
  three_topics (done b) (done d) thrown xb xd xc p q r = tt
  three_topics (done []) (done d) (done c) xb xd xc p q r = (p, q, r)
  three_topics (done (x ∷ b)) (done d) (done c) xb xd xc p q r = ground arith

  -- If a configuration with an MQTT object is accepted, the base is that of the configuration or the
  -- one before, and it stands in front of both topics, of the configured ones as well as of the ones
  -- before.
  pub read_mqtt_topics :
      (init_from_json : C.J → Bool) (j : C.J) (t : Topics)
      → C.contains_key (bytes "mqtt") j ≡ true
      → C.is_object (C.at (bytes "mqtt") j) ≡ true
      → let m = C.at (bytes "mqtt") j in
        WhenDone
          (λ (r : Topics).
            (r.daemon_base ≡ text_or (bytes "topic-daemon-base") t.daemon_base m)
            × (r.drivers ≡ r.daemon_base ++ text_or (bytes "topic-drivers") t.drivers m)
            × (r.discovery ≡ r.daemon_base ++ text_or (bytes "topic-discovery") t.discovery m))
          (read_mqtt C init_from_json j t)
  unfolding read_mqtt based
  read_mqtt_topics init_from_json j t e o =
      let m = C.at (bytes "mqtt") j in
      rw (read_mqtt, e, o)
        (if_cases
          (WhenDone (λ (r : Topics).
            (r.daemon_base ≡ text_or (bytes "topic-daemon-base") t.daemon_base m)
            × (r.drivers ≡ r.daemon_base ++ text_or (bytes "topic-drivers") t.drivers m)
            × (r.discovery ≡ r.daemon_base ++ text_or (bytes "topic-discovery") t.discovery m)))
          (init_from_json m)
          (λ _.
            three_topics (optional C (bytes "topic-daemon-base") t.daemon_base m)
              (optional C (bytes "topic-drivers") t.drivers m)
              (optional C (bytes "topic-discovery") t.discovery m) _ _ _
              (optional-WhenDone (bytes "topic-daemon-base") t.daemon_base m)
              (optional-WhenDone (bytes "topic-drivers") t.drivers m)
              (optional-WhenDone (bytes "topic-discovery") t.discovery m))
          (λ _. tt))
