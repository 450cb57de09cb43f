-- ===== src/Control/LogLevels.antt =====
-- Which level a text sets, and what reading the block on logging keeps.
use vscp_mqtt_daemon.Prelude.{
  true, List, [], ◌∷◌, ◌++◌, Text, bytes, ◌≡◌, ◌⊎◌, inl, inr, refl, arith, if◌then◌else◌,
  Bool-cases,
}
use vscp_mqtt_daemon.Control.Logging.{
  LogLevel, trace, debug, info, warn, err, critical, off, starts_with, found, log_level,
}

-- The first text stands somewhere in the second.
abbrev pub StandsIn : Text → Text → Type 0
StandsIn sub s = (before : Text) × (after : Text) × (s ≡ before ++ (sub ++ after))

starts_with-append : (sub after : Text) → starts_with sub (sub ++ after) ≡ true
unfolding starts_with
starts_with-append [] after = refl
starts_with-append (c ∷ sub) after = ground (arith, starts_with-append sub after)

starts_with_rest : (sub s : Text) → starts_with sub s ≡ true → (after : Text) × (s ≡ sub ++ after)
unfolding starts_with
starts_with_rest [] s h = (s, refl)
starts_with_rest (c ∷ sub) [] h = ground arith
starts_with_rest (c ∷ sub) (x ∷ s) h =
    let (after, e) = starts_with_rest sub s (ground arith) in (after, ground arith)

found-append : (sub before after : Text) → found sub (before ++ (sub ++ after)) ≡ true
unfolding found starts_with
found-append [] [] [] = refl
found-append [] [] (x ∷ after) = refl
found-append (c ∷ sub) [] after = ground (arith, starts_with-append (c ∷ sub) after)
found-append sub (x ∷ before) after = ground (arith, found-append sub before after)

found-StandsIn : (sub s : Text) → found sub s ≡ true → StandsIn sub s
unfolding found
found-StandsIn sub [] h = let (after, e) = starts_with_rest sub [] h in ([], after, e)
found-StandsIn sub (x ∷ s) h = elim (Bool-cases (starts_with sub (x ∷ s))) [
  | inl e ↦ let (after, p) = starts_with_rest sub (x ∷ s) e in ([], after, p)
  | inr e ↦
      let (before, after, p) = found-StandsIn sub s (ground arith) in
      (x ∷ before, after, ground arith)
]

-- The names in the order in which the code looks for them.
abbrev pub level_names : List (Text × LogLevel)
level_names =
    (bytes "off", off)
    ∷ (bytes "critical", critical)
    ∷ (bytes "err", err)
    ∷ (bytes "warn", warn)
    ∷ (bytes "info", info)
    ∷ (bytes "debug", debug)
    ∷ (bytes "trace", trace)
    ∷ []

-- `l` is the level of the first of the names that stands in the text, or `old` if none does.
abbrev pub IsLevelOf : List (Text × LogLevel) → Text → LogLevel → LogLevel → Type 0
IsLevelOf [] s old l = l ≡ old
IsLevelOf ((name, k) ∷ names) s old l =
    (StandsIn name s × (l ≡ k)) ⊎ ((StandsIn name s → ⊥) × IsLevelOf names s old l)

-- The search as a loop over names.
abbrev first_level : List (Text × LogLevel) → Text → LogLevel → LogLevel
first_level [] s old = old
first_level ((name, k) ∷ names) s old = if found name s then k else first_level names s old

first_level-IsLevelOf :
    (names : List (Text × LogLevel)) (s : Text) (old : LogLevel)
    → IsLevelOf names s old (first_level names s old)
first_level-IsLevelOf [] s old = refl
first_level-IsLevelOf ((name, k) ∷ names) s old = elim (Bool-cases (found name s)) [
  | inl e ↦ rw e (inl (found-StandsIn name s e, refl))
  | inr e ↦ rw e (
      inr (
        λ (before, after, p). ground (arith, found-append name before after),
        first_level-IsLevelOf names s old,
      ))
]

-- A text sets the level of the first name, from `off` down to `trace`, that stands anywhere in it,
-- and a text with none of the names keeps the level that was set before.
pub log_level-IsLevelOf :
    (s : Text) (old : LogLevel) → IsLevelOf level_names s old (log_level s old)
unfolding log_level
log_level-IsLevelOf s old = first_level-IsLevelOf level_names s old
