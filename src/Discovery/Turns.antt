-- ===== src/Discovery/Turns.antt =====
-- The GUIDs of events from several threads that take turns.
use mathlib.Core.List.{map-append}
use vscp_mqtt_daemon.Prelude.{
  Bool, ◌||◌, List, ◌∷◌, ◌++◌, map, Text, text_eq, ◌≡◌, refl, ap, ◌∙◌, arith,
}
use vscp_mqtt_daemon.Prelude.Shuffle.{flat, flat-append, Shuffle, all_taken, take_next}
use vscp_mqtt_daemon.Event.{VscpEvent}
use vscp_mqtt_daemon.Discovery.Database.{contains, contains-append}

module _ (g : VscpEvent → Text) (k : Text) where
  abbrev has_key : List VscpEvent → Bool
  has_key xs = contains k (map g xs)

  has_key-append : (xs ys : List VscpEvent) → has_key (xs ++ ys) ≡ (has_key xs || has_key ys)
  has_key-append xs ys =
      ap (contains k) (map-append g xs ys) ∙ contains-append k (map g xs) (map g ys)

  has_key-next :
      (before : List (List VscpEvent)) (x : VscpEvent) (xs : List VscpEvent)
      (behind : List (List VscpEvent))
      → has_key (flat (before ++ ((x ∷ xs) ∷ behind)))
        ≡ (text_eq (g x) k || has_key (flat (before ++ (xs ∷ behind))))
  has_key-next before x xs behind = ground (
    arith,
    flat-append before ((x ∷ xs) ∷ behind),
    flat-append before (xs ∷ behind),
    has_key-append (flat before) (x ∷ (xs ++ flat behind)),
    has_key-append (flat before) (xs ++ flat behind),
  )

  -- Taking turns neither loses nor invents a key.
  pub has_key-Shuffle :
      {xss : List (List VscpEvent)} {ys : List VscpEvent}
      → Shuffle xss ys
      → contains k (map g ys) ≡ contains k (map g (flat xss))
  has_key-Shuffle (all_taken e) = rw e refl
  has_key-Shuffle (take_next before x xs behind e s) =
      rw (e, has_key-next before x xs behind, has_key-Shuffle s) refl
