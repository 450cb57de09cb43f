-- ===== src/Prelude/Shuffle.antt =====
-- Lists one after the other, and lists taken in turns.
use mathlib.Core.Path.{◌≡◌, refl, sym, ap, ◌∙◌}
use mathlib.Core.List.{List, [], ◌∷◌, ◌++◌, append_assoc}

module _ {ℓ} {A : Type ℓ} where
  -- All lists in a row.
  abbrev pub flat : List (List A) → List A
  flat [] = []
  flat (xs ∷ xss) = xs ++ flat xss

  pub flat-append : (xss yss : List (List A)) → flat (xss ++ yss) ≡ flat xss ++ flat yss
  flat-append [] yss = refl
  flat-append (xs ∷ xss) yss =
      ap (xs ++◌) (flat-append xss yss) ∙ sym (append_assoc xs (flat xss) (flat yss))

  -- The elements of all lists, each list's in its order, the lists taking turns in any way.
  pub data Shuffle : List (List A) → List A → Type ℓ where
    all_taken : {xss : List (List A)} → flat xss ≡ [] → Shuffle xss []
    take_next :
        {xss : List (List A)} (before : List (List A)) (x : A) (xs : List A)
        (behind : List (List A)) {ys : List A}
        → xss ≡ before ++ ((x ∷ xs) ∷ behind)
        → Shuffle (before ++ (xs ∷ behind)) ys
        → Shuffle xss (x ∷ ys)
