-- ===== src/Discovery/Linear/Places.antt =====
-- The threads as a function from their numbers, one of which a step moves.
use vscp_mqtt_daemon.Prelude.{
  ℕ, Bool, true, false, Option, none, some, ◌==◌, ◌≡◌, ap, ◌∙◌, arith, inl, inr, Bool-cases,
}
use vscp_mqtt_daemon.Discovery.Threads.{Place, inside, update}

abbrev pub holds : Option ℕ → ℕ → Bool
holds none i = false
holds (some j) i = j == i

pub some-inj : {i j : ℕ} → some i ≡ some j → i ≡ j
some-inj e = ground arith

pub update-at : (place : ℕ → Place) (i j : ℕ) (p : Place) → i ≡ j → update place i p j ≡ p
update-at place i j p e = ground arith

pub update-other :
    (place : ℕ → Place) (i j : ℕ) (p : Place) → (i == j) ≡ false → update place i p j ≡ place j
update-other place i j p e = ground arith

pub update-cases :
    (place : ℕ → Place) (i j : ℕ) (p : Place) (holder : Option ℕ)
    → ((i == j) ≡ true → inside p ≡ holds holder j)
    → ((i == j) ≡ false → inside (place j) ≡ holds holder j)
    → inside (update place i p j) ≡ holds holder j
update-cases place i j p holder at_i at_other = elim (Bool-cases (i == j)) [
  | inl e ↦ ap inside (update-at place i j p (ground arith)) ∙ at_i e
  | inr e ↦ ap inside (update-other place i j p e) ∙ at_other e
]

pub update-holds :
    (place : ℕ → Place) (i j : ℕ) (p : Place) (holder : Option ℕ)
    → inside (place j) ≡ holds holder j
    → inside p ≡ inside (place i)
    → inside (update place i p j) ≡ holds holder j
update-holds place i j p holder fits same =
    update-cases place i j p holder (λ e. ground arith) (λ e. fits)
