-- ===== src/Prelude/Checks.antt =====
-- A list of calls against a state that allows each of them or not.
use mathlib.Core.Path.{◌≡◌}
use mathlib.Core.Option.{Option, none, some}
use mathlib.Core.List.{List, [], ◌∷◌, ◌++◌}
use native.Mathlib.Omega.{arith}
use vscp_mqtt_daemon.Prelude.Tests.{Option-cases}
use mathlib.Core.Logic.{inl, inr}

-- The rest of a chain of calls, if the one before it succeeded.
abbrev pub and_then {ℓ κ} : {A : Type ℓ} {B : Type κ} → Option A → (A → Option B) → Option B
and_then none k = none
and_then (some a) k = k a

module _ {ℓ κ} {S : Type ℓ} {C : Type κ} (step : S → C → Option S) where
  -- All calls in a row, up to the first that is not allowed.
  abbrev pub check_all : S → List C → Option S
  check_all s [] = some s
  check_all s (c ∷ cs) = and_then (step s c) (λ t. check_all t cs)

  pub check_all-append :
      (s t : S) (cs ds : List C) → check_all s cs ≡ some t → check_all s (cs ++ ds) ≡ check_all t ds
  check_all-append s t [] ds e = ground arith
  check_all-append s t (c ∷ cs) ds e = elim (Option-cases (step s c)) [
    | inl f ↦ absurd (ground arith)
    | inr (u, f) ↦ rw f (check_all-append u t cs ds (rw f at e))
  ]
