-- ===== src/Prelude/Bits.antt =====
-- Clearing a masked field of a word and writing a value into it, for every width.
use Prim.Native.Nat.{
  ℕ, zero, suc, ◌+◌, ◌-◌, ◌*◌, ◌/◌, ◌%◌, ◌^◌, ◌≤◌, ◌<◌, min, max, bit_and, bit_or, digits,
  bit_and-bitwise, bit_or-bitwise,
}
use mathlib.Core.Path.{◌≡◌, refl}
use native.Mathlib.Omega.{arith}
use native.Mathlib.Nat.{pow-suc}

-- The digit recursions behind the native operations do not depend on their bound.
module _ (tail : ℕ → ℕ) (digit : ℕ → ℕ → ℕ) where
  digits_bound : (n m a b : ℕ) → a ≤ n → a ≤ m → digits tail digit n a b ≡ digits tail digit m a b
  digits_bound zero zero a b p q = refl
  digits_bound zero (suc m) zero b p q = refl
  digits_bound zero (suc m) (suc a) b p q = absurd (omega arith)
  digits_bound (suc n) zero zero b p q = refl
  digits_bound (suc n) zero (suc a) b p q = absurd (omega arith)
  digits_bound (suc n) (suc m) zero b p q = refl
  digits_bound (suc n) (suc m) (suc a) b p q =
      omega (arith, digits_bound n m (suc a / 2) (b / 2) (omega arith) (omega arith))

pub bit_and_digit : (a b : ℕ) → bit_and a b ≡ bit_and (a / 2) (b / 2) * 2 + min (a % 2) (b % 2)
bit_and_digit zero b = omega (arith, bit_and-bitwise 0 b, bit_and-bitwise 0 (b / 2))
bit_and_digit (suc a) b = omega (
  arith,
  bit_and-bitwise (suc a) b,
  bit_and-bitwise (suc a / 2) (b / 2),
  digits_bound (λ _. zero) min a (suc a / 2) (suc a / 2) (b / 2) (omega arith) (omega arith),
)

bit_or_digit : (a b : ℕ) → bit_or a b ≡ bit_or (a / 2) (b / 2) * 2 + max (a % 2) (b % 2)
bit_or_digit zero b = omega (arith, bit_or-bitwise 0 b, bit_or-bitwise 0 (b / 2))
bit_or_digit (suc a) b = omega (
  arith,
  bit_or-bitwise (suc a) b,
  bit_or-bitwise (suc a / 2) (b / 2),
  digits_bound (λ x. x) max a (suc a / 2) (suc a / 2) (b / 2) (omega arith) (omega arith),
)

bit_and-le_fuel : (n a b : ℕ) → a ≤ n → bit_and a b ≤ b
bit_and-le_fuel n zero b h = omega (arith, bit_and-bitwise 0 b)
bit_and-le_fuel zero (suc a) b h = absurd (omega arith)
bit_and-le_fuel (suc n) (suc a) b h =
    omega (arith, bit_and_digit (suc a) b, bit_and-le_fuel n (suc a / 2) (b / 2) (omega arith))

pub bit_and-le : (a b : ℕ) → bit_and a b ≤ b
bit_and-le a b = bit_and-le_fuel a a b (omega arith)

-- The upper digits of a result, with the operands known.
bit_and-half : (a b c : ℕ) → b / 2 ≡ c → bit_and a b / 2 ≡ bit_and (a / 2) c
bit_and-half a b c e = rw (← e) (omega (arith, bit_and_digit a b))

bit_or-half : (a b c : ℕ) → a / 2 ≡ c → bit_or a b / 2 ≡ bit_or c (b / 2)
bit_or-half a b c e = rw (← e) (omega (arith, bit_or_digit a b))

-- The word `x` of `w` bits with the field under the mask `m` replaced by `u`.
abbrev pub write_field : ℕ → ℕ → ℕ → ℕ → ℕ
write_field w x m u = bit_or (bit_and x (2 ^ w - 1 - m)) u

-- What is read back through the mask.
pub bit_and-write_field :
    (w x m u : ℕ) → m < 2 ^ w → bit_and u m ≡ u → bit_and (write_field w x m u) m ≡ u
bit_and-write_field zero x m u h e =
    omega (arith, bit_and-le (write_field zero x m u) m, bit_and-le u m)
bit_and-write_field (suc w) x m u h e = omega (
  arith,
  bit_and_digit (write_field (suc w) x m u) m,
  bit_or_digit (bit_and x (2 ^ suc w - 1 - m)) u,
  bit_and_digit x (2 ^ suc w - 1 - m),
  bit_and_digit u m,
  pow-suc 2 w,
  raise (bit_and-write_field w (x / 2) (m / 2) (u / 2) (omega (arith, pow-suc 2 w)) field),
)
  where
    cleared : (2 ^ suc w - 1 - m) / 2 ≡ 2 ^ w - 1 - m / 2
    cleared = omega (arith, pow-suc 2 w)

    upper : write_field (suc w) x m u / 2 ≡ write_field w (x / 2) (m / 2) (u / 2)
    upper =
        bit_or-half (bit_and x (2 ^ suc w - 1 - m)) u _
          (bit_and-half x (2 ^ suc w - 1 - m) _ cleared)

    field : bit_and (u / 2) (m / 2) ≡ u / 2
    field = omega (arith, bit_and_digit u m)

    raise :
        bit_and (write_field w (x / 2) (m / 2) (u / 2)) (m / 2) ≡ u / 2
        → bit_and (write_field (suc w) x m u / 2) (m / 2) ≡ u / 2
    raise ih = rw upper ih
