-- ===== src/Common/Bits.antt =====
-- Shifts, `|` of disjoint fields and `&` with a low mask, as arithmetic at every width.
use Prim.Native.Nat.{
  ℕ, zero, suc, ◌+◌, ◌-◌, ◌*◌, ◌/◌, ◌%◌, ◌^◌, ◌≤◌, ◌<◌, min, max, bit_and, bit_or, digits, bitwise,
  bit_and-bitwise, bit_or-bitwise,
}
use mathlib.Core.Path.{◌≡◌, refl, ap}
use native.Mathlib.Nat.{pow-suc, one-le-pow}
use native.Mathlib.Omega.{arith}

-- `x << k` and `x >> k` on Python's non-negative integers.
abbrev pub shl : ℕ → ℕ → ℕ
shl x k = x * 2 ^ k

abbrev pub shr : ℕ → ℕ → ℕ
shr x k = x / 2 ^ k

-- Any two amounts of fuel that cover the first argument give the same digits.
module _ (stop : ℕ → ℕ) (digit : ℕ → ℕ → ℕ) where
  any_fuel :
      (y x more : ℕ)
      → x ≤ more
      → (some_fuel : ℕ) → x ≤ some_fuel
      → digits stop digit more x y ≡ digits stop digit some_fuel x y
  any_fuel y (suc x) zero covers fuel covers' = absurd (omega arith)
  any_fuel y (suc x) (suc more) covers zero covers' = absurd (omega arith)
  any_fuel y (suc x) (suc more) covers (suc fuel) covers' =
      let half_covered : suc x / 2 ≤ more = omega arith in
      let halves = any_fuel (y / 2) (suc x / 2) more half_covered fuel (omega arith) in
      ap (λ (t : ℕ). t * 2 + digit (suc x % 2) (y % 2)) halves
  any_fuel y zero zero covers zero covers' = refl
  any_fuel y zero zero covers (suc fuel) covers' = refl
  any_fuel y zero (suc more) covers zero covers' = refl
  any_fuel y zero (suc more) covers (suc fuel) covers' = refl

  last_digit :
      (x y : ℕ)
      → bitwise stop digit (suc x) y
        ≡ bitwise stop digit (suc x / 2) (y / 2) * 2 + digit (suc x % 2) (y % 2)
  last_digit x y =
      let below : suc x / 2 ≤ x = omega arith in
      let itself : suc x / 2 ≤ suc x / 2 = omega arith in
      omega (arith, any_fuel (y / 2) (suc x / 2) x below (suc x / 2) itself)

or_low_digit : (a b : ℕ) → bit_or a b ≡ bit_or (a / 2) (b / 2) * 2 + max (a % 2) (b % 2)
or_low_digit (suc x) y = simp bit_or-bitwise (last_digit (λ (t : ℕ). t) max x y)
or_low_digit zero y = simp bit_or-bitwise (omega arith)

and_low_digit : (a b : ℕ) → bit_and a b ≡ bit_and (a / 2) (b / 2) * 2 + min (a % 2) (b % 2)
and_low_digit (suc x) y = simp bit_and-bitwise (last_digit (λ (_ : ℕ). 0) min x y)
and_low_digit zero y = simp bit_and-bitwise (omega arith)

or_zero_below : (n a : ℕ) → a ≤ n → bit_or a 0 ≡ a
or_zero_below n zero h = refl
or_zero_below zero (suc a) h = absurd (omega arith)
or_zero_below (suc n) (suc a) h =
    omega (arith, or_low_digit (suc a) 0, or_zero_below n (suc a / 2) (omega arith))

and_zero_below : (n a : ℕ) → a ≤ n → bit_and a 0 ≡ 0
and_zero_below n zero h = refl
and_zero_below zero (suc a) h = absurd (omega arith)
and_zero_below (suc n) (suc a) h =
    omega (arith, and_low_digit (suc a) 0, and_zero_below n (suc a / 2) (omega arith))

double : (q k : ℕ) → q * 2 ^ suc k ≡ (q * 2 ^ k) * 2
double q k = omega (arith, ap (λ (t : ℕ). q * t) (pow-suc 2 k))

-- `|` of a shifted field and a field that fits below it is their sum.
pub bit_or-shl : (k q r : ℕ) → r < 2 ^ k → bit_or (shl q k) r ≡ q * 2 ^ k + r
bit_or-shl zero q r h = ground (arith, or_zero_below q q)
bit_or-shl (suc k) q r h = ground (
  arith,
  double q k,
  pow-suc 2 k,
  or_low_digit (q * 2 ^ suc k) r,
  bit_or-shl k q (r / 2) (omega (arith, pow-suc 2 k)),
)

-- `&` with `k` ones keeps the remainder by `2 ^ k`.
and_split : (k q r : ℕ) → r < 2 ^ k → bit_and (q * 2 ^ k + r) (2 ^ k - 1) ≡ r
and_split zero q r h = omega (arith, and_zero_below (q * 1 + r) (q * 1 + r))
and_split (suc k) q r h = ground (
  arith,
  double q k,
  pow-suc 2 k,
  and_low_digit (q * 2 ^ suc k + r) (2 ^ suc k - 1),
  one-le-pow k 2,
  and_split k q (r / 2) (omega (arith, pow-suc 2 k)),
)

pub bit_and-mask : (k a : ℕ) → bit_and a (2 ^ k - 1) ≡ a % 2 ^ k
bit_and-mask k a = ground (arith, one-le-pow k 2, and_split k (a / 2 ^ k) (a % 2 ^ k))
