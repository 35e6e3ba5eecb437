-- ===== src/Base/Bits.antt =====
-- Shifts and masks as arithmetic, and what `|` and `^` do at variables.
use Prim.Native.Nat.{
  ℕ, zero, suc, ◌+◌, ◌*◌, ◌/◌, ◌%◌, ◌^◌, ◌≤◌, ◌<◌, max, bit_or, digits, bit_or-bitwise,
}
use mathlib.Core.Path.{◌≡◌, refl, ap}
use mathlib.Core.Bool.{Bool, true, ◌&&◌}
use native.Mathlib.Nat.{pow-suc}
use native.Mathlib.Omega.{arith}

-- x << k, x >> k and x & (2 ** k - 1)
abbrev pub shl : ℕ → ℕ → ℕ
shl x k = x * 2 ^ k

abbrev pub shr : ℕ → ℕ → ℕ
shr x k = x / 2 ^ k

abbrev pub low_bits : ℕ → ℕ → ℕ
low_bits x k = x % 2 ^ k

-- A property of every number below a bound, by evaluation.
unfoldable pub all_below : ℕ → (ℕ → Bool) → Bool
all_below zero test = true
all_below (suc bound) test = test bound && all_below bound test

pub all_below_sound :
    (bound : ℕ) (test : ℕ → Bool) (v : ℕ) → all_below bound test ≡ true → v < bound → test v ≡ true
unfolding all_below
all_below_sound zero test v all less = absurd (omega arith)
all_below_sound (suc bound) test v all less = ground (arith, all_below_sound bound test v)

-- The recursion on digits needs no more fuel than its first number.
or_digits_fuel :
    (fuel more x y : ℕ)
    → x ≤ fuel
    → x ≤ more
    → digits (λ r. r) max fuel x y ≡ digits (λ r. r) max more x y
or_digits_fuel zero zero x y h k = refl
or_digits_fuel zero (suc more) zero y h k = refl
or_digits_fuel (suc fuel) zero zero y h k = refl
or_digits_fuel (suc fuel) (suc more) zero y h k = refl
or_digits_fuel zero (suc more) (suc x) y h k = absurd (omega arith)
or_digits_fuel (suc fuel) zero (suc x) y h k = absurd (omega arith)
or_digits_fuel (suc fuel) (suc more) (suc x) y h k =
    omega (arith, or_digits_fuel fuel more (suc x / 2) (y / 2) (omega arith) (omega arith))

zero-bit_or : (y : ℕ) → bit_or 0 y ≡ y
zero-bit_or y = bit_or-bitwise 0 y

bit_or_step : (x y : ℕ) → bit_or x y ≡ max (x % 2) (y % 2) + bit_or (x / 2) (y / 2) * 2
bit_or_step zero y = omega (arith, zero-bit_or y, zero-bit_or (y / 2))
bit_or_step (suc x) y =
    let half : suc x / 2 ≤ x = omega arith in
    let first = bit_or-bitwise (suc x) y in
    let next = bit_or-bitwise (suc x / 2) (y / 2) in
    omega (arith, first, next, or_digits_fuel x (suc x / 2) (suc x / 2) (y / 2) half (omega arith))

bit_or-zero_fuel : (fuel x : ℕ) → x ≤ fuel → bit_or x 0 ≡ x
bit_or-zero_fuel fuel zero h = zero-bit_or 0
bit_or-zero_fuel zero (suc x) h = absurd (omega arith)
bit_or-zero_fuel (suc fuel) (suc x) h =
    let less : suc x / 2 ≤ fuel = omega arith in
    omega (arith, bit_or-zero_fuel fuel (suc x / 2) less, bit_or_step (suc x) 0)

-- A field that lies below the shift is added.
pub bit_or_disjoint : (k q r : ℕ) → r < 2 ^ k → bit_or (shl q k) r ≡ shl q k + r
bit_or_disjoint zero q r h =
    let r0 : r ≡ 0 = omega arith in
    omega
      (arith, ap (bit_or (q * 2 ^ 0)) r0, bit_or-zero_fuel (q * 2 ^ 0) (q * 2 ^ 0) (omega arith))
bit_or_disjoint (suc k) q r h =
    let e : q * 2 ^ suc k ≡ 2 * (q * 2 ^ k) = omega (arith, ap (λ (t : ℕ). q * t) (pow-suc 2 k)) in
    let p : 2 ^ suc k ≡ 2 * 2 ^ k = omega (arith, pow-suc 2 k) in
    let e2 : (q * 2 ^ suc k) / 2 ≡ q * 2 ^ k = omega arith in
    let s : bit_or (q * 2 ^ suc k / 2) (r / 2) ≡ bit_or (q * 2 ^ k) (r / 2) =
      ap (λ (t : ℕ). bit_or t (r / 2)) e2 in
    omega (arith, bit_or_step (q * 2 ^ suc k) r, s, bit_or_disjoint k q (r / 2) (omega arith))

bit_or_comm : (fuel x y : ℕ) → x ≤ fuel → bit_or x y ≡ bit_or y x
bit_or_comm fuel zero y h = omega (arith, zero-bit_or y, bit_or-zero_fuel y y (omega arith))
bit_or_comm zero (suc x) y h = absurd (omega arith)
bit_or_comm (suc fuel) (suc x) y h =
    let half : suc x / 2 ≤ fuel = omega arith in
    omega (
      arith,
      bit_or_step (suc x) y,
      bit_or_step y (suc x),
      bit_or_comm fuel (suc x / 2) (y / 2) half,
    )

-- A field that is put above what stands there is added.
pub bit_or_above : (k q r : ℕ) → r < 2 ^ k → bit_or r (shl q k) ≡ r + shl q k
bit_or_above k q r h =
    omega (arith, bit_or_comm r r (shl q k) (omega arith), bit_or_disjoint k q r h)
