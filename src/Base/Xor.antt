-- ===== src/Base/Xor.antt =====
-- `^` on numbers of any width, by its lowest digit and its half.
use Prim.Native.Nat.{
  ℕ, zero, suc, ◌+◌, ◌*◌, ◌/◌, ◌%◌, ◌^◌, ◌≤◌, ◌<◌, bit_xor, differ, digits, bit_xor-bitwise,
}
use mathlib.Core.Path.{◌≡◌, refl, ap, ap₂, ◌∙◌, sym}
use native.Mathlib.Nat.{pow-suc}
use native.Mathlib.Omega.{arith}

xor_digits_fuel :
    (fuel more x y : ℕ)
    → x ≤ fuel
    → x ≤ more
    → digits (λ r. r) differ fuel x y ≡ digits (λ r. r) differ more x y
xor_digits_fuel zero zero x y h k = refl
xor_digits_fuel zero (suc more) zero y h k = refl
xor_digits_fuel (suc fuel) zero zero y h k = refl
xor_digits_fuel (suc fuel) (suc more) zero y h k = refl
xor_digits_fuel zero (suc more) (suc x) y h k = absurd (omega arith)
xor_digits_fuel (suc fuel) zero (suc x) y h k = absurd (omega arith)
xor_digits_fuel (suc fuel) (suc more) (suc x) y h k =
    omega (arith, xor_digits_fuel fuel more (suc x / 2) (y / 2) (omega arith) (omega arith))

pub zero-bit_xor : (y : ℕ) → bit_xor 0 y ≡ y
zero-bit_xor y = bit_xor-bitwise 0 y

differ-digits : (a b : ℕ) → a < 2 → b < 2 → differ a b ≡ (a + b) % 2
differ-digits zero b h k = omega arith
differ-digits (suc zero) zero h k = refl
differ-digits (suc zero) (suc zero) h k = refl
differ-digits (suc zero) (suc (suc b)) h k = absurd (omega arith)
differ-digits (suc (suc a)) b h k = absurd (omega arith)

xor_step : (x y : ℕ) → bit_xor x y ≡ (x + y) % 2 + bit_xor (x / 2) (y / 2) * 2
xor_step zero y = omega (arith, zero-bit_xor y, zero-bit_xor (y / 2))
xor_step (suc x) y = omega (
  arith,
  bit_xor-bitwise (suc x) y,
  bit_xor-bitwise (suc x / 2) (y / 2),
  differ-digits (suc x % 2) (y % 2) (omega arith) (omega arith),
  xor_digits_fuel x (suc x / 2) (suc x / 2) (y / 2) (omega arith) (omega arith),
)

pub bit_xor-mod : (x y : ℕ) → bit_xor x y % 2 ≡ (x + y) % 2
bit_xor-mod x y = omega (arith, xor_step x y)

pub bit_xor-half : (x y : ℕ) → bit_xor x y / 2 ≡ bit_xor (x / 2) (y / 2)
bit_xor-half x y = omega (arith, xor_step x y)

eq_of_halves : (a b : ℕ) → a % 2 ≡ b % 2 → a / 2 ≡ b / 2 → a ≡ b
eq_of_halves a b h k = omega arith

xor-zero_fuel : (fuel x : ℕ) → x ≤ fuel → bit_xor x 0 ≡ x
xor-zero_fuel fuel zero h = zero-bit_xor 0
xor-zero_fuel zero (suc x) h = absurd (omega arith)
xor-zero_fuel (suc fuel) (suc x) h =
    omega (arith, xor_step (suc x) 0, xor-zero_fuel fuel (suc x / 2) (omega arith))

xor_comm_fuel : (fuel x y : ℕ) → x ≤ fuel → bit_xor x y ≡ bit_xor y x
xor_comm_fuel fuel zero y h = omega (arith, zero-bit_xor y, xor-zero_fuel y y (omega arith))
xor_comm_fuel zero (suc x) y h = absurd (omega arith)
xor_comm_fuel (suc fuel) (suc x) y h =
    let half : suc x / 2 ≤ fuel = omega arith in
    omega
      (arith, xor_step (suc x) y, xor_step y (suc x), xor_comm_fuel fuel (suc x / 2) (y / 2) half)

pub bit_xor_comm : (x y : ℕ) → bit_xor x y ≡ bit_xor y x
bit_xor_comm x y = xor_comm_fuel x x y (omega arith)

pub bit_xor-zero : (x : ℕ) → bit_xor x 0 ≡ x
bit_xor-zero x = xor-zero_fuel x x (omega arith)

xor_self_fuel : (fuel x : ℕ) → x ≤ fuel → bit_xor x x ≡ 0
xor_self_fuel fuel zero h = zero-bit_xor 0
xor_self_fuel zero (suc x) h = absurd (omega arith)
xor_self_fuel (suc fuel) (suc x) h =
    omega (arith, xor_step (suc x) (suc x), xor_self_fuel fuel (suc x / 2) (omega arith))

pub bit_xor_self : (x : ℕ) → bit_xor x x ≡ 0
bit_xor_self x = xor_self_fuel x x (omega arith)

xor_assoc_fuel : (fuel x y z : ℕ) → x ≤ fuel → bit_xor (bit_xor x y) z ≡ bit_xor x (bit_xor y z)
xor_assoc_fuel fuel zero y z h =
    ap (λ (t : ℕ). bit_xor t z) (zero-bit_xor y) ∙ sym (zero-bit_xor (bit_xor y z))
xor_assoc_fuel zero (suc x) y z h = absurd (omega arith)
xor_assoc_fuel (suc fuel) (suc x) y z h =
    let ih = xor_assoc_fuel fuel (suc x / 2) (y / 2) (z / 2) (omega arith) in
    eq_of_halves _ _
      (omega (
        arith,
        bit_xor-mod (bit_xor (suc x) y) z,
        bit_xor-mod (suc x) y,
        bit_xor-mod (suc x) (bit_xor y z),
        bit_xor-mod y z,
      ))
      (bit_xor-half (bit_xor (suc x) y) z
        ∙ ap (λ (t : ℕ). bit_xor t (z / 2)) (bit_xor-half (suc x) y)
        ∙ ih
        ∙ ap (bit_xor (suc x / 2)) (sym (bit_xor-half y z))
        ∙ sym (bit_xor-half (suc x) (bit_xor y z)))

pub bit_xor_assoc : (x y z : ℕ) → bit_xor (bit_xor x y) z ≡ bit_xor x (bit_xor y z)
bit_xor_assoc x y z = xor_assoc_fuel x x y z (omega arith)

-- Two sums are added part by part.
pub bit_xor_swap :
    (a b c d : ℕ) → bit_xor (bit_xor a b) (bit_xor c d) ≡ bit_xor (bit_xor a c) (bit_xor b d)
bit_xor_swap a b c d =
    bit_xor_assoc a b (bit_xor c d)
    ∙ ap (bit_xor a) (
        sym (bit_xor_assoc b c d)
        ∙ ap (λ (t : ℕ). bit_xor t d) (bit_xor_comm b c)
        ∙ bit_xor_assoc c b d)
    ∙ sym (bit_xor_assoc a c (bit_xor b d))

-- x >> n and x & (2 ** n - 1), a digit at a time.
unfoldable pub halves : ℕ → ℕ → ℕ
halves zero x = x
halves (suc n) x = halves n (x / 2)

unfoldable pub lows : ℕ → ℕ → ℕ
lows zero x = 0
lows (suc n) x = x % 2 + lows n (x / 2) * 2

-- The number without its low `n` digits.
unfoldable pub cleared : ℕ → ℕ → ℕ
cleared zero x = x
cleared (suc n) x = cleared n (x / 2) * 2

pub bit_xor-halves : (n x y : ℕ) → halves n (bit_xor x y) ≡ bit_xor (halves n x) (halves n y)
unfolding halves
bit_xor-halves zero x y = refl
bit_xor-halves (suc n) x y = ap (halves n) (bit_xor-half x y) ∙ bit_xor-halves n (x / 2) (y / 2)

pub bit_xor-lows : (n x y : ℕ) → lows n (bit_xor x y) ≡ bit_xor (lows n x) (lows n y)
unfolding lows
bit_xor-lows zero x y = sym (bit_xor_self 0)
bit_xor-lows (suc n) x y =
    let low = lows n (x / 2) in
    let high = lows n (y / 2) in
    let a : (x % 2 + low * 2) / 2 ≡ low = omega arith in
    let b : (y % 2 + high * 2) / 2 ≡ high = omega arith in
    let e : lows n (bit_xor x y / 2) ≡ bit_xor low high =
      ap (lows n) (bit_xor-half x y) ∙ bit_xor-lows n (x / 2) (y / 2) in
    let f : bit_xor ((x % 2 + low * 2) / 2) ((y % 2 + high * 2) / 2) ≡ bit_xor low high =
      ap₂ bit_xor a b in
    omega (arith, bit_xor-mod x y, xor_step (x % 2 + low * 2) (y % 2 + high * 2), e, f)

pub bit_xor_clears : (n x : ℕ) → bit_xor x (lows n x) ≡ cleared n x
unfolding lows cleared
bit_xor_clears zero x = bit_xor-zero x
bit_xor_clears (suc n) x =
    let low = lows n (x / 2) in
    let a : (x % 2 + low * 2) / 2 ≡ low = omega arith in
    let f : bit_xor (x / 2) ((x % 2 + low * 2) / 2) ≡ cleared n (x / 2) =
      ap (bit_xor (x / 2)) a ∙ bit_xor_clears n (x / 2) in
    omega (arith, xor_step x (x % 2 + low * 2), f)

halves-zero_of_lt : (n x : ℕ) → x < 2 ^ n → halves n x ≡ 0
unfolding halves
halves-zero_of_lt zero x h = omega arith
halves-zero_of_lt (suc n) x h = halves-zero_of_lt n (x / 2) (omega (arith, pow-suc 2 n))

lt_of_halves-zero : (n x : ℕ) → halves n x ≡ 0 → x < 2 ^ n
unfolding halves
lt_of_halves-zero zero x h = omega arith
lt_of_halves-zero (suc n) x h = omega (arith, pow-suc 2 n, lt_of_halves-zero n (x / 2) h)

pub bit_xor-lt : (n x y : ℕ) → x < 2 ^ n → y < 2 ^ n → bit_xor x y < 2 ^ n
bit_xor-lt n x y h k = lt_of_halves-zero n (bit_xor x y) (
    bit_xor-halves n x y
    ∙ ap₂ bit_xor (halves-zero_of_lt n x h) (halves-zero_of_lt n y k)
    ∙ bit_xor_self 0)
