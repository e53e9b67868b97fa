-- ===== src/Common/Bits.antt =====
-- `bit_or` and `bit_and` at variables: the laws by which a mask or a field of bits is arithmetic.
use Prim.Native.Nat.{
  ℕ, zero, suc, ◌+◌, ◌-◌, ◌*◌, ◌/◌, ◌%◌, ◌^◌, ◌≤◌, ◌<◌, max, min, bit_or, bit_and, digits,
  bit_or-bitwise, bit_and-bitwise, bit_xor, bit_xor-bitwise, differ,
}
use mathlib.Core.Path.{◌≡◌, refl, sym, ap, ◌∙◌}
use native.Mathlib.Nat.{pow-suc, div-add-mod, div-div-eq-div-mul}
use native.Mathlib.Omega.{arith}

-- What a call of `digits` on a first number needs as fuel, and what it makes of a second that is 0.
module _ (base : ℕ → ℕ) (op : ℕ → ℕ → ℕ) where
  more_fuel :
      (extra fuel x y : ℕ) → x ≤ fuel → digits base op (fuel + extra) x y ≡ digits base op fuel x y
  more_fuel zero fuel x y h = ap (λ n. digits base op n x y) (omega arith)
  more_fuel (suc extra) zero zero y h = let e : 0 + suc extra ≡ suc extra = omega arith in rw e refl
  more_fuel (suc extra) (suc fuel) zero y h =
      let e : suc fuel + suc extra ≡ suc (fuel + suc extra) = omega arith in rw e refl
  more_fuel (suc extra) zero (suc x) y h = absurd (omega arith)
  more_fuel (suc extra) (suc fuel) (suc x) y h =
      let e : suc fuel + suc extra ≡ suc (fuel + suc extra) = omega arith in
      rw e (
        ap (λ d. d * 2 + op (suc x % 2) (y % 2))
          (more_fuel (suc extra) fuel (suc x / 2) (y / 2) (omega arith)))

  own_fuel : (fuel x y : ℕ) → x ≤ fuel → digits base op fuel x y ≡ digits base op x x y
  own_fuel fuel x y h =
      let e : x + (fuel - x) ≡ fuel = omega arith in
      ap (λ n. digits base op n x y) (sym e) ∙ more_fuel (fuel - x) x x y (omega arith)

  last_digit :
      (x y : ℕ)
      → digits base op (suc x) (suc x) y
        ≡ digits base op (suc x / 2) (suc x / 2) (y / 2) * 2 + op (suc x % 2) (y % 2)
  last_digit x y =
      ap (λ d. d * 2 + op (suc x % 2) (y % 2)) (own_fuel x (suc x / 2) (y / 2) (omega arith))

  against_zero :
      (k : ℕ → ℕ)
      → base 0 ≡ k 0
      → ((x : ℕ) → k (x / 2) * 2 + op (x % 2) 0 ≡ k x)
      → (fuel x : ℕ) → x ≤ fuel
      → digits base op fuel x 0 ≡ k x
  against_zero k start each zero x h = let e : x ≡ 0 = omega arith in rw e start
  against_zero k start each (suc fuel) zero h = start
  against_zero k start each (suc fuel) (suc x) h =
      ap (λ d. d * 2 + op (suc x % 2) 0) (against_zero k start each fuel (suc x / 2) (omega arith))
      ∙ each (suc x)

pub bit_or_step : (a b : ℕ) → bit_or a b ≡ bit_or (a / 2) (b / 2) * 2 + max (a % 2) (b % 2)
bit_or_step zero b = omega (arith, bit_or-bitwise 0 b, bit_or-bitwise 0 (b / 2))
bit_or_step (suc a) b =
    bit_or-bitwise (suc a) b
    ∙ last_digit (λ y. y) max a b
    ∙ ap (λ d. d * 2 + max (suc a % 2) (b % 2)) (sym (bit_or-bitwise (suc a / 2) (b / 2)))

pub bit_or-zero : (a : ℕ) → bit_or a 0 ≡ a
bit_or-zero a =
    bit_or-bitwise a 0
    ∙ against_zero (λ y. y) max (λ x. x) refl (λ x. omega arith) a a (omega arith)

-- One more free binary digit: what holds of a field of `k` bits holds of one of `k + 1`.
bit_or_shift : (a b : ℕ) → bit_or a (b / 2) ≡ a + b / 2 → bit_or (a * 2) b ≡ a * 2 + b
bit_or_shift a b h =
    let e : a * 2 / 2 ≡ a = omega arith in rw (bit_or_step (a * 2) b, e, h) (omega arith)

-- A field of `k` bits is put under a number whose low `k` bits are clear by adding it.
pub bit_or_field : (k a b : ℕ) → b < 2 ^ k → bit_or (a * 2 ^ k) b ≡ a * 2 ^ k + b
bit_or_field zero a b h = let e : b ≡ 0 = omega arith in rw (e, bit_or-zero) (omega arith)
bit_or_field (suc k) a b h =
    let h' : b < 2 ^ k * 2 = rw (← pow-suc 2 k) h in
    let e : a * 2 ^ suc k ≡ a * 2 ^ k * 2 = rw (pow-suc 2 k) (omega arith) in
    rw e (bit_or_shift (a * 2 ^ k) b (bit_or_field k a (b / 2) (omega arith)))

bit_and_step : (a b : ℕ) → bit_and a b ≡ bit_and (a / 2) (b / 2) * 2 + min (a % 2) (b % 2)
bit_and_step zero b = omega (arith, bit_and-bitwise 0 b, bit_and-bitwise 0 (b / 2))
bit_and_step (suc a) b =
    bit_and-bitwise (suc a) b
    ∙ last_digit (λ y. 0) min a b
    ∙ ap (λ d. d * 2 + min (suc a % 2) (b % 2)) (sym (bit_and-bitwise (suc a / 2) (b / 2)))

bit_and-zero : (a : ℕ) → bit_and a 0 ≡ 0
bit_and-zero a =
    bit_and-bitwise a 0
    ∙ against_zero (λ y. 0) min (λ x. 0) refl (λ x. omega arith) a a (omega arith)

mod_double : (p a : ℕ) → a % (p * 2) ≡ a / 2 % p * 2 + a % 2
mod_double p a =
    let e : a / (p * 2) ≡ a / 2 / p = rw div-div-eq-div-mul (ap (λ t. a / t) (omega arith)) in
    omega (arith, div-add-mod (a / 2) p, rw e at (div-add-mod a (p * 2)))

-- A mask of `k` ones keeps the remainder.
pub bit_and_mask : (k a m : ℕ) → m + 1 ≡ 2 ^ k → bit_and a m ≡ a % 2 ^ k
bit_and_mask zero a m h = let e : m ≡ 0 = omega arith in rw (e, bit_and-zero) (omega arith)
bit_and_mask (suc k) a m h =
    let h' : m + 1 ≡ 2 ^ k * 2 = rw (← pow-suc 2 k) h in
    rw (bit_and_step a m, bit_and_mask k (a / 2) (m / 2) (omega arith), pow-suc 2 k)
      (omega (arith, mod_double (2 ^ k) a))

-- A mask whose low `k` bits are clear reads the rest alone.
pub bit_and_high : (k a m : ℕ) → bit_and a (m * 2 ^ k) ≡ bit_and (a / 2 ^ k) m * 2 ^ k
bit_and_high zero a m =
    let e : m * 2 ^ 0 ≡ m = omega arith in
    let g : a / 2 ^ 0 ≡ a = omega arith in rw (e, g) (omega arith)
bit_and_high (suc k) a m =
    let e : m * 2 ^ suc k ≡ m * 2 ^ k * 2 = rw (pow-suc 2 k) (omega arith) in
    let f : m * 2 ^ k * 2 / 2 ≡ m * 2 ^ k = omega arith in
    let g : a / (2 ^ k * 2) ≡ a / 2 / 2 ^ k =
      rw div-div-eq-div-mul (ap (λ t. a / t) (omega arith)) in
    rw (e, bit_and_step a (m * 2 ^ k * 2), f, bit_and_high k (a / 2) m, pow-suc 2 k, g)
      (omega arith)

-- A mask of a single bit.
pub bit_and_bit : (k a : ℕ) → bit_and a (1 * 2 ^ k) ≡ a / 2 ^ k % 2 * 2 ^ k
bit_and_bit k a = rw (bit_and_high k a 1, bit_and_mask 1 (a / 2 ^ k) 1 refl)

differ_bit : (x y : ℕ) → x < 2 → y < 2 → (differ x y < 2) × (differ (differ x y) y ≡ x)
differ_bit zero zero h g = (omega arith, refl)
differ_bit zero (suc zero) h g = (omega arith, refl)
differ_bit (suc zero) zero h g = (omega arith, refl)
differ_bit (suc zero) (suc zero) h g = (omega arith, refl)
differ_bit (suc (suc x)) y h g = absurd (omega arith)
differ_bit x (suc (suc y)) h g = absurd (omega arith)

bit_xor_step : (a b : ℕ) → bit_xor a b ≡ bit_xor (a / 2) (b / 2) * 2 + differ (a % 2) (b % 2)
bit_xor_step zero b = omega (arith, bit_xor-bitwise 0 b, bit_xor-bitwise 0 (b / 2))
bit_xor_step (suc a) b =
    bit_xor-bitwise (suc a) b
    ∙ last_digit (λ y. y) differ a b
    ∙ ap (λ d. d * 2 + differ (suc a % 2) (b % 2)) (sym (bit_xor-bitwise (suc a / 2) (b / 2)))

xor_back : (n a b : ℕ) → a ≤ n → b ≤ n → bit_xor (bit_xor a b) b ≡ a
xor_back zero a b h g = let e : a ≡ 0 = omega arith in let f : b ≡ 0 = omega arith in rw (e, f) refl
xor_back (suc n) a b h g =
    let low = differ_bit (a % 2) (b % 2) (omega arith) (omega arith) in
    let half : bit_xor a b / 2 ≡ bit_xor (a / 2) (b / 2) = omega (arith, bit_xor_step a b, low.0) in
    let last : bit_xor a b % 2 ≡ differ (a % 2) (b % 2) = omega (arith, bit_xor_step a b, low.0) in
    bit_xor_step (bit_xor a b) b
    ∙ rw (half, last, xor_back n (a / 2) (b / 2) (omega arith) (omega arith), low.1) (omega arith)

-- A mask that is applied twice changes nothing.
pub bit_xor_twice : (a b : ℕ) → bit_xor (bit_xor a b) b ≡ a
bit_xor_twice a b = xor_back (a + b) a b (omega arith) (omega arith)
