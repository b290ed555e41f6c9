-- ===== src/Base/Bits.antt =====
-- Masks: a run of ones at the low or at the high end of a word.
use Prim.Native.Nat.{
  ℕ, zero, suc, ◌+◌, ◌-◌, ◌*◌, ◌/◌, ◌%◌, ◌^◌, ◌≤◌, ◌<◌, min, bit_and, digits, bit_and-bitwise,
}
use mathlib.Core.Path.{◌≡◌, refl, ap, ◌∙◌}
use native.Mathlib.Omega.{arith}
use native.Mathlib.Nat.{
  pow-suc, one-le-pow, mul_comm, mul-le-mul_right, mod-eq_of_lt, mul-add-mod_self_right,
  div-lt_iff_lt-mul, div-add-mod', mod-lt,
}

-- Conjunction with at most n halvings of its left operand.
abbrev halving : ℕ → ℕ → ℕ → ℕ
halving n x y = digits (λ _. 0) min n x y

halving_enough : (x y n k : ℕ) → x ≤ n → x ≤ k → halving n x y ≡ halving k x y
halving_enough zero y zero zero _ _ = refl
halving_enough zero y zero (suc k) _ _ = refl
halving_enough zero y (suc n) zero _ _ = refl
halving_enough zero y (suc n) (suc k) _ _ = refl
halving_enough (suc x) y zero k small _ = absurd (omega arith)
halving_enough (suc x) y (suc n) zero _ small = absurd (omega arith)
halving_enough (suc x) y (suc n) (suc k) left right =
    let rest = halving_enough (suc x / 2) (y / 2) n k (omega arith) (omega arith) in
    omega (arith, rest)

-- The lowest digit apart: a number that is not 0 spends one halving on it.
bit_and-suc :
    (x y : ℕ)
    → bit_and (suc x) y ≡ halving (suc x / 2) (suc x / 2) (y / 2) * 2 + min (suc x % 2) (y % 2)
bit_and-suc x y =
    let rest = halving_enough (suc x / 2) (y / 2) x (suc x / 2) (omega arith) (omega arith) in
    omega (arith, rest, bit_and-bitwise (suc x) y)

bit_and_step : (x y : ℕ) → bit_and x y ≡ min (x % 2) (y % 2) + 2 * bit_and (x / 2) (y / 2)
bit_and_step (suc x) y = omega (arith, bit_and-suc x y, bit_and-bitwise (suc x / 2) (y / 2))
bit_and_step zero y = omega (arith, bit_and-bitwise 0 y, bit_and-bitwise 0 (y / 2))

bit_and-zero_below : (bound x : ℕ) → x < bound → bit_and x 0 ≡ 0
bit_and-zero_below (suc bound) zero below = refl
bit_and-zero_below (suc bound) (suc x) below =
    let half = bit_and-zero_below bound (suc x / 2) (omega arith) in
    omega (arith, half, bit_and_step (suc x) 0)
bit_and-zero_below zero x below = absurd (omega arith)

bit_and-zero : (x : ℕ) → bit_and x 0 ≡ 0
bit_and-zero x = bit_and-zero_below (suc x) x (omega arith)

mul-two-pow-suc : (q k : ℕ) → q * 2 ^ suc k ≡ 2 * (q * 2 ^ k)
mul-two-pow-suc q k = grind (arith, pow-suc 2 k)

-- A mask of `k` low ones is the remainder by `2 ^ k`.
bit_and_low_fields : (k q r : ℕ) → r < 2 ^ k → bit_and (q * 2 ^ k + r) (2 ^ k - 1) ≡ r
bit_and_low_fields zero q r fits = rw bit_and-zero (omega arith)
bit_and_low_fields (suc k) q r fits = ground (
  arith,
  bit_and_step (q * 2 ^ suc k + r) (2 ^ suc k - 1),
  mul-two-pow-suc q k,
  pow-suc 2 k,
  bit_and_low_fields k q (r / 2) (omega arith),
)

pub bit_and_low_mask : (k a : ℕ) → bit_and a (2 ^ k - 1) ≡ a % 2 ^ k
bit_and_low_mask k a = ground (arith, one-le-pow k 2, bit_and_low_fields k (a / 2 ^ k) (a % 2 ^ k))

-- A mask that is zero below `2 ^ k` clears the low digits and masks the rest.
bit_and_high : (k q r m : ℕ) → r < 2 ^ k → bit_and (q * 2 ^ k + r) (m * 2 ^ k) ≡ bit_and q m * 2 ^ k
bit_and_high zero q r m fits =
    let er : r ≡ 0 = omega arith in
    let eq : q * 2 ^ 0 + r ≡ q = omega arith in
    let em : m * 2 ^ 0 ≡ m = omega arith in rw (eq, em) (omega arith)
bit_and_high (suc k) q r m fits = ground (
  arith,
  bit_and_step (q * 2 ^ suc k + r) (m * 2 ^ suc k),
  mul-two-pow-suc q k,
  mul-two-pow-suc m k,
  mul-two-pow-suc (bit_and q m) k,
  pow-suc 2 k,
  bit_and_high k q (r / 2) m (omega arith),
)

pub pow_two-add : (n k : ℕ) → 2 ^ (n + k) ≡ 2 ^ n * 2 ^ k
pow_two-add zero k = let e : 0 + k ≡ k = omega arith in rw e (omega arith)
pow_two-add (suc n) k =
    let e : suc n + k ≡ suc (n + k) = omega arith in
    rw e (grind (arith, pow_two-add n k, pow-suc 2 (n + k), pow-suc 2 n))

pred-mul : (a b : ℕ) → (a - 1) * b ≡ a * b - b
pred-mul zero b = omega arith
pred-mul (suc a) b = let e : suc a - 1 ≡ a = omega arith in rw e (omega arith)

high_product : (n k : ℕ) → 0 < n → 0 < k → (n * k - 1) * k ≡ (k - 1) * (n * k) + (n - 1) * k
high_product n k hn hk = omega (
  arith,
  pred-mul (n * k) k,
  pred-mul k (n * k),
  pred-mul n k,
  mul_comm (n * k) k,
  mul-le-mul_right {m = 1} {n = k} (n * k) hk,
  mul-le-mul_right {m = 1} {n = n} k hn,
)

high_small : (n k : ℕ) → 0 < n → 0 < k → (n - 1) * k < n * k
high_small (suc n) k hn hk = let e : suc n - 1 ≡ n = omega arith in rw e (omega arith)
high_small zero k hn hk = absurd (omega arith)

high_mod : (n k : ℕ) → 0 < n → 0 < k → ((n * k - 1) * k) % (n * k) ≡ (n - 1) * k
high_mod n k hn hk =
    rw (high_product n k hn hk)
      (mul-add-mod_self_right (k - 1) (n * k) ((n - 1) * k) ∙ mod-eq_of_lt (high_small n k hn hk))

-- `!0 << k` on a word of `n + k` bits: `n` ones over `k` zeros.
high_mask : (n k : ℕ) → ((2 ^ (n + k) - 1) * 2 ^ k) % 2 ^ (n + k) ≡ (2 ^ n - 1) * 2 ^ k
high_mask n k =
    rw (pow_two-add n k)
      (high_mod (2 ^ n) (2 ^ k) (omega (arith, one-le-pow n 2)) (omega (arith, one-le-pow k 2)))

-- So such a mask keeps the quotient by `2 ^ k`.
pub bit_and_high_mask :
    (n k a : ℕ)
    → a < 2 ^ (n + k)
    → bit_and a (((2 ^ (n + k) - 1) * 2 ^ k) % 2 ^ (n + k)) ≡ a / 2 ^ k * 2 ^ k
bit_and_high_mask n k a fits =
    let pos : 0 < 2 ^ k = omega (arith, one-le-pow k 2) in
    let small : a / 2 ^ k < 2 ^ n =
      (div-lt_iff_lt-mul pos).1
        (let e : 2 ^ (n + k) ≡ 2 ^ n * 2 ^ k = pow_two-add n k in rw e at fits) in
    let split : a / 2 ^ k * 2 ^ k + a % 2 ^ k ≡ a = div-add-mod' a (2 ^ k) in
    rw (high_mask n k) (
      omega (
        arith,
        ap (λ (t : ℕ). bit_and t ((2 ^ n - 1) * 2 ^ k)) split,
        bit_and_high k (a / 2 ^ k) (a % 2 ^ k) (2 ^ n - 1) (mod-lt a pos),
        ap (λ (t : ℕ). t * 2 ^ k) (bit_and_low_mask n (a / 2 ^ k)),
        ap (λ (t : ℕ). t * 2 ^ k) (mod-eq_of_lt small),
      ))
