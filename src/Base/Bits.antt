-- ===== src/Base/Bits.antt =====
-- Facts about `bit_and` at variables: low masks, and the test for a power of two.
use Prim.Native.Nat.{
  ℕ, zero, suc, ◌+◌, ◌-◌, ◌*◌, ◌/◌, ◌%◌, ◌^◌, ◌≤◌, ◌<◌, min, bit_and, digits, bit_and-bitwise,
}
use mathlib.Core.Path.{◌≡◌, refl, sym, ap, ap₂, ◌∙◌}
use mathlib.Core.Logic.{◌≢◌, ◌⊎◌, inl, inr}
use native.Mathlib.Nat.{
  pow-suc, one-le-pow, le_trans, pow-le-pow_right, div-add-mod, mod-lt, mod-eq_of_lt,
  add-mul-mod_self_left, div-div-eq-div-mul,
}
use native.Mathlib.Omega.{arith}

-- The digit recursion behind `bit_and`, with the count of digits left free.
abbrev and_of : ℕ → ℕ → ℕ → ℕ
and_of count a b = digits (λ c. zero) min count a b

-- Two counts that are both at least the first number give the same digits.
and_of_cong : (c d a b : ℕ) → a ≤ c → a ≤ d → and_of c a b ≡ and_of d a b
and_of_cong zero zero a b p q = refl
and_of_cong zero (suc d) zero b p q = refl
and_of_cong zero (suc d) (suc a) b p q = absurd (omega arith)
and_of_cong (suc c) zero zero b p q = refl
and_of_cong (suc c) zero (suc a) b p q = absurd (omega arith)
and_of_cong (suc c) (suc d) zero b p q = refl
and_of_cong (suc c) (suc d) (suc a) b p q =
    ap (λ t. t * 2 + min (suc a % 2) (b % 2))
      (and_of_cong c d (suc a / 2) (b / 2) (omega arith) (omega arith))

-- The lowest digit, and the rest.
pub bit_and_low : (a b : ℕ) → bit_and a b ≡ 2 * bit_and (a / 2) (b / 2) + min (a % 2) (b % 2)
bit_and_low zero b = omega (arith, bit_and-bitwise 0 b, bit_and-bitwise 0 (b / 2))
bit_and_low (suc a) b =
    let same : and_of a (suc a / 2) (b / 2) ≡ and_of (suc a / 2) (suc a / 2) (b / 2) =
      and_of_cong a (suc a / 2) (suc a / 2) (b / 2) (omega arith) (omega arith) in
    omega (arith, bit_and-bitwise (suc a) b, bit_and-bitwise (suc a / 2) (b / 2), same)

bit_and-nil_below : (n a : ℕ) → a < n → bit_and a 0 ≡ 0
bit_and-nil_below zero a h = absurd (omega arith)
bit_and-nil_below (suc n) zero h = refl
bit_and-nil_below (suc n) (suc a) h =
    omega (arith, bit_and_low (suc a) 0, bit_and-nil_below n (suc a / 2) (omega arith))

bit_and-nil : (a : ℕ) → bit_and a 0 ≡ 0
bit_and-nil a = bit_and-nil_below (suc a) a (omega arith)

bit_and-self_below : (n a : ℕ) → a < n → bit_and a a ≡ a
bit_and-self_below zero a h = absurd (omega arith)
bit_and-self_below (suc n) zero h = refl
bit_and-self_below (suc n) (suc a) h =
    omega (arith, bit_and_low (suc a) (suc a), bit_and-self_below n (suc a / 2) (omega arith))

pow_half : (k : ℕ) → 2 ^ suc k / 2 ≡ 2 ^ k
pow_half k = omega (arith, pow-suc 2 k)

low_mask_half : (k : ℕ) → (2 ^ suc k - 1) / 2 ≡ 2 ^ k - 1
low_mask_half k = omega (arith, pow-suc 2 k, one-le-pow k 2)

mod_double : (a m : ℕ) → 0 < m → a % (m * 2) ≡ 2 * (a / 2 % m) + a % 2
mod_double a m h =
    let whole : a ≡ (2 * (a / 2 % m) + a % 2) + m * 2 * (a / 2 / m) =
      omega (arith, div-add-mod (a / 2) m) in
    rw (ap (λ t. t % (m * 2)) whole, add-mul-mod_self_left)
      (mod-eq_of_lt {n = 2 * (a / 2 % m) + a % 2} {m = m * 2} (omega (arith, mod-lt (a / 2) h)))

-- `a & (2 ^ k - 1)` is the remainder by `2 ^ k`.
pub bit_and-low_mask : (k a : ℕ) → bit_and a (2 ^ k - 1) ≡ a % 2 ^ k
bit_and-low_mask zero a = omega (arith, bit_and-nil a)
bit_and-low_mask (suc k) a = omega (
  arith,
  pow-suc 2 k,
  one-le-pow k 2,
  bit_and_low a (2 ^ suc k - 1),
  ap (bit_and (a / 2)) (low_mask_half k),
  bit_and-low_mask k (a / 2),
  mod_double a (2 ^ k) (one-le-pow k 2 (omega arith)),
  ap (λ (t : ℕ). a % t) (pow-suc 2 k),
)

-- `v & (v - 1)` clears the lowest one: it is zero just at a power of two.
clear_low-pow : (k : ℕ) → bit_and (2 ^ k) (2 ^ k - 1) ≡ 0
clear_low-pow zero = refl
clear_low-pow (suc k) = omega (
  arith,
  pow-suc 2 k,
  one-le-pow k 2,
  bit_and_low (2 ^ suc k) (2 ^ suc k - 1),
  ap₂ bit_and (pow_half k) (low_mask_half k),
  clear_low-pow k,
)

parity : (v : ℕ) → (v % 2 ≡ 0) ⊎ (v % 2 ≡ 1)
parity v = omega arith

half_zero : (v : ℕ) → v % 2 ≡ 0 → v ≢ 0 → bit_and v (v - 1) ≡ 0 → bit_and (v / 2) (v / 2 - 1) ≡ 0
half_zero v even nz e =
    let same : (v - 1) / 2 ≡ v / 2 - 1 = omega arith in
    omega (arith, bit_and_low v (v - 1), ap (bit_and (v / 2)) same)

odd_clear : (v : ℕ) → v % 2 ≡ 1 → bit_and v (v - 1) ≡ 0 → v ≡ 2 ^ 0
odd_clear v odd e =
    let same : (v - 1) / 2 ≡ v / 2 = omega arith in
    omega (
      arith,
      bit_and_low v (v - 1),
      ap (bit_and (v / 2)) same,
      bit_and-self_below (suc (v / 2)) (v / 2) (omega arith),
    )

clear_low_below : (n v : ℕ) → v < n → v ≢ 0 → bit_and v (v - 1) ≡ 0 → (k : ℕ) × (v ≡ 2 ^ k)
clear_low_below zero v h nz e = absurd (omega arith)
clear_low_below (suc n) v h nz e = elim (parity v) [
  | inl even ↦
      let (k, p) =
        clear_low_below n (v / 2) (omega arith) (λ z. nz (omega (arith, z)))
          (half_zero v even nz e) in
      (suc k, omega (arith, pow-suc 2 k, p))
  | inr odd ↦ (0, odd_clear v odd e)
]

pub pow_of_clear_low : (v : ℕ) → v ≢ 0 → bit_and v (v - 1) ≡ 0 → (k : ℕ) × (v ≡ 2 ^ k)
pow_of_clear_low v nz e = clear_low_below (suc v) v (omega arith) nz e

pub bit_and-pow_self : (k : ℕ) → bit_and (2 ^ k) (2 ^ k - 1) ≡ 0
bit_and-pow_self = clear_low-pow

pub pow-add : (a b : ℕ) → 2 ^ (a + b) ≡ 2 ^ a * 2 ^ b
pow-add zero b = let e : zero + b ≡ b = omega arith in rw e (omega arith)
pow-add (suc a) b =
    let e : suc a + b ≡ suc (a + b) = omega arith in
    rw (e, pow-suc 2 (a + b), pow-suc 2 a, pow-add a b) (omega arith)

pub pow_lt_size : (k : ℕ) → k < 64 → 2 ^ k < 2 ^ 64
pow_lt_size k h =
    le_trans (omega (arith, pow-suc 2 k, one-le-pow k 2))
      (pow-le-pow_right {n = 2} (omega arith) {i = suc k} {j = 64} h)

-- `v & (1 << k)` is the weight of the bit `k` of `v`.
pub bit_and-pow : (k v : ℕ) → bit_and v (2 ^ k) ≡ 2 ^ k * (v / 2 ^ k % 2)
bit_and-pow zero v = omega (arith, bit_and_low v 1, bit_and-nil (v / 2))
bit_and-pow (suc k) v =
    let twice : 2 ^ suc k ≡ 2 * 2 ^ k = omega (arith, pow-suc 2 k) in
    let quotient : v / 2 ^ suc k ≡ v / 2 / 2 ^ k =
      ap (λ (m : ℕ). v / m) twice ∙ sym (div-div-eq-div-mul v 2 (2 ^ k)) in
    rw (quotient, bit_and_low v (2 ^ suc k), pow_half k, bit_and-pow k (v / 2), twice) (omega arith)
