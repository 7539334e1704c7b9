-- ===== src/RingBuffer/Capacity.antt =====
-- `edt_is_power_of_two` and `edt_round_up_pow2`: the capacity that is allocated for a request.
use native.Mathlib.Nat.{pow-suc, one-le-pow, pow-le-pow_right}
use plat.Base.{
  ℕ, zero, suc, ◌+◌, ◌*◌, ◌%◌, ◌^◌, ◌≤◌, ◌<◌, ◌≡◌, refl, ap, ◌∙◌, inl, inr, ◌⊎◌, ◌↔◌, true, Option,
  none, some, ltb, arith, Bool-cases, dec_lt,
}
use plat.Base.Bits.{pow_of_clear_low, bit_and-pow_self}
use plat.Base.Words.{size_mod}
use plat.RingBuffer.{is_power_of_two, round_up_from, round_up_pow2, rounded_capacity}

only_powers : (v : ℕ) → is_power_of_two v ≡ true → (k : ℕ) × (v ≡ 2 ^ k)
unfolding is_power_of_two
only_powers v h = pow_of_clear_low v (ground arith) (ground arith)

powers_pass : (v k : ℕ) → v ≡ 2 ^ k → is_power_of_two v ≡ true
unfolding is_power_of_two
powers_pass v k e = rw e (ground (arith, bit_and-pow_self k, one-le-pow k 2))

-- `edt_is_power_of_two` accepts just the powers of two.
pub is_power_of_two_iff : (v : ℕ) → (is_power_of_two v ≡ true) ↔ ((k : ℕ) × (v ≡ 2 ^ k))
is_power_of_two_iff v = (only_powers v, λ p. powers_pass v p.0 p.1)

below_top : (j : ℕ) → j ≤ 63 → 2 ^ j < 2 ^ 63 → j < 63
below_top j hj h = elim (dec_lt j 63) [
  | yes p ↦ p
  | no p ↦ let top : j ≡ 63 = omega arith in absurd (omega (arith, ap (λ i. 2 ^ i) top))
]

doubled : (j : ℕ) → j < 63 → 2 ^ j * 2 % size_mod ≡ 2 ^ suc j
doubled j h =
    omega (arith, pow-suc 2 j, pow-le-pow_right {n = 2} (omega arith) {i = suc j} {j = 63} h)

-- What the loop returns from p = 2 ^ j: the first power of two, from p on, that is at least v.
abbrev FirstPower : ℕ → ℕ → Option ℕ → Type 0
FirstPower j v r =
    (k : ℕ) × (r ≡ some (2 ^ k)) × (j ≤ k) × (k ≤ 63) × (v ≤ 2 ^ k) × ((k ≡ j) ⊎ (2 ^ k < 2 * v))

round_up_from-FirstPower :
    (fuel j v : ℕ)
    → v ≤ 2 ^ 63
    → j ≤ 63
    → 63 < fuel + j
    → FirstPower j v (round_up_from fuel (2 ^ j) v)
unfolding round_up_from
round_up_from-FirstPower zero j v h hj hf = absurd (omega arith)
round_up_from-FirstPower (suc fuel) j v h hj hf = elim (Bool-cases (ltb (2 ^ j) v)) [
  | inl more ↦ rw more (
      let (k, e, low, top, enough, tight) =
        round_up_from-FirstPower fuel (suc j) v h (below_top j hj (ground arith)) (omega arith) in
      (
        k,
        ap (λ p. round_up_from fuel p v) (doubled j (below_top j hj (ground arith))) ∙ e,
        omega arith,
        top,
        enough,
        inr (ground (arith, pow-suc 2 j)),
      ))
  | inr done ↦ rw done (j, refl, omega arith, hj, ground arith, inl refl)
]

round_up_from-zero : (fuel v : ℕ) → 0 < v → round_up_from fuel 0 v ≡ none
unfolding round_up_from
round_up_from-zero zero v h = refl
round_up_from-zero (suc fuel) v h = ground (arith, round_up_from-zero fuel v)

round_up_from_hangs : (fuel j v : ℕ) → 2 ^ 63 < v → j ≤ 63 → round_up_from fuel (2 ^ j) v ≡ none
unfolding round_up_from
round_up_from_hangs zero j v h hj = refl
round_up_from_hangs (suc fuel) j v h hj = elim (dec_lt j 63) [
  | yes p ↦ ground (
    arith,
    doubled j p,
    pow-le-pow_right {n = 2} (omega arith) {i = j} {j = 63} hj,
    round_up_from_hangs fuel (suc j) v h p,
  )
  | no p ↦ let top : j ≡ 63 = omega arith in rw top (ground (arith, round_up_from-zero fuel v))
]

-- A request of more than 2 ^ 63 bytes has no power of two to go to: the loop of `edt_round_up_pow2`
-- doubles to 0, and no number of rounds ends it.
pub round_up_from_never_ends :
    (fuel v : ℕ) → 2 ^ 63 < v → v < 2 ^ 64 → round_up_from fuel 1 v ≡ none
round_up_from_never_ends fuel v h word = round_up_from_hangs fuel 0 v h (omega arith)

round_up_pow2-FirstPower : (n : ℕ) → n ≤ 2 ^ 63 → FirstPower 0 n (round_up_pow2 n)
unfolding round_up_pow2
round_up_pow2-FirstPower n h = round_up_from-FirstPower 65 0 n h (omega arith) (omega arith)

power_above : (k n : ℕ) → 2 ≤ n → n ≤ 2 ^ k → 1 ≤ k
power_above zero n two h = absurd (omega arith)
power_above (suc k) n two h = omega arith

power_pos : (k n : ℕ) → 2 ≤ n → n ≡ 2 ^ k → 1 ≤ k
power_pos k n two e = power_above k n two (omega arith)

power_small : (k n : ℕ) → n ≤ 2 ^ 63 → n ≡ 2 ^ k → k ≤ 63
power_small k n top e = elim (dec_lt 63 k) [
  | yes p ↦ absurd (omega (arith, pow-le-pow_right {n = 2} (omega arith) {i = 64} {j = k} p))
  | no p ↦ omega arith
]

power_tight : (k n : ℕ) → 2 ≤ n → (k ≡ 0) ⊎ (2 ^ k < 2 * n) → 2 ^ k < 2 * n
power_tight k n two (inl e) = omega (arith, ap (λ i. 2 ^ i) e)
power_tight k n two (inr h) = h

-- Every request up to 2 ^ 63 is given the least power of two that is at least as large, in at most 64
-- rounds.
pub rounded_capacity_lem :
    (n : ℕ)
    → 2 ≤ n
    → n ≤ 2 ^ 63
    → (k : ℕ) × (rounded_capacity n ≡ some (2 ^ k))
      × (1 ≤ k)
      × (k ≤ 63)
      × (n ≤ 2 ^ k)
      × (2 ^ k < 2 * n)
unfolding rounded_capacity
rounded_capacity_lem n two top = elim (Bool-cases (is_power_of_two n)) [
  | inl exact ↦
      let (k, e) = only_powers n exact in
      rw exact (
        k,
        ap some e,
        power_pos k n two e,
        power_small k n top e,
        omega arith,
        omega (arith, two, e),
      )
  | inr between ↦
      let (k, e, low, small, enough, tight) = round_up_pow2-FirstPower n top in
      rw between (k, e, power_above k n two enough, small, enough, power_tight k n two tight)
]
