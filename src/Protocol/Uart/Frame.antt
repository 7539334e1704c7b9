-- ===== src/Protocol/Uart/Frame.antt =====
-- `edt_decode_uart` reads back the byte of a frame.
use native.Mathlib.Nat.{
  pow-suc, pow-le-pow_right, one-le-pow, div-add-mod, mod-lt, mod-eq_of_lt, add-mul-mod_self_left,
  mul-le-mul_right,
}
use plat.Base.{
  ℕ, zero, suc, ◌+◌, ◌-◌, ◌*◌, ◌/◌, ◌%◌, ◌^◌, ◌≤◌, ◌<◌, ◌≡◌, refl, sym, ap, ap₂, ◌∙◌, some, List,
  [], ◌∷◌, length, arith,
}
use plat.Base.Words.{to_u8}
use plat.LogicAnalyzer.{Sample}
use plat.Protocol.Uart.{line, data_bits, uart_event, frame, uart_round}

-- The samples of a frame that starts at `start` and carries `byte`, as far as the decoder looks.
pub record IsFrame (samples : List Sample) (rx per_bit start byte : ℕ) : Type 0 where
  pub small : byte < 256
  pub idle : line samples rx (start - 1) ≡ 1
  pub falls : line samples rx start ≡ 0
  pub start_bit : line samples rx (start + per_bit / 2) ≡ 0
  pub bits :
      (k : ℕ)
      → k < 8
      → line samples rx (start + per_bit + per_bit / 2 + k * per_bit) ≡ byte / 2 ^ k % 2
  pub stop_bit : line samples rx (start + per_bit + per_bit / 2 + 8 * per_bit) ≡ 1
  pub inside : start + per_bit + per_bit / 2 + 8 * per_bit < length samples

expand : (n p r b h : ℕ) → n ≡ p * (b + 2 * h) + r → n ≡ (r + b * p) + p * 2 * h
expand n p r b h e = grind arith

n_split : (n p q r : ℕ) → n ≡ p * q + r → n ≡ (r + q % 2 * p) + p * 2 * (q / 2)
n_split n p q r e =
    let halves : q ≡ q % 2 + 2 * (q / 2) = omega arith in
    expand n p r (q % 2) (q / 2) (e ∙ ap (λ t. p * t + r) halves)

below_double : (r p b : ℕ) → r < p → b < 2 → r + b * p < p * 2
below_double r p zero h k = omega arith
below_double r p (suc zero) h k = omega arith
below_double r p (suc (suc b)) h k = absurd (omega arith)

half_byte : (b p : ℕ) → b < 2 → p ≤ 128 → b * p < 256
half_byte zero p h k = omega arith
half_byte (suc zero) p h k = omega arith
half_byte (suc (suc b)) p h k = absurd (omega arith)

-- The binary digits of a number below the digit `k + 1`.
bits_below : (n k : ℕ) → n % 2 ^ suc k ≡ n % 2 ^ k + n / 2 ^ k % 2 * 2 ^ k
bits_below n k =
    let q : ℕ = n / 2 ^ k in
    let r : ℕ = n % 2 ^ k in
    let p : ℕ = 2 ^ k in
    let whole : n ≡ (r + q % 2 * p) + p * 2 * (q / 2) =
      n_split n p q r (omega (arith, div-add-mod n p)) in
    let pos : 0 < p = one-le-pow k 2 (omega arith) in
    let below : r + q % 2 * p < p * 2 = below_double r p (q % 2) (mod-lt n pos) (omega arith) in
    rw (pow-suc 2 k) (
      ap (λ t. t % (p * 2)) whole
      ∙ add-mul-mod_self_left (r + q % 2 * p) (p * 2) (q / 2)
      ∙ mod-eq_of_lt below)

bit_small : (n k : ℕ) → k < 8 → to_u8 (n / 2 ^ k % 2 * 2 ^ k) ≡ n / 2 ^ k % 2 * 2 ^ k
bit_small n k h =
    let top : 2 ^ k ≤ 2 ^ 7 =
      pow-le-pow_right {n = 2} (omega arith) {i = k} {j = 7} (omega arith) in
    mod-eq_of_lt {m = 2 ^ 8} (half_byte (n / 2 ^ k % 2) (2 ^ k) (omega arith) top)

module _ (samples : List Sample) (rx per_bit start byte : ℕ)
    (f : IsFrame samples rx per_bit start byte) where
  abbrev first : ℕ
  first = start + per_bit + per_bit / 2

  data_bits-step :
      (rounds k value pos : ℕ)
      → pos < length samples
      → data_bits samples rx per_bit (suc rounds) k value pos
        ≡ data_bits samples rx per_bit rounds
            (k + 1)
            (value + to_u8 (line samples rx pos * 2 ^ k))
            (pos + per_bit)
  unfolding data_bits
  data_bits-step rounds k value pos h = ground arith

  le8 : (k : ℕ) → k < 8 → k ≤ 8
  le8 k h = omega arith

  place_inside : (k : ℕ) → k < 8 → first + k * per_bit < length samples
  place_inside k h = omega (arith, f.inside, mul-le-mul_right per_bit (le8 k h))

  data_bits-byte :
      (rounds k : ℕ)
      → k + rounds ≡ 8
      → data_bits samples rx per_bit rounds k (byte % 2 ^ k) (first + k * per_bit)
        ≡ (8, byte % 2 ^ 8, first + 8 * per_bit)
  unfolding data_bits
  data_bits-byte zero k e = let last : k ≡ 8 = omega arith in rw last refl
  data_bits-byte (suc rounds) k e =
      let p : ℕ = first + k * per_bit in
      let b : line samples rx p ≡ byte / 2 ^ k % 2 = f.bits k (omega arith) in
      let value : byte % 2 ^ k + to_u8 (line samples rx p * 2 ^ k) ≡ byte % 2 ^ (k + 1) =
        rw (b, bit_small byte k (omega arith))
          (sym (bits_below byte k) ∙ ap (λ j. byte % 2 ^ j) (omega arith)) in
      let onward : p + per_bit ≡ first + (k + 1) * per_bit = grind arith in
      rw (data_bits-step rounds k (byte % 2 ^ k) p (place_inside k (omega arith)), value, onward)
        (data_bits-byte rounds (k + 1) (omega arith))

  frame_value : data_bits samples rx per_bit 8 0 0 first ≡ (8, byte, first + 8 * per_bit)
  frame_value =
      let low : byte % 2 ^ 0 ≡ 0 = omega arith in
      let whole : byte % 2 ^ 8 ≡ byte = omega (arith, f.small) in
      let from : first + 0 * per_bit ≡ first = omega arith in
      ap₂ (data_bits samples rx per_bit 8 0) (sym low) (sym from)
      ∙ data_bits-byte 8 0 (omega arith)
      ∙ ap (λ v. (8, v, first + 8 * per_bit)) whole

  -- Where the line falls at the start of a frame, and the line is at the level of each bit of the
  -- frame in the middle of that bit, the decoder's round gives one event: it has the frame's byte and
  -- the time of the start. It goes on after the middle of the stop bit.
  pub uart_reads_frame :
      uart_round samples rx per_bit start
      ≡ some (first + 8 * per_bit + 1, uart_event samples rx start byte ∷ [])
  unfolding uart_round frame
  uart_reads_frame =
      rw (f.idle, f.falls, frame_value, f.start_bit, f.stop_bit) (ground (arith, f.inside))
