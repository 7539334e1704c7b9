-- ===== src/Protocol/I2c/Byte.antt =====
-- `edt_decode_i2c` reads back a byte and its acknowledge bit from the clock pulses that carry them.
use plat.Base.{
  ℕ, suc, ◌+◌, ◌<◌, ◌≡◌, refl, ap, ◌∙◌, true, false, Option, none, some, List, [], ◌∷◌, ◌++◌,
  length, ◌==◌, if◌then◌else◌, arith,
}
use plat.Base.Words.{to_u8}
use plat.LogicAnalyzer.{Sample}
use plat.Protocol.{Event, i2c, bit, shift_in, msb_first}
use plat.Protocol.I2c.{I2cConfig, I2cState, i2c_event, data_bit, i2c_clock, i2c_step, i2c_from}

module _ (cfg : I2cConfig) where
  -- A pulse of the clock while the data line stays at `b`: a sample with the clock low, and one with
  -- it high.
  pub record IsPulse (low high : Sample) (b : ℕ) : Type 0 where
    pub clock_low : bit low.channels cfg.scl_channel ≡ 0
    pub clock_high : bit high.channels cfg.scl_channel ≡ 1
    pub data_low : bit low.channels cfg.sda_channel ≡ b
    pub data_high : bit high.channels cfg.sda_channel ≡ b

  -- Samples that carry the bits `bs`.
  pub data Carries : List Sample → List ℕ → Type 0 where
    nothing : Carries [] []
    pulse :
        {ss : List Sample} {bs : List ℕ} {low high : Sample} {b : ℕ}
        → IsPulse low high b
        → Carries ss bs
        → Carries (low ∷ high ∷ ss) (b ∷ bs)

  low_keeps :
      (st : I2cState) (before low : Sample)
      → bit low.channels cfg.scl_channel ≡ 0
      → i2c_step cfg st before low ≡ (st, none)
  unfolding i2c_step
  low_keeps st before low h = rw h (ground arith)

  high_clocks :
      (st : I2cState) (low high : Sample) (b : ℕ)
      → IsPulse low high b
      → st.active ≡ true
      → i2c_step cfg st low high ≡ i2c_clock st high b
  unfolding i2c_step
  high_clocks st low high b p h =
      rw (p.clock_low, p.clock_high, p.data_low, p.data_high, h) (ground arith)

  -- The rest of the loop after a round.
  go_on : ℕ → Sample → List Sample → I2cState × Option Event → List Event
  go_on room s ss (st', none) = i2c_from cfg st' (suc room) s ss
  go_on room s ss (st', some event) = event ∷ i2c_from cfg st' room s ss

  module _ (st st' : I2cState) (room : ℕ) (before s : Sample) (ss : List Sample) where
    opened : i2c_from cfg st (suc room) before (s ∷ ss) ≡ go_on room s ss (i2c_step cfg st before s)
    unfolding i2c_from go_on
    opened = ground arith

    quiet_round :
        i2c_step cfg st before s ≡ (st', none)
        → i2c_from cfg st (suc room) before (s ∷ ss) ≡ i2c_from cfg st' (suc room) s ss
    unfolding i2c_from go_on
    quiet_round e = opened ∙ ap (go_on room s ss) e

    event_round :
        (event : Event)
        → i2c_step cfg st before s ≡ (st', some event)
        → i2c_from cfg st (suc room) before (s ∷ ss) ≡ event ∷ i2c_from cfg st' room s ss
    unfolding i2c_from go_on
    event_round event e = opened ∙ ap (go_on room s ss) e

  module _ (st : I2cState) (room : ℕ) (before low high : Sample) (b : ℕ) (rest : List Sample)
      (p : IsPulse low high b) (h : st.active ≡ true) where
    data_pulse :
        st.expect_ack ≡ false
        → i2c_from cfg st (suc room) before (low ∷ high ∷ rest)
          ≡ i2c_from cfg (data_bit st b) (suc room) high rest
    unfolding i2c_clock
    data_pulse k =
        quiet_round st st room before low (high ∷ rest) (low_keeps st before low p.clock_low)
        ∙ quiet_round st (data_bit st b) room low high rest
            (high_clocks st low high b p h ∙ rw k refl)

    ack_pulse :
        st.expect_ack ≡ true
        → i2c_from cfg st (suc room) before (low ∷ high ∷ rest)
          ≡ i2c_event st high b
            ∷ i2c_from cfg (record st { current = 0; expect_ack = false }) room high rest
    unfolding i2c_clock
    ack_pulse k =
        quiet_round st st room before low (high ∷ rest) (low_keeps st before low p.clock_low)
        ∙ event_round st (record st { current = 0; expect_ack = false }) room low high rest _
            (high_clocks st low high b p h ∙ rw k refl)

  -- The state in which a transfer waits for the next byte, and the one after its eight bits.
  abbrev pub byte_begins : I2cState
  byte_begins = record { active = true; bit_count = 0; current = 0; expect_ack = false }

  abbrev byte_ends : ℕ → I2cState
  byte_ends v = record { active = true; bit_count = 0; current = v; expect_ack = true }

  abbrev part : ℕ → ℕ → I2cState
  part n v = record { active = true; bit_count = n; current = v; expect_ack = false }

  data_bit-part : (n v b : ℕ) → n < 7 → data_bit (part n v) b ≡ part (suc n) (shift_in v b)
  unfolding data_bit
  data_bit-part n v b h = let next : to_u8 (n + 1) ≡ suc n = omega arith in rw next (ground arith)

  last_bit : (v b : ℕ) → data_bit (part 7 v) b ≡ byte_ends (shift_in v b)
  unfolding data_bit
  last_bit v b = refl

  -- The last of the samples, or the one before them.
  abbrev last_of : Sample → List Sample → Sample
  last_of before [] = before
  last_of before (s ∷ ss) = last_of s ss

  data_pulses :
      (n v room : ℕ) (before : Sample) (ss : List Sample) (bs : List ℕ) (rest : List Sample)
      → Carries ss bs
      → n + length bs ≡ 8
      → n < 8
      → i2c_from cfg (part n v) (suc room) before (ss ++ rest)
        ≡ i2c_from cfg (byte_ends (msb_first v bs)) (suc room) (last_of before ss) rest
  data_pulses n v room before ss bs rest nothing e h = absurd (omega arith)
  data_pulses n v room before ss bs rest (pulse {low} {high} {b} p nothing) e h =
      let seven : n ≡ 7 = omega arith in
      data_pulse (part n v) room before low high b rest p refl refl
      ∙ ap (λ st. i2c_from cfg st (suc room) high rest)
          (ap (λ i. data_bit (part i v) b) seven ∙ last_bit v b)
  data_pulses n v room before ss bs rest (pulse {ss = tail} {bs = bits} {low} {high} {b} p more) e
        h =
      data_pulse (part n v) room before low high b (tail ++ rest) p refl refl
      ∙ ap (λ st. i2c_from cfg st (suc room) high (tail ++ rest))
          (data_bit-part n v b (omega arith))
      ∙ data_pulses (suc n) (shift_in v b) room high tail bits rest more (omega arith) (omega arith)

  -- In a transfer that waits for a byte, eight pulses with its bits and a ninth for the acknowledge
  -- give one event, if there is room: its value is the byte, most significant bit first, and it says
  -- whether the ninth bit was low. The decoder then waits for the next byte.
  pub i2c_reads_byte :
      (room : ℕ) (before : Sample) (ss : List Sample) (bs : List ℕ) (low high : Sample) (ack : ℕ)
      (rest : List Sample)
      → Carries ss bs
      → length bs ≡ 8
      → IsPulse low high ack
      → i2c_from cfg byte_begins (suc room) before (ss ++ low ∷ high ∷ rest)
        ≡ record {
          type = i2c;
          timestamp_ns = high.timestamp_ns;
          value0 = msb_first 0 bs;
          value1 = if ack == 0 then 1 else 0;
        }
          ∷ i2c_from cfg byte_begins room high rest
  unfolding i2c_event
  i2c_reads_byte room before ss bs low high ack rest c e p =
      data_pulses 0 0 room before ss bs (low ∷ high ∷ rest) c (omega arith) (omega arith)
      ∙ ack_pulse (byte_ends (msb_first 0 bs)) room (last_of before ss) low high ack rest p refl
          refl
